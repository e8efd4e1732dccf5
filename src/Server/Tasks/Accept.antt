-- ===== src/Server/Tasks/Accept.antt =====
-- run of crates/dnser-server/src/tcp.rs: the loop that accepts connections. The task of a connection is
-- spawned on its own and is not waited for.
use dnser.Base.{
  ℕ, zero, suc, ◌+◌, ◌≤◌, ◌≡◌, refl, Bool, true, false, List, [], ◌∷◌, ◌++◌, arith, ◌∙◌,
}

-- The permits that are free, the connections that are open, whether `run` is in its loop.
pub record Listener : Type 0 where
  pub permits : ℕ
  pub open_connections : ℕ
  pub listening : Bool

pub data TcpEvent : Type 0 where
  accepted accept_error connection_ends shutdown : TcpEvent

-- `try_acquire_owned`: without a permit the connection is dropped.
abbrev on_accepted : Bool → ℕ → ℕ → Listener
on_accepted false permits connections = record {
  permits = permits;
  open_connections = connections;
  listening = false;
}
on_accepted true zero connections = record {
  permits = zero;
  open_connections = connections;
  listening = true;
}
on_accepted true (suc permits) connections = record {
  permits = permits;
  open_connections = connections + 1;
  listening = true;
}

-- The permit of a connection is dropped at its end.
abbrev on_connection_ends : ℕ → ℕ → Bool → Listener
on_connection_ends permits zero listening = record {
  permits = permits;
  open_connections = zero;
  listening = listening;
}
on_connection_ends permits (suc connections) listening = record {
  permits = permits + 1;
  open_connections = connections;
  listening = listening;
}

unfoldable pub tcp_transition : TcpEvent → Listener → Listener
tcp_transition accepted s = on_accepted s.listening s.permits s.open_connections
tcp_transition accept_error s = s
tcp_transition connection_ends s = on_connection_ends s.permits s.open_connections s.listening
tcp_transition shutdown s = record s { listening = false }

unfoldable pub run_listener : List TcpEvent → Listener → Listener
run_listener [] s = s
run_listener (e ∷ events) s = run_listener events (tcp_transition e s)

-- `Semaphore::new(tcp_max_connections)`
abbrev pub start_listener : ℕ → Listener
start_listener limit = record { permits = limit; open_connections = 0; listening = true }

tcp_transition_keeps :
    (e : TcpEvent) (s : Listener)
    → (tcp_transition e s).permits + (tcp_transition e s).open_connections
      ≡ s.permits + s.open_connections
unfolding tcp_transition
tcp_transition_keeps accepted s = ground arith
tcp_transition_keeps accept_error s = refl
tcp_transition_keeps connection_ends s = ground arith
tcp_transition_keeps shutdown s = refl

run_listener_keeps :
    (events : List TcpEvent) (s : Listener)
    → (run_listener events s).permits + (run_listener events s).open_connections
      ≡ s.permits + s.open_connections
unfolding run_listener
run_listener_keeps [] s = refl
run_listener_keeps (e ∷ events) s =
    run_listener_keeps events (tcp_transition e s) ∙ tcp_transition_keeps e s

pub stays_closed :
    (e : TcpEvent) (s : Listener)
    → s.listening ≡ false
    → ((tcp_transition e s).listening ≡ false)
      × ((tcp_transition e s).open_connections ≤ s.open_connections)
unfolding tcp_transition
stays_closed accepted s h = (ground (arith, h), ground (arith, h))
stays_closed accept_error s h = (h, omega arith)
stays_closed connection_ends s h = (ground (arith, h), ground (arith, h))
stays_closed shutdown s h = (refl, omega arith)

none_opens :
    (events : List TcpEvent) (s : Listener)
    → s.listening ≡ false
    → (run_listener events s).open_connections ≤ s.open_connections
unfolding run_listener
none_opens [] s h = omega arith
none_opens (e ∷ events) s h =
    let (closed, fewer) = stays_closed e s h in
    omega (arith, none_opens events (tcp_transition e s) closed, fewer)

after_shutdown :
    (events later : List TcpEvent) (s : Listener)
    → (run_listener (events ++ shutdown ∷ later) s).open_connections
      ≤ (run_listener events s).open_connections
unfolding run_listener tcp_transition
after_shutdown [] later s = none_opens later (record s { listening = false }) refl
after_shutdown (e ∷ events) later s = after_shutdown events later (tcp_transition e s)

-- However connections, their ends and errors interleave, the free permits and the open connections add
-- up to the limit, and from a shutdown on no connection is opened.
pub connections_add_up :
    (limit : ℕ) (events later : List TcpEvent)
    → ((run_listener events (start_listener limit)).permits
          + (run_listener events (start_listener limit)).open_connections
        ≡ limit)
      × ((run_listener (events ++ shutdown ∷ later) (start_listener limit)).open_connections
          ≤ (run_listener events (start_listener limit)).open_connections)
connections_add_up limit events later = (
  omega (arith, run_listener_keeps events (start_listener limit)),
  after_shutdown events later (start_listener limit),
)
