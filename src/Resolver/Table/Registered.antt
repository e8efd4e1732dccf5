-- ===== src/Resolver/Table/Registered.antt =====
-- Every query that waits is in the table or in the hand of recv_loop.
use dnser.Base.{
  ℕ, ◌≤◌, ◌≡◌, ◌≢◌, sym, subst, ◌∙◌, Bool, none, some, List, ◌∷◌, ◌==◌, arith, Bool-cases,
  Option-cases, inl, inr, ◌⊎◌, ltb, length, take, false,
}
use dnser.Base.Bytes.{Bytes, from_be_bytes}
use dnser.Resolver.{remove_id, receive, is_taken}
use dnser.Resolver.Holders.{holder, holder_free, holder_other}
use dnser.Resolver.InFlight.{allocated}
use dnser.Resolver.Table.{
  Phase, waiting, delivered, Table, update, deliver, on_datagram, send, armed_id, stop_waiting,
  release, ending_id, drop_guard, disarm, Step, register, datagram, sending, take_outcome, stop,
  drop, Reach, start, later,
}
use dnser.Resolver.Table.Owned.{IsFor, IsOwned, deliver-ne-waiting, drop_sender-ne-waiting}
use dnser.Resolver.Table.Owners.{Reach-IsOwned}

-- `recv_loop` holds the sender of query `i`.
abbrev Held : Table → ℕ → Type 0
Held s i = (b : Bytes) × (s.hand ≡ some (b, i))

abbrev IsRegistered : Table → Type 0
IsRegistered s = (i id : ℕ) → s.phase i ≡ waiting id → (holder id s.in_flight ≡ some i) ⊎ Held s i

register-IsRegistered :
    (s : Table) (i id : ℕ)
    → IsRegistered s
    → is_taken id s.in_flight ≡ false
    → IsRegistered
        (record s { in_flight = (id, i) ∷ s.in_flight; phase = update s.phase i (waiting id) })
unfolding remove_id
register-IsRegistered s i id h free j k e = elim (Bool-cases (j == i)) [
  | inl this ↦ inl (ground (arith, e, this))
  | inr other ↦ elim (h j k (ground (arith, e, other))) [
    | inr held ↦ inr held
    | inl there ↦ inl (ground (arith, there, other, holder_free id s.in_flight free))
  ]
]

-- What waits afterwards waited before.
rephase-IsRegistered :
    (s : Table) (phase : ℕ → Phase)
    → IsRegistered s
    → ((j k : ℕ) → phase j ≡ waiting k → s.phase j ≡ waiting k)
    → IsRegistered (record s { phase = phase })
rephase-IsRegistered s phase h waited j k e = h j k (waited j k e)

on_datagram-IsRegistered :
    (s : Table) (bytes : Bytes)
    → IsRegistered s
    → s.hand ≡ none
    → IsRegistered (on_datagram bytes s)
unfolding on_datagram receive
on_datagram-IsRegistered s bytes h free j k e = elim (h j k e) [
  | inr (b, held) ↦ absurd (ground (arith, held, free))
  | inl there ↦ elim (Bool-cases (ltb (length bytes) 12)) [
    | inl short ↦ inl (ground (arith, short, there))
    | inr long ↦
        let id : ℕ = from_be_bytes (take 2 bytes) in
        elim (Bool-cases (k == id)) [
          | inl same ↦ inr (bytes, ground (arith, long, there, same))
          | inr other ↦
              let apart : k ≢ id = ground (arith, other) in
              inl (rw long (holder_other k id s.in_flight apart ∙ there))
        ]
  ]
]

-- A query that is told waits no longer.
send-IsRegistered : (s : Table) → IsRegistered s → IsRegistered (send s)
unfolding send
send-IsRegistered s h = elim (Option-cases s.hand) [
  | inl free ↦ rw (free, send) h
  | inr ((b, i), held) ↦ rw (held, send) (told b i held)
]
  where
    told :
        (b : Bytes) (i : ℕ)
        → s.hand ≡ some (b, i)
        → IsRegistered (record s { hand = none; phase = update s.phase i (deliver b (s.phase i)) })
    told b i held j k e = elim (Bool-cases (j == i)) [
      | inl this ↦ absurd (deliver-ne-waiting b (s.phase i) k (ground (arith, e, this)))
      | inr other ↦ elim (h j k (ground (arith, e, other))) [
        | inl there ↦ inl there
        | inr (b', held') ↦ absurd (ground (arith, held, held', other))
      ]
    ]

stop_waiting-IsRegistered : (s : Table) (i : ℕ) → IsRegistered s → IsRegistered (stop_waiting i s)
unfolding stop_waiting
stop_waiting-IsRegistered s i h = elim (Option-cases (armed_id (s.phase i))) [
  | inl ended ↦ rw (ended, stop_waiting) h
  | inr (id, armed) ↦
      rw (armed, stop_waiting) (rephase-IsRegistered s _ h λ j k e. ground (arith, e))
]

-- The query that loses its entry to another's guard is told that its sender was dropped.
release-IsRegistered : (s : Table) (i id : ℕ) → IsRegistered s → IsRegistered (release i id s)
release-IsRegistered s i id h j k e = elim (Option-cases (holder id s.in_flight)) [
  | inl missing ↦
      let waited : s.phase j ≡ waiting k = ground (arith, missing, e) in
      kept waited λ same there. ground (arith, missing, same, there)
  | inr (l, held) ↦
      let waited : s.phase j ≡ waiting k =
        ground (arith, held, e, drop_sender-ne-waiting (s.phase l) k) in
      kept waited
        λ same there. ground (arith, held, same, there, e, drop_sender-ne-waiting (s.phase l) k)
]
  where
    kept :
        s.phase j ≡ waiting k
        → (k ≡ id → holder k s.in_flight ≢ some j)
        → (holder k (release i id s).in_flight ≡ some j) ⊎ Held (release i id s) j
    kept waited other = elim (h j k waited) [
      | inr held ↦ inr held
      | inl there ↦ inl (holder_other k id s.in_flight (λ same. other same there) ∙ there)
    ]

drop_guard-IsRegistered : (s : Table) (i : ℕ) → IsRegistered s → IsRegistered (drop_guard i s)
unfolding drop_guard
drop_guard-IsRegistered s i h = elim (Option-cases (ending_id (s.phase i))) [
  | inl ended ↦ rw (ended, drop_guard) h
  | inr (id, last) ↦ rw (last, drop_guard) (release-IsRegistered s i id h)
]

Step-IsRegistered :
    (may_end : Phase → Bool) {s t : Table} → IsRegistered s → Step may_end s t → IsRegistered t
Step-IsRegistered may_end {s} h (register randoms first i id in_flight fresh e) =
    let (free, whole) = allocated randoms first id i s.in_flight in_flight e in
    subst
      (λ (xs : List (ℕ × ℕ)).
        IsRegistered (record s { in_flight = xs; phase = update s.phase i (waiting id) }))
      (sym whole) (register-IsRegistered s i id h free)
Step-IsRegistered may_end {s} h (datagram bytes free) = on_datagram-IsRegistered s bytes h free
Step-IsRegistered may_end {s} h sending = send-IsRegistered s h
Step-IsRegistered may_end {s} h (take_outcome i told) =
    unfold disarm in rephase-IsRegistered s _ h λ j k e. ground (arith, e)
Step-IsRegistered may_end {s} h (stop i e) = stop_waiting-IsRegistered s i h
Step-IsRegistered may_end {s} h (drop i) = drop_guard-IsRegistered s i h

Reach-IsRegistered : (may_end : Phase → Bool) {s : Table} → Reach may_end s → IsRegistered s
Reach-IsRegistered may_end start = λ i id e. absurd (ground arith)
Reach-IsRegistered may_end (later run step) =
    Step-IsRegistered may_end (Reach-IsRegistered may_end run) step

-- The next datagram for a query in the table, while the hand is empty or holds another's sender.
next_answers :
    (s : Table) (bytes : Bytes) (i id : ℕ)
    → holder id s.in_flight ≡ some i
    → s.phase i ≡ waiting id
    → IsFor id bytes
    → (send (on_datagram bytes s)).phase i ≡ delivered id bytes
unfolding send on_datagram receive
next_answers s bytes i id there waits f =
    let long : ltb (length bytes) 12 ≡ false = ground (arith, f.long) in
    rw (long, f.begins, there, waits) (ground arith)

-- A query keeps its answer, and its wait while another is told.
send-delivered :
    (s : Table) (i id : ℕ) (answer : Bytes)
    → s.phase i ≡ delivered id answer
    → (send s).phase i ≡ delivered id answer
unfolding send
send-delivered s i id answer e = elim (Option-cases s.hand) [
  | inl free ↦ ground (arith, free, e)
  | inr ((b, j), held) ↦ ground (arith, held, e)
]

send-waiting :
    (s : Table) (i id : ℕ)
    → IsOwned s
    → holder id s.in_flight ≡ some i
    → s.phase i ≡ waiting id
    → (holder id (send s).in_flight ≡ some i) × ((send s).phase i ≡ waiting id)
unfolding send
send-waiting s i id h there waits = elim (Option-cases s.hand) [
  | inl free ↦ rw (free, send) (there, waits)
  | inr ((b, j), held) ↦
      rw (held, send) (there, ground (arith, waits, there, h.taken_out b id j held))
]

-- In every reachable state, whatever ended queries early: if `recv_loop` sends what it holds, takes a
-- datagram of 12 bytes or more that begins with the id of a query that waits, and sends that, with no
-- step of the others in between, then the query has an answer that begins with its id.
pub waiting_is_answered :
    (may_end : Phase → Bool) {s : Table} (bytes : Bytes) (i id : ℕ)
    → Reach may_end s
    → s.phase i ≡ waiting id
    → 12 ≤ length bytes
    → from_be_bytes (take 2 bytes) ≡ id
    → (answer : Bytes) × ((send (on_datagram bytes (send s))).phase i ≡ delivered id answer)
      × IsFor id answer
waiting_is_answered may_end {s} bytes i id run waits long begins =
    let h : IsOwned s = Reach-IsOwned may_end run in
    elim (Reach-IsRegistered may_end run i id waits) [
      | inl there ↦
          let f : IsFor id bytes = record { begins = begins; long = long } in
          let (still, waits') = send-waiting s i id h there waits in
          (bytes, next_answers (send s) bytes i id still waits' f, f)
      | inr (b, held) ↦
          let told : (send s).phase i ≡ delivered id b =
            unfold send in ground (arith, held, waits) in
          let kept : (on_datagram bytes (send s)).phase i ≡ delivered id b =
            unfold on_datagram in told in
          (b, send-delivered (on_datagram bytes (send s)) i id b kept, h.in_hand b id i held waits)
    ]
