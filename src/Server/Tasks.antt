-- ===== src/Server/Tasks.antt =====
-- `run` of crates/dnser-server/src/worker.rs: the loops of the UDP workers. They share a
-- semaphore; a query's task holds a permit until it ends. An event is one arm of the `select!`, a step
-- of the drain, or the end of a task.
pub mod Permits
pub mod Drain
pub mod Accept
use dnser.Base.{
  ℕ, zero, suc, ◌+◌, ◌-◌, ◌≡◌, Bool, true, false, Option, none, some, List, [], ◌∷◌, ◌==◌,
  if◌then◌else◌, get_elem?, set,
}

-- Where `run` is: in its loop, in the drain, past the drain's timeout, at its end.
pub data Mode : Type 0 where
  serving draining aborting stopped : Mode

-- One worker with its `JoinSet`: tasks that run, and tasks that have ended and are not joined yet.
pub record Pool : Type 0 where
  pub mode : Mode
  pub running : ℕ
  pub ended : ℕ

pub data Event : Type 0 where
  received recv_error task_ends joined shutdown join_set_empty drain_timeout : Event

-- `try_acquire_owned`: without a permit the datagram is dropped.
abbrev pub on_received : ℕ → Pool → ℕ × Pool
on_received zero p = (zero, p)
on_received (suc permits) p = (permits, record p { running = p.running + 1 })

-- A task that ends drops its permit.
abbrev pub on_task_ends : ℕ → Mode → ℕ → ℕ → ℕ × Pool
on_task_ends permits mode zero ended =
    (permits, record { mode = mode; running = zero; ended = ended })
on_task_ends permits mode (suc running) ended =
    (permits + 1, record { mode = mode; running = running; ended = ended + 1 })

abbrev pub is_empty_set : Pool → Bool
is_empty_set p = p.running + p.ended == 0

-- `break`, and the drain if queries remain.
abbrev pub on_shutdown : Pool → Pool
on_shutdown p = record p { mode = if is_empty_set p then stopped else draining }

-- `abort_all`: the tasks end, and their permits are dropped.
abbrev pub abort_all : ℕ → Pool → ℕ × Pool
abort_all permits p =
    (permits + p.running, record { mode = aborting; running = 0; ended = p.ended + p.running })

-- An event that cannot come in a mode changes nothing.
unfoldable pub transition : Event → ℕ → Pool → ℕ × Pool
transition received permits p = elim p.mode [ serving ↦ on_received permits p | _ ↦ (permits, p) ]
transition recv_error permits p = (permits, p)
transition task_ends permits p = on_task_ends permits p.mode p.running p.ended
transition joined permits p = (permits, record p { ended = p.ended - 1 })
transition shutdown permits p = elim p.mode [
  | serving ↦ (permits, on_shutdown p)
  | _ ↦ (permits, p)
]
transition join_set_empty permits p = elim p.mode [
  | serving ↦ (permits, p)
  | _ ↦ (permits, if is_empty_set p then record p { mode = stopped } else p)
]
transition drain_timeout permits p = elim p.mode [
  | draining ↦ abort_all permits p
  | _ ↦ (permits, p)
]

-- The workers over their semaphore.
pub record Workers : Type 0 where
  pub permits : ℕ
  pub pools : List Pool

abbrev stepped : Workers → ℕ → ℕ × Pool → Workers
stepped s i (permits, p) = record { permits = permits; pools = set s.pools i p }

unfoldable pub step : ℕ → Event → Workers → Workers
step i e s = elim (get_elem? s.pools i) [
  | none ↦ s
  | some p ↦ stepped s i (transition e s.permits p)
]

unfoldable pub run_events : List (ℕ × Event) → Workers → Workers
run_events [] s = s
run_events ((i, e) ∷ events) s = run_events events (step i e s)

abbrev pub fresh_pools : ℕ → List Pool
fresh_pools zero = []
fresh_pools (suc n) = record { mode = serving; running = 0; ended = 0 } ∷ fresh_pools n

-- `Semaphore::new(udp_max_inflight)`, and the workers of `start`
abbrev pub start_workers : ℕ → ℕ → Workers
start_workers limit workers = record { permits = limit; pools = fresh_pools workers }

-- One worker alone, with the permits it finds.
unfoldable pub run_pool : List Event → ℕ → Pool → ℕ × Pool
run_pool [] permits p = (permits, p)
run_pool (e ∷ events) permits p =
    let (permits', p') = transition e permits p in run_pool events permits' p'
