-- ===== src/Server/Tasks/Permits.antt =====
-- The permits that are free and the tasks that run.
use dnser.Base.{
  ℕ, zero, suc, ◌+◌, ◌≡◌, refl, ◌∙◌, some, List, [], ◌∷◌, get_elem?, set, arith, Option-cases, inl,
  inr,
}
use dnser.Server.Tasks.{
  Pool, Event, received, recv_error, task_ends, joined, shutdown, join_set_empty, drain_timeout,
  transition, Workers, step, run_events, fresh_pools, start_workers,
}

abbrev pub total_running : List Pool → ℕ
total_running [] = 0
total_running (p ∷ pools) = p.running + total_running pools

transition_keeps :
    (e : Event) (permits : ℕ) (p : Pool)
    → (transition e permits p).0 + (transition e permits p).1.running ≡ permits + p.running
unfolding transition
transition_keeps received permits p = ground arith
transition_keeps recv_error permits p = refl
transition_keeps task_ends permits p = ground arith
transition_keeps joined permits p = refl
transition_keeps shutdown permits p = ground arith
transition_keeps join_set_empty permits p = ground arith
transition_keeps drain_timeout permits p = ground arith

pub total_running-set :
    (pools : List Pool) (i : ℕ) (p p' : Pool)
    → get_elem? pools i ≡ some p
    → total_running (set pools i p') + p.running ≡ total_running pools + p'.running
total_running-set [] i p p' e = absurd (ground arith)
total_running-set (x ∷ pools) zero p p' e = ground (arith, e)
total_running-set (x ∷ pools) (suc i) p p' e = omega (arith, total_running-set pools i p p' e)

pub step_keeps :
    (i : ℕ) (e : Event) (s : Workers)
    → (step i e s).permits + total_running (step i e s).pools ≡ s.permits + total_running s.pools
unfolding step
step_keeps i e s = elim (Option-cases (get_elem? s.pools i)) [
  | inl missing ↦ rw (missing, step) refl
  | inr (p, found) ↦
      let p' : Pool = (transition e s.permits p).1 in
      rw (found, step)
        (omega (arith, total_running-set s.pools i p p' found, transition_keeps e s.permits p))
]

run_keeps :
    (events : List (ℕ × Event)) (s : Workers)
    → (run_events events s).permits + total_running (run_events events s).pools
      ≡ s.permits + total_running s.pools
unfolding run_events
run_keeps [] s = refl
run_keeps ((i, e) ∷ events) s = run_keeps events (step i e s) ∙ step_keeps i e s

pub fresh_running : (n : ℕ) → total_running (fresh_pools n) ≡ 0
fresh_running zero = refl
fresh_running (suc n) = omega (arith, fresh_running n)

-- However datagrams, tasks, joins and shutdowns of the workers interleave, the free permits and the
-- tasks that run add up to the limit: never more run at once, and none is lost, not when a drain is
-- cut off.
pub permits_add_up :
    (limit workers : ℕ) (events : List (ℕ × Event))
    → (run_events events (start_workers limit workers)).permits
        + total_running (run_events events (start_workers limit workers)).pools
      ≡ limit
permits_add_up limit workers events =
    omega (arith, run_keeps events (start_workers limit workers), fresh_running workers)
