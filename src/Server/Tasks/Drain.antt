-- ===== src/Server/Tasks/Drain.antt =====
-- The end of a worker.
use dnser.Base.{
  ℕ, ◌+◌, ◌-◌, ◌≤◌, ◌≡◌, refl, sym, subst, Bool, true, false, List, [], ◌∷◌, ◌++◌, arith,
}
use dnser.Server.Tasks.{
  Mode, draining, aborting, stopped, Pool, Event, received, recv_error, task_ends, joined, shutdown,
  join_set_empty, drain_timeout, transition, run_pool,
}

abbrev pub is_joined : Event → ℕ
is_joined joined = 1
is_joined _ = 0

-- How often `join_next` returns a task.
abbrev pub joins : List Event → ℕ
joins [] = 0
joins (e ∷ events) = is_joined e + joins events

abbrev pub is_over : Mode → Bool
is_over aborting = true
is_over stopped = true
is_over _ = false

-- Past the drain's timeout: no task runs, and `ended` are left to join.
record IsOver (permits ended : ℕ) (s : ℕ × Pool) : Type 0 where
  over : is_over s.1.mode ≡ true
  none_runs : s.1.running ≡ 0
  left : s.1.ended ≡ ended
  free : s.0 ≡ permits

unchanged-IsOver :
    (permits ended : ℕ) (s t : ℕ × Pool)
    → t ≡ s
    → IsOver permits ended s
    → IsOver permits (ended - 0) t
unchanged-IsOver permits ended s t e h =
    subst (IsOver permits _) (sym e) (subst (λ (n : ℕ). IsOver permits n s) (omega arith) h)

transition-IsOver :
    (e : Event) (permits ended free : ℕ) (p : Pool)
    → IsOver permits ended (free, p)
    → IsOver permits (ended - is_joined e) (transition e free p)
unfolding transition
transition-IsOver received permits ended free p h =
    unchanged-IsOver permits ended _ _ (ground (arith, h.over)) h
transition-IsOver recv_error permits ended free p h = unchanged-IsOver permits ended _ _ refl h
transition-IsOver task_ends permits ended free p h =
    unchanged-IsOver permits ended _ _ (ground (arith, h.none_runs)) h
transition-IsOver joined permits ended free p h = record {
  over = h.over;
  none_runs = h.none_runs;
  left = omega (arith, h.left);
  free = h.free;
}
transition-IsOver shutdown permits ended free p h =
    unchanged-IsOver permits ended _ _ (ground (arith, h.over)) h
transition-IsOver join_set_empty permits ended free p h = record {
  over = ground (arith, h.over);
  none_runs = ground (arith, h.over, h.none_runs);
  left = ground (arith, h.over, h.left);
  free = ground (arith, h.over, h.free);
}
transition-IsOver drain_timeout permits ended free p h =
    unchanged-IsOver permits ended _ _ (ground (arith, h.over)) h

run_pool-IsOver :
    (events : List Event) (permits ended free : ℕ) (p : Pool)
    → IsOver permits ended (free, p)
    → IsOver permits (ended - joins events) (run_pool events free p)
unfolding run_pool
run_pool-IsOver [] permits ended free p h = unchanged-IsOver permits ended _ _ refl h
run_pool-IsOver (e ∷ events) permits ended free p h =
    subst (λ (n : ℕ). IsOver permits n (run_pool (e ∷ events) free p)) (omega arith)
      (run_pool-IsOver events permits (ended - is_joined e) _ _
        (transition-IsOver e permits ended free p h))

run_pool-append :
    (events later : List Event) (free : ℕ) (p : Pool)
    → run_pool (events ++ later) free p
      ≡ run_pool later (run_pool events free p).0 (run_pool events free p).1
unfolding run_pool
run_pool-append [] later free p = refl
run_pool-append (e ∷ events) later free p =
    run_pool-append events later (transition e free p).0 (transition e free p).1

stops :
    (permits free : ℕ) (p : Pool)
    → IsOver permits 0 (free, p)
    → (transition join_set_empty free p).1.mode ≡ stopped
unfolding transition
stops permits free p h = ground (arith, h.over, h.none_runs, h.left)

cut_off-IsOver :
    (permits : ℕ) (p : Pool)
    → p.mode ≡ draining
    → IsOver (permits + p.running) (p.running + p.ended) (transition drain_timeout permits p)
unfolding transition
cut_off-IsOver permits p drains = record {
  over = ground (arith, drains);
  none_runs = ground (arith, drains);
  left = ground (arith, drains);
  free = ground (arith, drains);
}

-- A worker whose drain runs into its timeout stops, whatever comes in between, once as many tasks are
-- joined as it had: nothing runs then, and the permits of the queries that were cut off are free.
pub drain_stops :
    (events : List Event) (permits : ℕ) (p : Pool)
    → p.mode ≡ draining
    → p.running + p.ended ≤ joins events
    → (let (permits', p') = run_pool (drain_timeout ∷ events ++ join_set_empty ∷ []) permits p in
        (p'.mode ≡ stopped) × (p'.running ≡ 0) × (p'.ended ≡ 0) × (permits' ≡ permits + p.running))
unfolding run_pool
drain_stops events permits p drains enough =
    let (n, q) = transition drain_timeout permits p in
    let last : ℕ × Pool = run_pool events n q in
    let joined_all : IsOver (permits + p.running) 0 last =
      subst (λ (left : ℕ). IsOver (permits + p.running) left last) (omega (arith, enough))
        (run_pool-IsOver events _ _ n q (cut_off-IsOver permits p drains)) in
    let end = transition-IsOver join_set_empty _ 0 last.0 last.1 joined_all in
    subst Ends (sym (run_pool-append events (join_set_empty ∷ []) n q))
      (stops _ last.0 last.1 joined_all, end.none_runs, end.left, end.free)
  where
    Ends : ℕ × Pool → Type 0
    Ends s =
        (s.1.mode ≡ stopped) × (s.1.running ≡ 0) × (s.1.ended ≡ 0) × (s.0 ≡ permits + p.running)
