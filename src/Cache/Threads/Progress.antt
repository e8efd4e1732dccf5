-- ===== src/Cache/Threads/Progress.antt =====
-- No thread waits for ever.
use dnser.Base.{
  ℕ, suc, ◌+◌, ◌*◌, ◌≤◌, ◌≡◌, refl, ap, subst, Bool, true, false, not, Option, none, some, List, [],
  ◌∷◌, ◌++◌, length, All, arith, Bool-cases, Option-cases, ◌⊎◌, inl, inr,
}
use dnser.Cache.{Shard}
use dnser.Cache.Keys.{HashCall}
use dnser.Cache.Reference.{CacheOp}
use dnser.Cache.Threads.{
  at_lock, at_load, at_eviction, at_sub, at_shard, at_sub_outside, at_relock, at_insert, at_add,
  Task, inserting, reaping, reaped, finished, System, Run, start, later, act, holds, wants, is_free,
  is_finished, can_step,
}
use dnser.Cache.Threads.Counter.{all_finished}
use dnser.Cache.Threads.Sums.{sum_of, sum_of-split, All-split}
use dnser.Cache.Threads.Measure.{left, act-lt, left-calls}

-- A call that can take its next step.
pub record CanGo (hash_one : List HashCall → ℕ) (tasks : List Task) : Type 0 where
  pub front : List Task
  pub task : Task
  pub back : List Task
  pub order : tasks ≡ front ++ (task ∷ back)
  pub able : can_step hash_one task (front ++ back) ≡ true

-- The first call that passes a test.
module _ (p : Task → Bool) where
  record Found (tasks : List Task) : Type 0 where
    front : List Task
    task : Task
    back : List Task
    order : tasks ≡ front ++ (task ∷ back)
    passes : p task ≡ true

  later_on : (t : Task) (tasks : List Task) → Found tasks → Found (t ∷ tasks)
  later_on t tasks f = record {
    front = t ∷ f.front;
    task = f.task;
    back = f.back;
    order = ap (◌∷◌ t) f.order;
    passes = f.passes;
  }

  find : (tasks : List Task) → Found tasks ⊎ All (λ t. p t ≡ false) tasks
  find [] = inr tt
  find (t ∷ tasks) = elim (Bool-cases (p t)) [
    | inl here ↦ inl (record { front = []; task = t; back = tasks; order = refl; passes = here })
    | inr other ↦ elim (find tasks) [
      | inl f ↦ inl (later_on t tasks f)
      | inr nowhere ↦ inr (other, nowhere)
    ]
  ]

module _ (hash_one : List HashCall → ℕ) where
  abbrev pub is_some : Option ℕ → Bool
  is_some none = false
  is_some (some i) = true

  abbrev pub is_holding : Task → Bool
  is_holding t = is_some (holds hash_one t)

  -- A call that holds a lock waits for none.
  holding-can_step :
      (t : Task) (others : List Task) → is_holding t ≡ true → can_step hash_one t others ≡ true
  unfolding can_step holds wants
  holding-can_step (inserting x at_load) others h = refl
  holding-can_step (inserting x at_eviction) others h = refl
  holding-can_step (inserting x at_sub) others h = refl
  holding-can_step (inserting x at_insert) others h = refl
  holding-can_step (reaped now j n) others h = refl
  holding-can_step (inserting x at_lock) others h = absurd (ground (arith, h))
  holding-can_step (inserting x (at_shard j)) others h = absurd (ground (arith, h))
  holding-can_step (inserting x at_sub_outside) others h = absurd (ground (arith, h))
  holding-can_step (inserting x at_relock) others h = absurd (ground (arith, h))
  holding-can_step (inserting x (at_add fresh)) others h = absurd (ground (arith, h))
  holding-can_step (reaping now j) others h = absurd (ground (arith, h))
  holding-can_step finished others h = absurd (ground (arith, h))

  pub nobody_holds :
      (i : ℕ) (tasks : List Task)
      → All (λ t. is_holding t ≡ false) tasks
      → is_free hash_one i tasks ≡ true
  nobody_holds i [] h = refl
  nobody_holds i (t ∷ tasks) (h, hs) = elim (Option-cases (holds hash_one t)) [
    | inl nothing ↦ rw nothing (nobody_holds i tasks hs)
    | inr (j, e) ↦ absurd (ground (arith, h, e))
  ]

  free-can_step :
      (t : Task) (others : List Task)
      → not (is_finished t) ≡ true
      → All (λ t'. is_holding t' ≡ false) others
      → can_step hash_one t others ≡ true
  unfolding can_step
  free-can_step t others h none_held = elim (Option-cases (wants hash_one t)) [
    | inl nothing ↦ rw (nothing, h) refl
    | inr (i, e) ↦ rw (e, h) (nobody_holds i others none_held)
  ]

  unfinished_there :
      (tasks : List Task) → All (λ t. not (is_finished t) ≡ false) tasks → all_finished tasks ≡ true
  unfinished_there [] h = refl
  unfinished_there (t ∷ tasks) (h, hs) = ground (arith, h, unfinished_there tasks hs)

  finished_or-CanGo : (tasks : List Task) → (all_finished tasks ≡ true) ⊎ CanGo hash_one tasks
  finished_or-CanGo tasks = elim (find is_holding tasks) [
    | inl f ↦ inr (record {
      front = f.front;
      task = f.task;
      back = f.back;
      order = f.order;
      able = holding-can_step f.task (f.front ++ f.back) f.passes;
    })
    | inr none_held ↦ elim (find (λ t. not (is_finished t)) tasks) [
      | inr done ↦ inl (unfinished_there tasks done)
      | inl f ↦
          let free =
            All-split (λ t. is_holding t ≡ false) f.front f.task f.back
              (subst (All (λ t. is_holding t ≡ false)) f.order none_held) in
          inr (record {
            front = f.front;
            task = f.task;
            back = f.back;
            order = f.order;
            able = free-can_step f.task (f.front ++ f.back) f.passes free.1;
          })
    ]
  ]

module _ (iter : Shard → Shard) (hash_one : List HashCall → ℕ) (capacity cap : ℕ)
    (ops : List CacheOp) where
  abbrev pub steps :
      {stored : List CacheOp} {s : System} → Run iter hash_one capacity cap ops stored s → ℕ
  steps start = 0
  steps (later front t back run e able) = suc (steps run)

  can_step-unfinished :
      (t : Task) (others : List Task) → can_step hash_one t others ≡ true → is_finished t ≡ false
  unfolding can_step
  can_step-unfinished t others h = ground (arith, h)

  steps_left :
      {stored : List CacheOp} {s : System} (run : Run iter hash_one capacity cap ops stored s)
      → steps run + sum_of left s.tasks ≤ 129 * length ops
  steps_left start = omega (arith, left-calls cap ops)
  steps_left (later {s = s} front t back run e able) = omega (
    arith,
    steps_left run,
    ap (sum_of left) e,
    sum_of-split left front t back,
    sum_of-split left front (act iter hash_one capacity t s.memory).0 back,
    act-lt iter hash_one capacity t s.memory (can_step-unfinished t (front ++ back) able),
  )

  -- However the steps of insertions and of the reaper's rounds interleave: as long as one of them
  -- has not returned, one of them can take its next step, whatever locks are held; and together
  -- they take at most 129 steps for each of them, so none goes on for ever.
  pub no_deadlock :
      {stored : List CacheOp} {s : System} (run : Run iter hash_one capacity cap ops stored s)
      → ((all_finished s.tasks ≡ true) ⊎ CanGo hash_one s.tasks) × (steps run ≤ 129 * length ops)
  no_deadlock {s = s} run = (finished_or-CanGo hash_one s.tasks, omega (arith, steps_left run))
