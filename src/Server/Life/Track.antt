-- ===== src/Server/Life/Track.antt =====
-- One worker among the others: what holds of its pool, step by step.
use dnser.Base.{
  ℕ, zero, suc, ◌≡◌, refl, ap, sym, subst, ◌∙◌, Bool, false, some, List, [], ◌∷◌, get_elem?, set,
  ◌==◌, if◌then◌else◌, arith, Bool-cases, Option-cases, inl, inr, if_both, ==_iff,
}
use dnser.Cache.{Shard}
use dnser.Cache.Keys.{HashCall}
use dnser.Server.Life.{
  Life, LifeEvent, worker, tcp, tick, store, signal, handle_dropped, hears, tcp_hears, react, live,
}
use dnser.Server.Tasks.{
  Pool, Event, received, recv_error, task_ends, joined, shutdown, join_set_empty, drain_timeout,
  transition, Workers, step,
}

-- A number that the events of worker `i` change by `f`.
unfoldable pub tally : (ℕ → Event → ℕ) → ℕ → List LifeEvent → ℕ → ℕ
tally f i [] k = k
tally f i (worker j e ∷ events) k = tally f i events (if j == i then f k e else k)
tally f i (tcp e ∷ events) k = tally f i events k
tally f i (tick now ∷ events) k = tally f i events k
tally f i (store now m ∷ events) k = tally f i events k
tally f i (signal ∷ events) k = tally f i events k
tally f i (handle_dropped ∷ events) k = tally f i events k

-- Worker `i` has a pool with the property `Q`.
abbrev pub Has : (Pool → Type 0) → ℕ → Life → Type 0
Has Q i s = (p : Pool) × (get_elem? s.workers.pools i ≡ some p) × Q p

get_elem?-set_self :
    (pools : List Pool) (i : ℕ) (p p' : Pool)
    → get_elem? pools i ≡ some p
    → get_elem? (set pools i p') i ≡ some p'
get_elem?-set_self [] i p p' h = absurd (ground (arith, h))
get_elem?-set_self (x ∷ pools) zero p p' h = refl
get_elem?-set_self (x ∷ pools) (suc i) p p' h = get_elem?-set_self pools i p p' h

get_elem?-set_other :
    (pools : List Pool) (i j : ℕ) (p' : Pool)
    → (j == i) ≡ false
    → get_elem? (set pools j p') i ≡ get_elem? pools i
get_elem?-set_other [] i j p' h = refl
get_elem?-set_other (x ∷ pools) zero zero p' h = absurd (ground (arith, h))
get_elem?-set_other (x ∷ pools) zero (suc j) p' h = refl
get_elem?-set_other (x ∷ pools) (suc i) zero p' h = refl
get_elem?-set_other (x ∷ pools) (suc i) (suc j) p' h =
    get_elem?-set_other pools i j p' (ground (arith, h))

-- The pool of a worker after its own event, and after another's.
pub step_own :
    (i : ℕ) (e : Event) (w : Workers) (p : Pool)
    → get_elem? w.pools i ≡ some p
    → get_elem? (step i e w).pools i ≡ some (transition e w.permits p).1
unfolding step
step_own i e w p h = rw (h, step) (get_elem?-set_self w.pools i p (transition e w.permits p).1 h)

step_other :
    (i j : ℕ) (e : Event) (w : Workers)
    → (j == i) ≡ false
    → get_elem? (step j e w).pools i ≡ get_elem? w.pools i
unfolding step
step_other i j e w h = elim (Option-cases (get_elem? w.pools j)) [
  | inl missing ↦ rw (missing, step) refl
  | inr (p, found) ↦ rw (found, step) (get_elem?-set_other w.pools i j _ h)
]

-- Only the signal is waited for.
unheard_shutdown : (signalled : Bool) (e : Event) → hears signalled e ≡ false → e ≡ shutdown
unheard_shutdown signalled received h = absurd (ground (arith, h))
unheard_shutdown signalled recv_error h = absurd (ground (arith, h))
unheard_shutdown signalled task_ends h = absurd (ground (arith, h))
unheard_shutdown signalled joined h = absurd (ground (arith, h))
unheard_shutdown signalled shutdown h = refl
unheard_shutdown signalled join_set_empty h = absurd (ground (arith, h))
unheard_shutdown signalled drain_timeout h = absurd (ground (arith, h))

module _ (iter : Shard → Shard) (hash_one : List HashCall → ℕ) (i : ℕ) where
  module _ (Q : ℕ → Pool → Type 0) (f : ℕ → Event → ℕ)
      (stay : (k : ℕ) (p : Pool) → Q k p → Q (f k shutdown) p)
      (moves : (k n : ℕ) (e : Event) (p : Pool) → Q k p → Q (f k e) (transition e n p).1) where
    worker-Has :
        (j k : ℕ) (e : Event) (s : Life)
        → Has (Q k) i s
        → Has (Q (if j == i then f k e else k)) i (react iter hash_one (worker j e) s)
    unfolding react
    worker-Has j k e s (p, there, q) = elim (Bool-cases (hears s.signalled e)) [
      | inr unheard ↦ rw unheard (
        p,
        there,
        if_both (λ (n : ℕ). Q n p) (j == i)
            (subst (λ (t : Event). Q (f k t) p) (sym (unheard_shutdown s.signalled e unheard))
              (stay k p q))
            q,
      )
      | inl heard ↦ rw heard (elim (Bool-cases (j == i)) [
        | inl same ↦ rw same (
          (transition e s.workers.permits p).1,
          ap (λ (n : ℕ). get_elem? (step n e s.workers).pools i) ((==_iff j i).0 same)
              ∙ step_own i e s.workers p there,
          moves k s.workers.permits e p q,
        )
        | inr other ↦ rw other (p, step_other i j e s.workers other ∙ there, q)
      ])
    ]

    -- A property that every transition of a pool carries on holds however the rest of the server runs.
    pub live-Has :
        (events : List LifeEvent) (k : ℕ) (s : Life)
        → Has (Q k) i s
        → Has (Q (tally f i events k)) i (live iter hash_one events s)
    unfolding live react tally
    live-Has [] k s h = h
    live-Has (worker j e ∷ events) k s h = live-Has events _ _ (worker-Has j k e s h)
    live-Has (tcp e ∷ events) k s h =
        live-Has events k (react iter hash_one (tcp e) s)
          (if_both (Has (Q k) i) (tcp_hears s.signalled e) h h)
    live-Has (tick now ∷ events) k s h =
        live-Has events k (react iter hash_one (tick now) s) (if_both (Has (Q k) i) s.reaping h h)
    live-Has (store now m ∷ events) k s h = live-Has events k _ h
    live-Has (signal ∷ events) k s h = live-Has events k _ h
    live-Has (handle_dropped ∷ events) k s h = live-Has events k _ h
