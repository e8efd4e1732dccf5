-- ===== src/Cache/Threads/Suspended.antt =====
-- Many insertions, each suspended between its store and its count.
use dnser.Base.{
  ℕ, zero, suc, ◌<◌, ◌≡◌, refl, ap, sym, subst, ◌∙◌, Bool, true, false, not, List, [], ◌∷◌, ◌++◌,
  map, length, set, All, leb, if◌then◌else◌, arith, append_assoc, ◌⊎◌, inl, inr,
}
use dnser.Cache.{Shard, shard_at, shard_insert, contains_key, empty_shards}
use dnser.Cache.Distinct.{contains_key-remove}
use dnser.Cache.Keys.{CacheKey, HashCall, same_key}
use dnser.Cache.Reference.{CacheOp, put}
use dnser.Cache.Threads.{
  Insertion, at_lock, at_load, at_eviction, at_insert, at_add, Task, inserting, finished, Memory,
  Run, later, begin, calls, act, home, holds, wants, can_step,
}
use dnser.Cache.Threads.Balance.{adds, subs}
use dnser.Cache.Threads.Counter.{all_finished}
use dnser.Cache.Threads.Progress.{is_holding, nobody_holds}
use dnser.Cache.Threads.Sums.{sum_of, All-split}

-- The calls are insertions of these entries.
abbrev pub Begins : ℕ → List CacheOp → List Insertion → Type 0
Begins cap [] [] = Unit
Begins cap [] (x ∷ xs) = ⊥
Begins cap (op ∷ ops) [] = ⊥
Begins cap (op ∷ ops) (x ∷ xs) = (begin cap op ≡ inserting x at_lock) × Begins cap ops xs

-- No two have the same key.
abbrev pub Apart : List Insertion → Type 0
Apart [] = Unit
Apart (x ∷ xs) = All (λ y. same_key x.key y.key ≡ false) xs × Apart xs

abbrev pub waiting : List Insertion → List Task
waiting = map (λ x. inserting x at_lock)

abbrev pub uncounted : List Insertion → List Task
uncounted = map (λ x. inserting x (at_add true))

abbrev pub returned : List Insertion → List Task
returned = map (λ x. finished)

pub calls-waiting :
    (cap : ℕ) (ops : List CacheOp) (xs : List Insertion)
    → Begins cap ops xs
    → calls cap ops ≡ waiting xs
calls-waiting cap [] [] h = refl
calls-waiting cap [] (x ∷ xs) h = absurd h
calls-waiting cap (op ∷ ops) [] h = absurd h
calls-waiting cap (op ∷ ops) (x ∷ xs) (h, hs) = ground (arith, h, calls-waiting cap ops xs hs)

pub length-Begins :
    (cap : ℕ) (ops : List CacheOp) (xs : List Insertion)
    → Begins cap ops xs
    → length ops ≡ length xs
length-Begins cap [] [] h = refl
length-Begins cap [] (x ∷ xs) h = absurd h
length-Begins cap (op ∷ ops) [] h = absurd h
length-Begins cap (op ∷ ops) (x ∷ xs) (h, hs) = ap suc (length-Begins cap ops xs hs)

shard_at-set_cases :
    (shards : List Shard) (i j : ℕ) (s : Shard)
    → (shard_at (set shards i s) j ≡ shard_at shards j)
      ⊎ ((i ≡ j) × (shard_at (set shards i s) j ≡ s))
shard_at-set_cases [] i j s = inl refl
shard_at-set_cases (x ∷ xs) zero zero s = inr (refl, refl)
shard_at-set_cases (x ∷ xs) zero (suc j) s = inl refl
shard_at-set_cases (x ∷ xs) (suc i) zero s = inl refl
shard_at-set_cases (x ∷ xs) (suc i) (suc j) s = elim (shard_at-set_cases xs i j s) [
  | inl same ↦ inl same
  | inr (here, stored) ↦ inr (ap suc here, stored)
]

-- A key that is nowhere is nowhere once another is stored.
still_missing :
    (shards : List Shard) (i j : ℕ) (x : Insertion) (k : CacheKey)
    → same_key x.key k ≡ false
    → contains_key k (shard_at shards j) ≡ false
    → contains_key k (shard_at (set shards i (shard_insert x.key x.entry (shard_at shards i))) j)
      ≡ false
unfolding contains_key
still_missing shards i j x k apart missing =
    elim (shard_at-set_cases shards i j (shard_insert x.key x.entry (shard_at shards i))) [
      | inl same ↦ ap (contains_key k) same ∙ missing
      | inr (here, stored) ↦
          let there : contains_key k (shard_at shards i) ≡ false =
            subst (λ (n : ℕ). contains_key k (shard_at shards n) ≡ false) (sym here) missing in
          ap (contains_key k) stored
          ∙ rw apart (contains_key-remove k x.key (shard_at shards i) there)
    ]

pub empty_missing : (n j : ℕ) (k : CacheKey) → contains_key k (shard_at (empty_shards n) j) ≡ false
unfolding contains_key
empty_missing zero j k = refl
empty_missing (suc n) zero k = refl
empty_missing (suc n) (suc j) k = empty_missing n j k

pub adds-uncounted :
    (xs : List Insertion)
    → (sum_of adds (uncounted xs) ≡ length xs) × (sum_of subs (uncounted xs) ≡ 0)
adds-uncounted [] = omega arith
adds-uncounted (x ∷ xs) = let (p, q) = adds-uncounted xs in omega (arith, p, q)

pub returned-all_finished : (xs : List Insertion) → all_finished (returned xs) ≡ true
returned-all_finished [] = refl
returned-all_finished (x ∷ xs) = returned-all_finished xs

module _ (iter : Shard → Shard) (hash_one : List HashCall → ℕ) (capacity cap : ℕ)
    (ops : List CacheOp) where
  abbrev pub Idle : List Task → Type 0
  Idle tasks = All (λ t. is_holding hash_one t ≡ false) tasks

  pub waiting-Idle : (xs : List Insertion) → Idle (waiting xs)
  unfolding holds
  waiting-Idle [] = tt
  waiting-Idle (x ∷ xs) = (refl, waiting-Idle xs)

  -- A state with these tasks.
  pub record Reached (m : Memory) (tasks : List Task) : Type 0 where
    pub stored : List CacheOp
    pub run : Run iter hash_one capacity cap ops stored (record { memory = m; tasks = tasks })

  abbrev pub stored_in : Memory → Insertion → Memory
  stored_in m x = record m {
    shards =
        set m.shards (home iter hash_one capacity x)
          (shard_insert x.key x.entry (shard_at m.shards (home iter hash_one capacity x)));
  }

  -- One call stores its entry and is suspended before it counts it.
  stores_one :
      (front : List Task) (x : Insertion) (back : List Task) (m : Memory)
      → Idle (front ++ back)
      → 0 < capacity
      → m.len ≡ 0
      → contains_key x.key (shard_at m.shards (home iter hash_one capacity x)) ≡ false
      → Reached m (front ++ (inserting x at_lock ∷ back))
      → Reached (stored_in m x) (front ++ (inserting x (at_add true) ∷ back))
  unfolding act can_step wants
  stores_one front x back m idle room empty missing r =
      let locked =
        later front (inserting x at_lock) back r.run refl
          (nobody_holds hash_one (home iter hash_one capacity x) (front ++ back) idle) in
      let loaded = later front (inserting x at_load) back locked refl refl in
      let passes : leb capacity m.len ≡ false = ground (arith, empty, room) in
      let passed =
        subst
          (λ (b : Bool). Run iter hash_one capacity cap ops r.stored (record {
            memory = m;
            tasks = front ++ (inserting x (if b then at_eviction else at_insert) ∷ back);
          }))
          passes loaded in
      let done = later front (inserting x at_insert) back passed refl refl in
      record {
        stored = r.stored ++ (put (x.entry).inserted_at (x.entry).response ∷ []);
        run =
            subst
              (λ (b : Bool).
                Run iter hash_one capacity cap ops
                  (r.stored ++ (put (x.entry).inserted_at (x.entry).response ∷ []))
                  (record {
                    memory = stored_in m x;
                    tasks = front ++ (inserting x (at_add (not b)) ∷ back);
                  }))
              missing done;
      }

  abbrev pub Missing : Memory → Insertion → Type 0
  Missing m x = contains_key x.key (shard_at m.shards (home iter hash_one capacity x)) ≡ false

  All-Missing :
      (m : Memory) (x : Insertion) (xs : List Insertion)
      → All (λ y. same_key x.key y.key ≡ false) xs
      → All (Missing m) xs
      → All (Missing (stored_in m x)) xs
  All-Missing m x [] apart h = tt
  All-Missing m x (y ∷ ys) (apart, others) (h, hs) =
      (still_missing m.shards _ _ x y.key apart h, All-Missing m x ys others hs)

  moved_on :
      (front : List Task) (t : Task) (back : List Task)
      → (front ++ (t ∷ [])) ++ back ≡ front ++ (t ∷ back)
  moved_on front t back = append_assoc front (t ∷ []) back

  Idle-uncounted :
      (front : List Task) (x : Insertion) (back : List Task)
      → Idle (front ++ (inserting x at_lock ∷ back))
      → Idle ((front ++ (inserting x (at_add true) ∷ [])) ++ back)
  unfolding holds
  Idle-uncounted [] x back (h, hs) = (refl, hs)
  Idle-uncounted (t ∷ front) x back (h, hs) = (h, Idle-uncounted front x back hs)

  -- All of them are suspended there.
  pub record AllStored (front : List Task) (xs : List Insertion) : Type 0 where
    pub memory : Memory
    pub reached : Reached memory (front ++ uncounted xs)
    pub uncounted_yet : memory.len ≡ 0

  pub store_together :
      (front : List Task) (xs : List Insertion) (m : Memory)
      → Idle (front ++ waiting xs)
      → 0 < capacity
      → m.len ≡ 0
      → All (Missing m) xs
      → Apart xs
      → Reached m (front ++ waiting xs)
      → AllStored front xs
  store_together front [] m idle room empty missing apart r = record {
    memory = m;
    reached = r;
    uncounted_yet = empty;
  }
  store_together front (x ∷ xs) m idle room empty (missing, others) (apart, rest) r =
      let t : Task = inserting x (at_add true) in
      let next : Reached (stored_in m x) ((front ++ (t ∷ [])) ++ waiting xs) =
        subst (Reached (stored_in m x)) (sym (moved_on front t (waiting xs))) (
          stores_one front x (waiting xs) m
            (All-split (λ t'. is_holding hash_one t' ≡ false) front _ (waiting xs) idle).1 room
            empty missing r) in
      let done =
        store_together (front ++ (t ∷ [])) xs (stored_in m x)
          (Idle-uncounted front x (waiting xs) idle) room empty (All-Missing m x xs apart others)
          rest next in
      record {
        memory = done.memory;
        reached = subst (Reached done.memory) (moved_on front t (uncounted xs)) done.reached;
        uncounted_yet = done.uncounted_yet;
      }

  -- Then they count, and return.
  pub record AllReturned (shards : List Shard) (front : List Task) (xs : List Insertion)
      : Type 0 where
    pub memory : Memory
    pub reached : Reached memory (front ++ returned xs)
    pub same_shards : memory.shards ≡ shards

  pub count_together :
      (front : List Task) (xs : List Insertion) (m : Memory)
      → Reached m (front ++ uncounted xs)
      → AllReturned m.shards front xs
  unfolding act can_step wants
  count_together front [] m r = record { memory = m; reached = r; same_shards = refl }
  count_together front (x ∷ xs) m r =
      let counted : Memory = (act iter hash_one capacity (inserting x (at_add true)) m).1 in
      let one : Reached counted (front ++ (finished ∷ uncounted xs)) = record {
        stored = r.stored;
        run = later front (inserting x (at_add true)) (uncounted xs) r.run refl refl;
      } in
      let done =
        count_together (front ++ (finished ∷ [])) xs counted
          (subst (Reached counted) (sym (moved_on front finished (uncounted xs))) one) in
      record {
        memory = done.memory;
        reached = subst (Reached done.memory) (moved_on front finished (returned xs)) done.reached;
        same_shards = done.same_shards;
      }
