-- ===== src/Cache/Entries.antt =====
-- What holds of the shards of a cache still does after its methods.
use dnser.Base.{
  ℕ, zero, suc, ◌+◌, ◌<◌, ◌≡◌, ◌≢◌, sym, subst, Bool, true, false, Option, none, some, List, [],
  ◌∷◌, set, All, leb, ◌==◌, arith, Bool-cases, Option-cases, inl, inr, if_both,
}
use dnser.Cache.{
  empty_shards, num_shards, new, Cache, Shard, CacheEntry, shard_at, make_room, add_entry,
  shard_index, shard_insert, insert, store, remove, evict_one, evict_others, victim, evict_shards,
  evict_expired, retain, cacheable_ttl, only_question, find_lookup, from_secs,
}
use dnser.Cache.Keys.{CacheKey, Lookup, HashCall, same_key, from_question, hash_key, equivalent}
use dnser.Cache.Shards.{insert-store, insert_no_question, insert_not_cacheable}
use dnser.Proto.Message.{Message}
use dnser.Proto.Question.{Question}

-- `Q j s` of shard number `j`.
abbrev pub Every : (ℕ → Shard → Type 0) → ℕ → List Shard → Type 0
Every Q n [] = Unit
Every Q n (s ∷ rest) = Q n s × Every Q (n + 1) rest

-- A property of shards that removing entries keeps.
pub record IsClosed (Q : ℕ → Shard → Type 0) : Type 0 where
  pub empties : (j : ℕ) → Q j []
  pub removes : (j : ℕ) (k : CacheKey) (s : Shard) → Q j s → Q j (remove k s)
  pub retains : (j now : ℕ) (s : Shard) → Q j s → Q j (retain now s)

module _ (P : CacheKey × CacheEntry → Type 0) where
  pub remove-All : (k : CacheKey) (s : Shard) → All P s → All P (remove k s)
  unfolding remove
  remove-All k [] h = tt
  remove-All k ((k', e) ∷ rest) (h, hs) =
      if_both (All P) (same_key k' k) hs (h, remove-All k rest hs)

  pub retain-All : (now : ℕ) (s : Shard) → All P s → All P (retain now s)
  unfolding retain
  retain-All now [] h = tt
  retain-All now ((k, e) ∷ rest) (h, hs) =
      if_both (All P) (leb e.expires_at now) (retain-All now rest hs) (h, retain-All now rest hs)

  pub All-IsClosed : IsClosed (λ j. All P)
  All-IsClosed = record { empties = λ j. tt; removes = λ j. remove-All; retains = λ j. retain-All }

  -- An entry that is found stands under an equivalent key.
  pub find_lookup-All :
      (l : Lookup) (s : Shard) (e : CacheEntry)
      → All P s
      → find_lookup l s ≡ some e
      → (k : CacheKey) × (equivalent l k ≡ true) × P (k, e)
  unfolding find_lookup
  find_lookup-All l [] e h found = absurd (ground arith)
  find_lookup-All l ((k, e') ∷ rest) e (h, hs) found = elim (Bool-cases (equivalent l k)) [
    | inl same ↦ (k, same, subst (λ (t : CacheEntry). P (k, t)) (ground (arith, same, found)) h)
    | inr other ↦ find_lookup-All l rest e hs (ground (arith, other, found))
  ]

-- Shard `i` is replaced; the others go over to a second property.
pub Every-set :
    (Q Q' : ℕ → Shard → Type 0) (n k i : ℕ) (shards : List Shard) (s : Shard)
    → k ≡ n + i
    → Every Q n shards
    → ((j : ℕ) (t : Shard) → j ≢ k → Q j t → Q' j t)
    → Q' k s
    → Every Q' n (set shards i s)
Every-set Q Q' n k i [] s e h over q = tt
Every-set Q Q' n k zero (t ∷ rest) s e (h, hs) over q =
    (subst (λ (j : ℕ). Q' j s) (omega (arith, e)) q, behind (n + 1) rest (omega (arith, e)) hs)
  where
    behind : (m : ℕ) (rest : List Shard) → k < m → Every Q m rest → Every Q' m rest
    behind m [] lt h = tt
    behind m (t ∷ rest) lt (h, hs) =
        (over m t (omega (arith, lt)) h, behind (m + 1) rest (omega (arith, lt)) hs)
Every-set Q Q' n k (suc i) (t ∷ rest) s e (h, hs) over q =
    (over n t (omega (arith, e)) h, Every-set Q Q' (n + 1) k i rest s (omega (arith, e)) hs over q)

module _ (Q : ℕ → Shard → Type 0) (closed : IsClosed Q) where
  pub shard_at-Every :
      (n k i : ℕ) (shards : List Shard) → k ≡ n + i → Every Q n shards → Q k (shard_at shards i)
  shard_at-Every n k i [] e h = closed.empties k
  shard_at-Every n k zero (s ∷ rest) e (h, hs) = subst (λ (j : ℕ). Q j s) (omega (arith, e)) h
  shard_at-Every n k (suc i) (s ∷ rest) e (h, hs) =
      shard_at-Every (n + 1) k i rest (omega (arith, e)) hs

  pub empty_shards-Every : (n count : ℕ) → Every Q n (empty_shards count)
  empty_shards-Every n zero = tt
  empty_shards-Every n (suc count) = (closed.empties n, empty_shards-Every (n + 1) count)

  pub new-Every : (capacity cap : ℕ) → Every Q 0 (new capacity cap).shards
  unfolding new
  new-Every capacity cap = empty_shards-Every 0 num_shards

  pub replaced :
      (n k i : ℕ) (shards : List Shard) (s : Shard)
      → k ≡ n + i
      → Every Q n shards
      → Q k s
      → Every Q n (set shards i s)
  replaced n k i shards s e h q = Every-set Q Q n k i shards s e h (λ j t apart p. p) q

  module _ (iter : Shard → Shard) where
    abbrev evicted : Shard → Option CacheKey → Shard × Bool
    evicted s none = (s, false)
    evicted s (some k) = (remove k s, true)

    pub evict_one-Every : (j now : ℕ) (s : Shard) → Q j s → Q j (evict_one iter now s).0
    unfolding evict_one
    evict_one-Every j now s h = elim (victim now none (iter s)) as (λ o. Q j (evicted s o).0) [
      | some k ↦ closed.removes j k s h
      | none ↦ h
    ]

    evict_others-Every :
        (now skip i : ℕ) (shards : List Shard)
        → Every Q i shards
        → Every Q i (evict_others iter now skip i shards).0
    unfolding evict_others
    evict_others-Every now skip i [] h = tt
    evict_others-Every now skip i (s ∷ rest) (h, hs) =
        let behind = evict_others-Every now skip (i + 1) rest hs in
        let holds : List Shard × Bool → Type 0 = λ r. Every Q i r.0 in
        if_both holds (i == skip) (h, behind)
          (if_both holds (evict_one iter now s).1 (evict_one-Every i now s h, hs) (h, behind))

    make_room-Every :
        (now i : ℕ) (c : Cache) → Every Q 0 c.shards → Every Q 0 (make_room iter now i c).shards
    unfolding make_room
    make_room-Every now i c h =
        let holds : Cache → Type 0 = λ r. Every Q 0 r.shards in
        let shard : Shard = shard_at c.shards i in
        if_both holds (leb c.capacity c.len)
          (if_both holds (evict_one iter now shard).1
            (replaced 0 i i c.shards _ (omega arith) h
              (evict_one-Every i now shard (shard_at-Every 0 i i c.shards (omega arith) h)))
            (if_both holds (evict_others iter now i 0 c.shards).1
              (evict_others-Every now i 0 c.shards h) h))
          h

  -- The shard that an entry goes to gets a second property, and the others go over to it.
  pub store-Every :
      (iter : Shard → Shard) (hash_one : List HashCall → ℕ) (Q' : ℕ → Shard → Type 0) (now ttl : ℕ)
      (m : Message) (q : Question) (c : Cache)
      → (let key = from_question q in
          let i = shard_index hash_one (hash_key key) in
          Every Q 0 c.shards
          → ((j : ℕ) (s : Shard) → j ≢ i → Q j s → Q' j s)
          → ((s : Shard)
              → Q i s
              → Q' i (
                  shard_insert key
                    (record { response = m; inserted_at = now; expires_at = now + from_secs ttl })
                    s))
          → Every Q' 0 (store iter hash_one now m q ttl c).shards)
  unfolding store add_entry
  store-Every iter hash_one Q' now ttl m q c h over here =
      let i : ℕ = shard_index hash_one (hash_key (from_question q)) in
      let room = make_room-Every iter now i c h in
      Every-set Q Q' 0 i i (make_room iter now i c).shards _ (omega arith) room over (
        here (shard_at (make_room iter now i c).shards i)
          (shard_at-Every 0 i i _ (omega arith) room))

  evict_shards-Every :
      (now n : ℕ) (shards : List Shard) (len : ℕ)
      → Every Q n shards
      → Every Q n (evict_shards now shards len).0
  unfolding evict_shards
  evict_shards-Every now n [] len h = tt
  evict_shards-Every now n (s ∷ rest) len (h, hs) =
      (closed.retains n now s h, evict_shards-Every now (n + 1) rest _ hs)

  pub evict_expired-Every :
      (now : ℕ) (c : Cache) → Every Q 0 c.shards → Every Q 0 (evict_expired now c).shards
  unfolding evict_expired
  evict_expired-Every now c h = evict_shards-Every now 0 c.shards c.len h

-- `insert` keeps what holds of every entry, if it holds of the new one.
pub insert-All :
    (P : CacheKey × CacheEntry → Type 0) (iter : Shard → Shard) (hash_one : List HashCall → ℕ)
    (now : ℕ) (m : Message) (c : Cache)
    → Every (λ j. All P) 0 c.shards
    → ((q : Question) (ttl : ℕ)
        → only_question m.questions ≡ some q
        → P (
          from_question q,
          record { response = m; inserted_at = now; expires_at = now + from_secs ttl },
        ))
    → Every (λ j. All P) 0 (insert iter hash_one now m c).shards
insert-All P iter hash_one now m c h p = elim (Option-cases (only_question m.questions)) [
  | inl other ↦ subst holds (sym (insert_no_question iter hash_one now m c other)) h
  | inr (q, one) ↦ elim (Option-cases (cacheable_ttl c.max_negative_ttl m)) [
    | inl not_cacheable ↦
        subst holds (sym (insert_not_cacheable iter hash_one now m q c one not_cacheable)) h
    | inr (ttl, cacheable) ↦
        subst holds (sym (insert-store iter hash_one now m q ttl c one cacheable)) (
          store-Every (λ j. All P) (All-IsClosed P) iter hash_one (λ j. All P) now ttl m q c h
            (λ j s apart t. t) λ s t. (p q ttl one, remove-All P (from_question q) s t))
  ]
]
  where
    holds : Cache → Type 0
    holds r = Every (λ j. All P) 0 r.shards
