-- ===== src/Cache/Count.antt =====
-- `len` counts the entries, and the capacity bounds them.
use dnser.Base.{
  ℕ, zero, suc, ◌+◌, ◌-◌, ◌^◌, ◌≤◌, ◌<◌, ◌≡◌, refl, ap, sym, subst, ◌∙◌, max, true, false, none,
  List, [], ◌∷◌, length, set, All, arith, Bool-cases, Option-cases, inl, inr,
}
use dnser.Cache.{
  Cache, Shard, CacheEntry, shard_at, make_room, add_entry, shard_index, shard_insert, insert,
  store, contains_key, num_shards, fetch_sub, evict_one, evict_others, victim, evict_shards,
  evict_expired, retain, cacheable_ttl, only_question, new,
}
use dnser.Cache.Keys.{CacheKey, HashCall, from_question, hash_key}
use dnser.Cache.Shards.{
  length-set, insert-store, insert_no_question, insert_not_cacheable, length-make_room,
  shard_index-lt,
}
use dnser.Proto.Message.{Message}
use dnser.Cache.Victims.{length-remove, length-remove_missing, victim-contains_key, victim-none}

-- What `HashMap::iter` promises: it visits entries of the map only, and some if there are any.
pub record IsIteration (iter : Shard → Shard) : Type 0 where
  pub visits_entries :
      (s : Shard) → All (λ (e : CacheKey × CacheEntry). contains_key e.0 s ≡ true) (iter s)
  pub visits_some : (s : Shard) → iter s ≡ [] → s ≡ []

abbrev pub total : List Shard → ℕ
total [] = 0
total (s ∷ rest) = length s + total rest

-- `len` is the number of entries and at most the capacity, or 1 where the capacity is 0.
pub record IsCounted (c : Cache) : Type 0 where
  pub counts : c.len ≡ total c.shards
  pub bounded : c.len ≤ max c.capacity 1
  pub usize : c.capacity < 2 ^ 64
  pub sixty_four : length c.shards ≡ num_shards

pub total-set :
    (shards : List Shard) (i : ℕ) (s : Shard)
    → i < length shards
    → total (set shards i s) + length (shard_at shards i) ≡ total shards + length s
total-set [] i s h = absurd (omega arith)
total-set (x ∷ xs) zero s h = omega arith
total-set (x ∷ xs) (suc i) s h = omega (arith, total-set xs i s (omega arith))

module _ (iter : Shard → Shard) (laws : IsIteration iter) where
  pub evict_one-length :
      (now : ℕ) (s : Shard)
      → (evict_one iter now s).1 ≡ true
      → length (evict_one iter now s).0 + 1 ≡ length s
  unfolding evict_one
  evict_one-length now s h = elim (Option-cases (victim now none (iter s))) [
    | inl missing ↦ absurd (ground arith)
    | inr (k, e) ↦ ground (
      arith,
      length-remove k s (
          victim-contains_key now s none (iter s) k (laws.visits_entries s)
            (λ k₀ p. absurd (ground arith)) e),
    )
  ]

  evict_one-empty : (now : ℕ) (s : Shard) → (evict_one iter now s).1 ≡ false → s ≡ []
  unfolding evict_one
  evict_one-empty now s h = elim (Option-cases (victim now none (iter s))) [
    | inl missing ↦ laws.visits_some s (victim-none now (iter s) missing)
    | inr (k, e) ↦ absurd (ground arith)
  ]

  evict_others-total :
      (now skip i : ℕ) (shards : List Shard)
      → (evict_others iter now skip i shards).1 ≡ true
      → total (evict_others iter now skip i shards).0 + 1 ≡ total shards
  unfolding evict_others
  evict_others-total now skip i [] h = absurd (ground arith)
  evict_others-total now skip i (s ∷ rest) h =
      ground (arith, evict_others-total now skip (i + 1) rest, evict_one-length now s)

  empty_behind :
      (now skip i : ℕ) (shards : List Shard)
      → skip < i
      → (evict_others iter now skip i shards).1 ≡ false
      → total shards ≡ 0
  unfolding evict_others
  empty_behind now skip i [] behind h = refl
  empty_behind now skip i (s ∷ rest) behind h =
      let empty : (evict_one iter now s).1 ≡ false = ground arith in
      omega (
        arith,
        empty_behind now skip (i + 1) rest (omega arith) (ground (arith, empty)),
        ap length (evict_one-empty now s empty),
      )

  -- Only the shard that was skipped can hold entries.
  evict_others-empty :
      (now skip i k : ℕ) (shards : List Shard)
      → skip ≡ i + k
      → (evict_others iter now skip i shards).1 ≡ false
      → total shards ≡ length (shard_at shards k)
  unfolding evict_others
  evict_others-empty now skip i k [] e h = refl
  evict_others-empty now skip i zero (s ∷ rest) e h =
      omega (arith, empty_behind now skip (i + 1) rest (omega arith) (ground arith))
  evict_others-empty now skip i (suc k) (s ∷ rest) e h =
      let empty : (evict_one iter now s).1 ≡ false = ground arith in
      omega (
        arith,
        ap length (evict_one-empty now s empty),
        evict_others-empty now skip (i + 1) k rest (omega arith) (ground (arith, empty)),
      )

  -- Room for one entry more.
  record HasRoom (c : Cache) : Type 0 where
    room_counts : c.len ≡ total c.shards
    room : c.len + 1 ≤ max c.capacity 1

  make_room-HasRoom :
      (now i : ℕ) (c : Cache) → IsCounted c → i < num_shards → HasRoom (make_room iter now i c)
  unfolding make_room
  make_room-HasRoom now i c h below =
      let here : (evict_one iter now (shard_at c.shards i)).1 ≡ true
          → total (set c.shards i (evict_one iter now (shard_at c.shards i)).0) + 1
            ≡ total c.shards =
        λ e. omega (
          arith,
          evict_one-length now (shard_at c.shards i) e,
          total-set c.shards i (evict_one iter now (shard_at c.shards i)).0
              (omega (arith, h.sixty_four)),
        ) in
      let none_left : (evict_one iter now (shard_at c.shards i)).1 ≡ false
          → (evict_others iter now i 0 c.shards).1 ≡ false
          → total c.shards ≡ 0 =
        λ e e'. omega (
          arith,
          evict_others-empty now i 0 i c.shards (omega arith) e',
          ap length (evict_one-empty now (shard_at c.shards i) e),
        ) in
      let elsewhere : (evict_others iter now i 0 c.shards).1 ≡ true
          → total (evict_others iter now i 0 c.shards).0 + 1 ≡ total c.shards =
        evict_others-total now i 0 c.shards in
      record {
        room_counts = ground (arith, here, elsewhere, none_left, h.counts, h.bounded, h.usize);
        room = ground (arith, here, elsewhere, none_left, h.counts, h.bounded, h.usize);
      }

  add_entry-IsCounted :
      (i : ℕ) (key : CacheKey) (entry : CacheEntry) (c : Cache)
      → HasRoom c
      → i < num_shards
      → c.capacity < 2 ^ 64
      → length c.shards ≡ num_shards
      → IsCounted (add_entry i key entry c)
  unfolding add_entry
  add_entry-IsCounted i key entry c h below small n =
      let shard : Shard = shard_at c.shards i in
      let size : total (set c.shards i (shard_insert key entry shard)) + length shard
          ≡ total c.shards + length (shard_insert key entry shard) =
        total-set c.shards i (shard_insert key entry shard) (omega (arith, n)) in
      record {
        counts = elim (Bool-cases (contains_key key shard)) [
          | inl there ↦ rw there (omega (arith, size, length-remove key shard there, h.room_counts))
          | inr missing ↦ rw missing (
              omega (
                arith,
                size,
                length-remove_missing key shard missing,
                h.room_counts,
                h.room,
                small,
              ))
        ];
        bounded = elim (Bool-cases (contains_key key shard)) [
          | inl there ↦ rw there (omega (arith, h.room))
          | inr missing ↦ rw missing (omega (arith, h.room))
        ];
        usize = small;
        sixty_four = length-set c.shards i (shard_insert key entry shard) ∙ n;
      }

  capacity-make_room : (now i : ℕ) (c : Cache) → (make_room iter now i c).capacity ≡ c.capacity
  unfolding make_room
  capacity-make_room now i c = ground arith

  -- If iterating a map visits entries of it, and some where it has any, then inserting any response
  -- into a cache of 64 shards whose `len` counts its entries, with a capacity that fits 64 bits,
  -- leaves such a cache: `len` still counts the entries, is at most the capacity, or 1 where that is
  -- 0, and no counter wraps around.
  pub insert-IsCounted :
      (hash_one : List HashCall → ℕ) (now : ℕ) (m : Message) (c : Cache)
      → IsCounted c
      → IsCounted (insert iter hash_one now m c)
  unfolding store
  insert-IsCounted hash_one now m c h = elim (Option-cases (only_question m.questions)) [
    | inl other ↦ subst IsCounted (sym (insert_no_question iter hash_one now m c other)) h
    | inr (q, one) ↦ elim (Option-cases (cacheable_ttl c.max_negative_ttl m)) [
      | inl not_cacheable ↦
          subst IsCounted (sym (insert_not_cacheable iter hash_one now m q c one not_cacheable)) h
      | inr (ttl, cacheable) ↦
          let i : ℕ = shard_index hash_one (hash_key (from_question q)) in
          let below : i < num_shards = shard_index-lt hash_one (hash_key (from_question q)) in
          subst IsCounted (sym (insert-store iter hash_one now m q ttl c one cacheable)) (
            add_entry-IsCounted i (from_question q) _ (make_room iter now i c)
              (make_room-HasRoom now i c h below) below
              (omega (arith, capacity-make_room now i c, h.usize))
              (length-make_room iter now i c ∙ h.sixty_four))
    ]
  ]

pub length-retain : (now : ℕ) (s : Shard) → length (retain now s) ≤ length s
unfolding retain
length-retain now [] = omega arith
length-retain now ((k, e) ∷ rest) = ground (arith, length-retain now rest)

evict_shards-total :
    (now extra : ℕ) (shards : List Shard) (len : ℕ)
    → len ≡ extra + total shards
    → len < 2 ^ 64
    → ((evict_shards now shards len).1 ≡ extra + total (evict_shards now shards len).0)
      × (total (evict_shards now shards len).0 ≤ total shards)
      × (length (evict_shards now shards len).0 ≡ length shards)
unfolding evict_shards
evict_shards-total now extra [] len e h = (e, omega arith, refl)
evict_shards-total now extra (s ∷ rest) len e h =
    let gone : ℕ = length s - length (retain now s) in
    let fewer : fetch_sub len gone ≡ len - gone = omega (arith, length-retain now s) in
    let (p, q, n) =
      evict_shards-total now (extra + length (retain now s)) rest (fetch_sub len gone)
        (omega (arith, length-retain now s)) (omega arith) in
    (omega (arith, p), omega (arith, q, length-retain now s), omega (arith, n))

-- Evicting the expired entries from a cache of 64 shards whose `len` counts its entries, with a
-- capacity that fits 64 bits, leaves such a cache, with no more entries than before.
pub evict_expired-IsCounted :
    (now : ℕ) (c : Cache)
    → IsCounted c
    → IsCounted (evict_expired now c) × ((evict_expired now c).len ≤ c.len)
unfolding evict_expired
evict_expired-IsCounted now c h =
    let (p, q, n) =
      evict_shards-total now 0 c.shards c.len (omega (arith, h.counts))
        (omega (arith, h.bounded, h.usize)) in
    (
      record {
        counts = omega (arith, p);
        bounded = omega (arith, p, q, h.counts, h.bounded);
        usize = h.usize;
        sixty_four = n ∙ h.sixty_four;
      },
      omega (arith, p, q, h.counts),
    )

pub new-IsCounted : (capacity cap : ℕ) → capacity < 2 ^ 64 → IsCounted (new capacity cap)
unfolding new
new-IsCounted capacity cap h = record {
  counts = refl;
  bounded = omega arith;
  usize = h;
  sixty_four = refl;
}
