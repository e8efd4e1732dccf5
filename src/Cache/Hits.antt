-- ===== src/Cache/Hits.antt =====
-- What `get` returns after `insert`.
use dnser.Base.{
  ℕ, ◌+◌, ◌-◌, ◌^◌, ◌≤◌, ◌<◌, ◌≡◌, ap, ◌∙◌, min, Option, none, some, List, length, leb,
  if◌then◌else◌, arith,
}
use dnser.Cache.{
  Cache, Shard, CacheEntry, shard_at, make_room, add_entry, shard_index, find_lookup, shard_insert,
  get, insert, store, hit, cacheable_ttl, only_question, rewritten, from_secs, as_secs, num_shards,
}
use dnser.Cache.Keys.{
  CacheKey, HashCall, from_question, lookup_from_question, hash_lookup, hash_key, max_name_len,
  hash_lookup-hash_key, equivalent_iff,
}
use dnser.Cache.Shards.{insert-store, length-make_room, shard_at-set, shard_index-lt}
use dnser.Proto.Message.{Message}
use dnser.Proto.Question.{Question}

find_inserted :
    (q : Question) (key : CacheKey) (e : CacheEntry) (shard : Shard)
    → from_question q ≡ key
    → find_lookup (lookup_from_question q) (shard_insert key e shard) ≡ some e
unfolding find_lookup
find_inserted q key e shard same = rw ((equivalent_iff q key).1 same)

get-found :
    (hash_one : List HashCall → ℕ) (now i : ℕ) (q : Question) (c : Cache) (e : CacheEntry)
    → shard_index hash_one (hash_lookup (lookup_from_question q)) ≡ i
    → find_lookup (lookup_from_question q) (shard_at c.shards i) ≡ some e
    → get hash_one now q c ≡ hit now e
unfolding get
get-found hash_one now i q c e here found =
    let there : find_lookup (lookup_from_question q)
          (shard_at c.shards (shard_index hash_one (hash_lookup (lookup_from_question q))))
        ≡ some e =
      ap (λ (j : ℕ). find_lookup (lookup_from_question q) (shard_at c.shards j)) here ∙ found in
    ap (λ (o : Option CacheEntry). elim o [ none ↦ none | some t ↦ hit now t ]) there

module _ (iter : Shard → Shard) (hash_one : List HashCall → ℕ) where
  get-store :
      (now now' : ℕ) (m : Message) (q q' : Question) (ttl : ℕ) (c : Cache)
      → from_question q' ≡ from_question q
      → length q'.name ≤ max_name_len
      → length c.shards ≡ num_shards
      → get hash_one now' q' (store iter hash_one now m q ttl c)
        ≡ hit now' (record { response = m; inserted_at = now; expires_at = now + from_secs ttl })
  unfolding store add_entry
  get-store now now' m q q' ttl c same short sixty_four =
      let i : ℕ = shard_index hash_one (hash_key (from_question q)) in
      let here : shard_index hash_one (hash_lookup (lookup_from_question q')) ≡ i =
        ap (shard_index hash_one) (hash_lookup-hash_key q' short ∙ ap hash_key same) in
      let inside : i < length (make_room iter now i c).shards = omega (
        arith,
        shard_index-lt hash_one (hash_key (from_question q)),
        length-make_room iter now i c,
      ) in
      get-found hash_one now' i q' _ _ here (
        ap (find_lookup (lookup_from_question q'))
          (shard_at-set (make_room iter now i c).shards i _ inside)
        ∙ find_inserted q' (from_question q) _ _ same)

  -- A cacheable response to one question, inserted into a cache of 64 shards, is returned for every
  -- question with the same type, class and name up to the case of ASCII letters, the name of 253 bytes
  -- at most, until its ttl has passed, with the ttl of every record lowered by the seconds since;
  -- from then on nothing is returned. This whatever was in the cache, and whatever was evicted.
  pub get-insert :
      (now now' : ℕ) (m : Message) (q q' : Question) (ttl : ℕ) (c : Cache)
      → only_question m.questions ≡ some q
      → cacheable_ttl c.max_negative_ttl m ≡ some ttl
      → from_question q' ≡ from_question q
      → length q'.name ≤ max_name_len
      → length c.shards ≡ num_shards
      → get hash_one now' q' (insert iter hash_one now m c) ≡ (
          if leb (now + from_secs ttl) now'
          then none
          else some (rewritten m (min (as_secs (now' - now)) (2 ^ 32 - 1))))
  get-insert now now' m q q' ttl c one cacheable same short sixty_four =
      ap (get hash_one now' q') (insert-store iter hash_one now m q ttl c one cacheable)
      ∙ get-store now now' m q q' ttl c same short sixty_four
