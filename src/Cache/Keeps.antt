-- ===== src/Cache/Keeps.antt =====
-- What a cache's shards keep of a reference, and what keeps it.
use dnser.Base.{
  ℕ, zero, suc, ◌≤◌, ◌<◌, ◌≡◌, ◌≢◌, refl, ap, sym, ◌∙◌, some, List, [], ◌∷◌, length, set, ==_iff,
  ◌==◌, arith, Bool-cases, inl, inr,
}
use dnser.Cache.{
  Cache, Shard, CacheEntry, shard_at, add_entry, shard_index, remove, retain, get, shard_insert,
  evict_shards, evict_expired, find_lookup, num_shards,
}
use dnser.Cache.Distinct.{same_key_iff}
use dnser.Cache.Keys.{
  CacheKey, HashCall, same_key, from_question, lookup_from_question, hash_key, equivalent_iff,
  max_name_len, hash_lookup-hash_key,
}
use dnser.Cache.Reference.{ref_find, ref_hit}
use dnser.Cache.Refinement.{ref_find_other, ref_find_this}
use dnser.Cache.Shards.{shard_at-set, shard_index-lt}
use dnser.Proto.Question.{Question}

find_lookup-ref_find :
    (q : Question) (s : Shard)
    → find_lookup (lookup_from_question q) s ≡ ref_find (from_question q) s
unfolding find_lookup ref_find
find_lookup-ref_find q [] = refl
find_lookup-ref_find q ((k, e) ∷ rest) =
    ground
      (arith, equivalent_iff q k, same_key_iff k (from_question q), find_lookup-ref_find q rest)

ref_find-remove :
    (key k : CacheKey) (s : Shard) → key ≢ k → ref_find k (remove key s) ≡ ref_find k s
unfolding ref_find remove
ref_find-remove key k [] apart = refl
ref_find-remove key k ((k', e) ∷ rest) apart =
    ground (arith, same_key_iff k' key, same_key_iff k' k, ref_find-remove key k rest apart)

ref_find-retain :
    (now : ℕ) (k : CacheKey) (e : CacheEntry) (s : Shard)
    → now < e.expires_at
    → ref_find k s ≡ some e
    → ref_find k (retain now s) ≡ some e
unfolding ref_find retain
ref_find-retain now k e [] fresh h = h
ref_find-retain now k e ((k', e') ∷ rest) fresh h =
    ground (arith, ref_find-retain now k e rest fresh)

shard_at-set_other :
    (shards : List Shard) (i j : ℕ) (s : Shard)
    → i ≢ j
    → shard_at (set shards i s) j ≡ shard_at shards j
shard_at-set_other [] i j s apart = refl
shard_at-set_other (x ∷ xs) zero zero s apart = absurd (apart refl)
shard_at-set_other (x ∷ xs) zero (suc j) s apart = refl
shard_at-set_other (x ∷ xs) (suc i) zero s apart = refl
shard_at-set_other (x ∷ xs) (suc i) (suc j) s apart =
    shard_at-set_other xs i j s (λ same. apart (ap suc same))

shard_at-evict_shards :
    (now j : ℕ) (shards : List Shard) (len : ℕ)
    → shard_at (evict_shards now shards len).0 j ≡ retain now (shard_at shards j)
unfolding evict_shards retain
shard_at-evict_shards now j [] len = refl
shard_at-evict_shards now zero (s ∷ rest) len = refl
shard_at-evict_shards now (suc j) (s ∷ rest) len = shard_at-evict_shards now j rest _

module _ (hash_one : List HashCall → ℕ) where
  abbrev pub home : CacheKey → Cache → Shard
  home k c = shard_at c.shards (shard_index hash_one (hash_key k))

  -- What the reference has for a key, unless it has expired by `now`, stands in the key's shard.
  abbrev pub Keeps : ℕ → Shard → Cache → Type 0
  Keeps now ref c =
      (k : CacheKey) (e : CacheEntry)
      → ref_find k ref ≡ some e
      → now < e.expires_at
      → ref_find k (home k c) ≡ some e

  pub get-home :
      (now : ℕ) (q : Question) (c : Cache)
      → length q.name ≤ max_name_len
      → get hash_one now q c ≡ ref_hit now (ref_find (from_question q) (home (from_question q) c))
  unfolding get
  get-home now q c short = ap (ref_hit now) (
      ap (λ (i : ℕ). find_lookup (lookup_from_question q) (shard_at c.shards i))
        (ap (shard_index hash_one) (hash_lookup-hash_key q short))
      ∙ find_lookup-ref_find q (home (from_question q) c))

  -- A key's shard once another key's entry is added.
  home-add_entry :
      (key k : CacheKey) (new_entry : CacheEntry) (c : Cache)
      → length c.shards ≡ num_shards
      → key ≢ k
      → ref_find k (home k (add_entry (shard_index hash_one (hash_key key)) key new_entry c))
        ≡ ref_find k (home k c)
  unfolding add_entry
  home-add_entry key k new_entry c sixty_four apart =
      let i : ℕ = shard_index hash_one (hash_key key) in
      let j : ℕ = shard_index hash_one (hash_key k) in
      let s : Shard = shard_insert key new_entry (shard_at c.shards i) in
      elim (Bool-cases (i == j)) [
        | inl same ↦
            let here : i ≡ j = (==_iff i j).0 same in
            ap (λ (n : ℕ). ref_find k (shard_at (set c.shards i s) n)) (sym here)
            ∙ ap (ref_find k) (
                shard_at-set c.shards i s
                  (omega (arith, sixty_four, shard_index-lt hash_one (hash_key key))))
            ∙ ref_find_other key k new_entry (remove key (shard_at c.shards i)) (λ e. apart (sym e))
            ∙ ref_find-remove key k (shard_at c.shards i) apart
            ∙ ap (λ (n : ℕ). ref_find k (shard_at c.shards n)) here
        | inr other ↦
            ap (ref_find k) (shard_at-set_other c.shards i j s λ e. ground (arith, other, e))
      ]

  home-add_entry_self :
      (key : CacheKey) (new_entry : CacheEntry) (c : Cache)
      → length c.shards ≡ num_shards
      → ref_find key (home key (add_entry (shard_index hash_one (hash_key key)) key new_entry c))
        ≡ some new_entry
  unfolding add_entry
  home-add_entry_self key new_entry c sixty_four =
      let i : ℕ = shard_index hash_one (hash_key key) in
      ap (ref_find key) (
        shard_at-set c.shards i (shard_insert key new_entry (shard_at c.shards i))
          (omega (arith, sixty_four, shard_index-lt hash_one (hash_key key))))
      ∙ ref_find_this key new_entry (remove key (shard_at c.shards i))

  pub add_entry-Keeps :
      (now : ℕ) (key : CacheKey) (new_entry : CacheEntry) (ref : Shard) (c : Cache)
      → length c.shards ≡ num_shards
      → Keeps now ref c
      → Keeps now
          ((key, new_entry) ∷ ref)
          (add_entry (shard_index hash_one (hash_key key)) key new_entry c)
  add_entry-Keeps now key new_entry ref c sixty_four h k e there fresh =
      let c' : Cache = add_entry (shard_index hash_one (hash_key key)) key new_entry c in
      elim (Bool-cases (same_key key k)) [
        | inl same ↦
            let eq : key ≡ k = (same_key_iff key k).0 same in
            ap (λ (x : CacheKey). ref_find x (home x c')) (sym eq)
            ∙ home-add_entry_self key new_entry c sixty_four
            ∙ sym (ref_find_this key new_entry ref)
            ∙ ap (λ (x : CacheKey). ref_find x ((key, new_entry) ∷ ref)) eq
            ∙ there
        | inr other ↦
            let apart : key ≢ k = λ eq. ground (arith, other, (same_key_iff key k).1 eq) in
            home-add_entry key k new_entry c sixty_four apart
            ∙ h k e (sym (ref_find_other key k new_entry ref (λ eq. apart (sym eq))) ∙ there) fresh
      ]

  pub evict_expired-Keeps :
      (now t : ℕ) (ref : Shard) (c : Cache)
      → t ≤ now
      → Keeps now ref c
      → Keeps now ref (evict_expired t c)
  unfolding evict_expired
  evict_expired-Keeps now t ref c before h k e there fresh =
      ap (ref_find k) (shard_at-evict_shards t (shard_index hash_one (hash_key k)) c.shards c.len)
      ∙ ref_find-retain t k e (home k c) (omega arith) (h k e there fresh)
