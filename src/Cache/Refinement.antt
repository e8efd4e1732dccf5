-- ===== src/Cache/Refinement.antt =====
-- The lemmas: what `get` returns agrees with the reference of Cache/Reference.
use dnser.Base.{
  ℕ, ◌≡◌, ◌≢◌, refl, ap, sym, subst, ◌∙◌, false, some, List, [], ◌∷◌, All, arith, Option-cases, inl,
  inr, All-map,
}
use dnser.Cache.{
  new, Cache, Shard, CacheEntry, shard_at, make_room, add_entry, shard_index, shard_insert, insert,
  store, remove, contains_key, get, evict_expired, cacheable_ttl, only_question, find_lookup,
}
use dnser.Cache.Entries.{
  Every, IsClosed, remove-All, retain-All, shard_at-Every, new-Every, store-Every,
  evict_expired-Every, find_lookup-All,
}
use dnser.Cache.Keys.{
  CacheKey, HashCall, same_key, from_question, lookup_from_question, hash_key, hash_lookup,
  equivalent_iff,
}
use dnser.Cache.Shards.{insert-store, insert_no_question, insert_not_cacheable}
use dnser.Proto.Message.{Message}
use dnser.Proto.Question.{Question}
use dnser.Cache.Reference.{
  CacheOp, put, reap, ref_entry, ref_put, ref_run, ref_find, ref_hit, ref_get, run,
}
use dnser.Cache.Distinct.{same_key_iff, Distinct, remove-Distinct, retain-Distinct, removed}

keys_apart :
    (P : CacheKey × CacheEntry → Type 0) (key : CacheKey) (s : Shard)
    → contains_key key s ≡ false
    → All P s
    → All (λ (e : CacheKey × CacheEntry). P e × (same_key e.0 key ≡ false)) s
unfolding contains_key
keys_apart P key [] free h = tt
keys_apart P key ((k, e) ∷ rest) free (h, hs) =
    ((h, ground (arith, free)), keys_apart P key rest (ground (arith, free)) hs)

-- A later entry for another key changes nothing.
pub ref_find_other :
    (key k : CacheKey) (e : CacheEntry) (ref : Shard)
    → k ≢ key
    → ref_find k ((key, e) ∷ ref) ≡ ref_find k ref
unfolding ref_find
ref_find_other key k e ref apart = ground (arith, apart, same_key_iff key k)

pub ref_find_this :
    (key : CacheKey) (e : CacheEntry) (ref : Shard) → ref_find key ((key, e) ∷ ref) ≡ some e
unfolding ref_find
ref_find_this key e ref = ground (arith, same_key_iff key key)

module _ (hash_one : List HashCall → ℕ) where
  -- An entry stands in its key's shard and is the last that the reference has for its key.
  abbrev pub IsLast : Shard → ℕ → CacheKey × CacheEntry → Type 0
  IsLast ref j (k, e) = (shard_index hash_one (hash_key k) ≡ j) × (ref_find k ref ≡ some e)

  abbrev pub Agrees : Shard → ℕ → Shard → Type 0
  Agrees ref j s = Distinct s × All (IsLast ref j) s

  pub Agrees-IsClosed : (ref : Shard) → IsClosed (Agrees ref)
  Agrees-IsClosed ref = record {
    empties = λ j. (tt, tt);
    removes = λ j k s h. (remove-Distinct k s h.0, remove-All (IsLast ref j) k s h.1);
    retains = λ j now s h. (retain-Distinct now s h.0, retain-All (IsLast ref j) now s h.1);
  }

  -- The other shards, once an entry is put under `key`.
  pub elsewhere :
      (ref : Shard) (key : CacheKey) (e : CacheEntry) (j : ℕ) (s : Shard)
      → j ≢ shard_index hash_one (hash_key key)
      → Agrees ref j s
      → Agrees ((key, e) ∷ ref) j s
  elsewhere ref key e j s apart (distinct, h) = (
    distinct,
    All-map s h λ x (here, last). (
      here,
      ref_find_other key x.0 e ref (λ same.
            apart (sym here ∙ ap (λ (k : CacheKey). shard_index hash_one (hash_key k)) same))
          ∙ last,
    ),
  )

  -- The shard of `key`.
  pub inserted :
      (ref : Shard) (key : CacheKey) (e : CacheEntry) (s : Shard)
      → Agrees ref (shard_index hash_one (hash_key key)) s
      → Agrees ((key, e) ∷ ref) (shard_index hash_one (hash_key key)) (shard_insert key e s)
  inserted ref key e s (distinct, h) =
      let i : ℕ = shard_index hash_one (hash_key key) in
      let gone = removed key s distinct in
      (
        (gone, remove-Distinct key s distinct),
        (
          (refl, ref_find_this key e ref),
          All-map (remove key s)
              (keys_apart (IsLast ref i) key (remove key s) gone
                (remove-All (IsLast ref i) key s h))
              λ x ((here, last), other). (
                here,
                ref_find_other key x.0 e ref (ground (arith, other, same_key_iff x.0 key)) ∙ last,
              ),
        ),
      )

  -- What a cache and its reference have in common after the same operations.
  pub record IsRefined (cap : ℕ) (ref : Shard) (c : Cache) : Type 0 where
    pub agrees : Every (Agrees ref) 0 c.shards
    pub same_cap : c.max_negative_ttl ≡ cap

  module _ (iter : Shard → Shard) (cap : ℕ) where
    max_negative_ttl-store :
        (now ttl : ℕ) (m : Message) (q : Question) (c : Cache)
        → (store iter hash_one now m q ttl c).max_negative_ttl ≡ c.max_negative_ttl
    unfolding store add_entry make_room
    max_negative_ttl-store now ttl m q c = ground arith

    put-IsRefined :
        (now : ℕ) (m : Message) (ref : Shard) (c : Cache)
        → IsRefined cap ref c
        → IsRefined cap (ref_put cap now m ref) (insert iter hash_one now m c)
    unfolding ref_put
    put-IsRefined now m ref c h = elim (Option-cases (only_question m.questions)) [
      | inl other ↦
          subst (IsRefined cap _) (sym (insert_no_question iter hash_one now m c other))
            (rw (other, ref_put) h)
      | inr (q, one) ↦ elim (Option-cases (cacheable_ttl cap m)) [
        | inl dropped ↦
            subst (IsRefined cap _)
              (sym (
                insert_not_cacheable iter hash_one now m q c one
                  (ap (λ (n : ℕ). cacheable_ttl n m) h.same_cap ∙ dropped)))
              (rw (one, dropped, ref_put) h)
        | inr (ttl, cacheable) ↦
            subst (IsRefined cap _)
              (sym (
                insert-store iter hash_one now m q ttl c one
                  (ap (λ (n : ℕ). cacheable_ttl n m) h.same_cap ∙ cacheable)))
              (rw (one, cacheable, ref_put) (stored q ttl))
      ]
    ]
      where
        stored :
            (q : Question) (ttl : ℕ)
            → IsRefined cap (ref_entry now m q ttl ref) (store iter hash_one now m q ttl c)
        stored q ttl = record {
          agrees =
              store-Every (Agrees ref) (Agrees-IsClosed ref) iter hash_one
                (Agrees (ref_entry now m q ttl ref)) now ttl m q c h.agrees
                (elsewhere ref (from_question q) _) (inserted ref (from_question q) _);
          same_cap = max_negative_ttl-store now ttl m q c ∙ h.same_cap;
        }

    reap-IsRefined :
        (now : ℕ) (ref : Shard) (c : Cache)
        → IsRefined cap ref c
        → IsRefined cap ref (evict_expired now c)
    reap-IsRefined now ref c h = record {
      agrees = evict_expired-Every (Agrees ref) (Agrees-IsClosed ref) now c h.agrees;
      same_cap = unfold evict_expired in h.same_cap;
    }

    run-IsRefined :
        (ops : List CacheOp) (ref : Shard) (c : Cache)
        → IsRefined cap ref c
        → IsRefined cap (ref_run cap ops ref) (run iter hash_one ops c)
    unfolding ref_run run
    run-IsRefined [] ref c h = h
    run-IsRefined (put now m ∷ ops) ref c h = run-IsRefined ops _ _ (put-IsRefined now m ref c h)
    run-IsRefined (reap now ∷ ops) ref c h = run-IsRefined ops _ _ (reap-IsRefined now ref c h)

    pub get-IsRefined :
        (now : ℕ) (q : Question) (m : Message) (ref : Shard) (c : Cache)
        → IsRefined cap ref c
        → get hash_one now q c ≡ some m
        → ref_get now q ref ≡ some m
    unfolding get
    get-IsRefined now q m ref c h e =
        let l = lookup_from_question q in
        let i : ℕ = shard_index hash_one (hash_lookup l) in
        elim (Option-cases (find_lookup l (shard_at c.shards i))) [
          | inl missing ↦ absurd (ground (arith, missing, e))
          | inr (entry, found) ↦
              let holds : Agrees ref i (shard_at c.shards i) =
                shard_at-Every (Agrees ref) (Agrees-IsClosed ref) 0 i i c.shards (omega arith)
                  h.agrees in
              let (k, same, last) =
                find_lookup-All (IsLast ref i) l (shard_at c.shards i) entry holds.1 found in
              ap (ref_hit now)
                (ap (λ (key : CacheKey). ref_find key ref) ((equivalent_iff q k).0 same) ∙ last.1)
              ∙ ground (arith, found, e)
        ]

  -- Whatever responses come in and whenever the reaper runs, and whatever the capacity, the hasher and
  -- the order of iteration make the cache evict, a hit is what a cache that never evicts would return:
  -- the last cacheable response for that key, unless it has expired, with its ttls lowered.
  pub get_refines :
      (iter : Shard → Shard) (capacity cap : ℕ) (ops : List CacheOp) (now : ℕ) (q : Question)
      (m : Message)
      → get hash_one now q (run iter hash_one ops (new capacity cap)) ≡ some m
      → ref_get now q (ref_run cap ops []) ≡ some m
  get_refines iter capacity cap ops now q m e =
      get-IsRefined iter cap now q m (ref_run cap ops []) (run iter hash_one ops (new capacity cap))
        (run-IsRefined iter cap ops [] (new capacity cap) (record {
          agrees = new-Every (Agrees []) (Agrees-IsClosed []) capacity cap;
          same_cap = unfold new in refl;
        }))
        e
