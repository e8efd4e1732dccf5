-- ===== src/Cache/Bounded.antt =====
-- The size of a cache through its life, while its methods run one at a time.
use dnser.Base.{
  ℕ, ◌^◌, ◌<◌, ◌≤◌, ◌≡◌, max, refl, ap, ◌∙◌, List, [], ◌∷◌, arith, Option-cases, inl, inr,
}
use dnser.Cache.{
  Cache, Shard, new, insert, evict_expired, store, add_entry, make_room, only_question,
  cacheable_ttl,
}
use dnser.Cache.Shards.{insert-store, insert_no_question, insert_not_cacheable}
use dnser.Proto.Message.{Message}
use dnser.Proto.Question.{Question}
use dnser.Cache.Count.{
  IsIteration, IsCounted, total, insert-IsCounted, evict_expired-IsCounted, new-IsCounted,
}
use dnser.Cache.Keys.{HashCall}
use dnser.Cache.Reference.{CacheOp, put, reap, run}

module _ (iter : Shard → Shard) (laws : IsIteration iter) (hash_one : List HashCall → ℕ) where
  run-IsCounted :
      (ops : List CacheOp) (c : Cache) → IsCounted c → IsCounted (run iter hash_one ops c)
  unfolding run
  run-IsCounted [] c h = h
  run-IsCounted (put now m ∷ ops) c h =
      run-IsCounted ops _ (insert-IsCounted iter laws hash_one now m c h)
  run-IsCounted (reap now ∷ ops) c h = run-IsCounted ops _ (evict_expired-IsCounted now c h).0

  capacity-store :
      (now ttl : ℕ) (m : Message) (q : Question) (c : Cache)
      → (store iter hash_one now m q ttl c).capacity ≡ c.capacity
  unfolding store add_entry make_room
  capacity-store now ttl m q c = ground arith

  capacity-insert :
      (now : ℕ) (m : Message) (c : Cache) → (insert iter hash_one now m c).capacity ≡ c.capacity
  capacity-insert now m c = elim (Option-cases (only_question m.questions)) [
    | inl other ↦ ap (λ (t : Cache). t.capacity) (insert_no_question iter hash_one now m c other)
    | inr (q, one) ↦ elim (Option-cases (cacheable_ttl c.max_negative_ttl m)) [
      | inl dropped ↦
          ap (λ (t : Cache). t.capacity) (insert_not_cacheable iter hash_one now m q c one dropped)
      | inr (ttl, cacheable) ↦
          ap (λ (t : Cache). t.capacity) (insert-store iter hash_one now m q ttl c one cacheable)
          ∙ capacity-store now ttl m q c
    ]
  ]

  capacity-run : (ops : List CacheOp) (c : Cache) → (run iter hash_one ops c).capacity ≡ c.capacity
  unfolding run
  capacity-run [] c = refl
  capacity-run (put now m ∷ ops) c = capacity-run ops _ ∙ capacity-insert now m c
  capacity-run (reap now ∷ ops) c =
      capacity-run ops (evict_expired now c) ∙ (unfold evict_expired in refl)

  -- Whatever responses are inserted into a new cache and whenever the reaper runs, one call of `insert`
  -- or `evict_expired` at a time, if iterating a map visits entries of it, and some where it has any,
  -- and the capacity fits 64 bits: `len` is the number of entries, and they are at most the capacity,
  -- or 1 where that is 0. (Calls that overlap are those of Cache/Threads.)
  pub cache_bounded :
      (capacity cap : ℕ) (ops : List CacheOp)
      → capacity < 2 ^ 64
      → (let c = run iter hash_one ops (new capacity cap) in
          (c.len ≡ total c.shards) × (total c.shards ≤ max capacity 1))
  cache_bounded capacity cap ops small =
      let h = run-IsCounted ops (new capacity cap) (new-IsCounted capacity cap small) in
      let size : (run iter hash_one ops (new capacity cap)).capacity ≡ capacity =
        capacity-run ops (new capacity cap) ∙ (unfold new in refl) in
      (h.counts, omega (arith, h.counts, h.bounded, size))
