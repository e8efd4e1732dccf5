-- ===== src/Cache/Exact.antt =====
-- A cache with room for every response put into it forgets nothing before it expires.
use dnser.Base.{
  ℕ, suc, ◌+◌, ◌^◌, ◌≤◌, ◌<◌, ◌≡◌, refl, ap, sym, subst, ◌∙◌, Option, none, some, List, [], ◌∷◌,
  length, arith, Bool-cases, Option-cases, inl, inr,
}
use dnser.Cache.{
  new, Cache, Shard, CacheEntry, shard_at, make_room, add_entry, shard_index, insert, store,
  contains_key, get, evict_expired, cacheable_ttl, only_question, from_secs,
}
use dnser.Cache.Count.{
  IsIteration, IsCounted, insert-IsCounted, evict_expired-IsCounted, new-IsCounted,
}
use dnser.Cache.Keys.{CacheKey, HashCall, from_question, hash_key, max_name_len}
use dnser.Cache.Reference.{
  CacheOp, put, reap, ref_entry, ref_put, ref_run, ref_find, ref_hit, ref_get, run,
}
use dnser.Cache.Refinement.{get_refines}
use dnser.Cache.Shards.{insert-store, insert_no_question, insert_not_cacheable}
use dnser.Proto.Message.{Message}
use dnser.Proto.Question.{Question}
use dnser.Cache.Keeps.{Keeps, get-home, add_entry-Keeps, evict_expired-Keeps}

abbrev pub puts : List CacheOp → ℕ
puts [] = 0
puts (put now m ∷ ops) = suc (puts ops)
puts (reap now ∷ ops) = puts ops

-- The reaper's rounds are before `now`.
abbrev pub ReapedBefore : ℕ → List CacheOp → Type 0
ReapedBefore now [] = Unit
ReapedBefore now (put t m ∷ ops) = ReapedBefore now ops
ReapedBefore now (reap t ∷ ops) = (t ≤ now) × ReapedBefore now ops

make_room_spare :
    (iter : Shard → Shard) (now i : ℕ) (c : Cache) → c.len < c.capacity → make_room iter now i c ≡ c
unfolding make_room
make_room_spare iter now i c h = ground arith

module _ (hash_one : List HashCall → ℕ) where
  -- A cache that still has room for `left` responses, and what its reference has of it.
  record IsSpacious (now cap left : ℕ) (ref : Shard) (c : Cache) : Type 0 where
    counted : IsCounted c
    room : c.len + left ≤ c.capacity
    same_cap : c.max_negative_ttl ≡ cap
    keeps : Keeps hash_one now ref c

  module _ (iter : Shard → Shard) (laws : IsIteration iter) (now cap : ℕ) where
    store_spare :
        (t : ℕ) (m : Message) (q : Question) (ttl : ℕ) (c : Cache)
        → c.len < c.capacity
        → store iter hash_one t m q ttl c
          ≡ add_entry
              (shard_index hash_one (hash_key (from_question q)))
              (from_question q)
              (record { response = m; inserted_at = t; expires_at = t + from_secs ttl })
              c
    unfolding store
    store_spare t m q ttl c spare =
        ap
          (λ (c' : Cache).
            add_entry (shard_index hash_one (hash_key (from_question q))) (from_question q)
              (record { response = m; inserted_at = t; expires_at = t + from_secs ttl }) c')
          (make_room_spare iter t (shard_index hash_one (hash_key (from_question q))) c spare)

    add_entry_room :
        (i left : ℕ) (key : CacheKey) (e : CacheEntry) (c : Cache)
        → c.len + suc left ≤ c.capacity
        → (add_entry i key e c).len + left ≤ (add_entry i key e c).capacity
    unfolding add_entry
    add_entry_room i left key e c h = elim (Bool-cases (contains_key key (shard_at c.shards i))) [
      | inl there ↦ rw there (omega arith)
      | inr missing ↦ rw missing (omega arith)
    ]

    max_negative_ttl-add_entry :
        (i : ℕ) (key : CacheKey) (e : CacheEntry) (c : Cache)
        → (add_entry i key e c).max_negative_ttl ≡ c.max_negative_ttl
    unfolding add_entry
    max_negative_ttl-add_entry i key e c = refl

    evict_expired_room :
        (t left : ℕ) (c : Cache)
        → (evict_expired t c).len ≤ c.len
        → c.len + left ≤ c.capacity
        → (evict_expired t c).len + left ≤ (evict_expired t c).capacity
    unfolding evict_expired
    evict_expired_room t left c fewer h = omega arith

    less_left :
        (left : ℕ) (ref : Shard) (c : Cache)
        → IsSpacious now cap (suc left) ref c
        → IsSpacious now cap left ref c
    less_left left ref c h = record {
      counted = h.counted;
      room = omega (arith, h.room);
      same_cap = h.same_cap;
      keeps = h.keeps;
    }

    put-IsSpacious :
        (t left : ℕ) (m : Message) (ref : Shard) (c : Cache)
        → IsSpacious now cap (suc left) ref c
        → IsSpacious now cap left (ref_put cap t m ref) (insert iter hash_one t m c)
    unfolding ref_put
    put-IsSpacious t left m ref c h = elim (Option-cases (only_question m.questions)) [
      | inl other ↦
          subst (IsSpacious now cap left _) (sym (insert_no_question iter hash_one t m c other))
            (rw (other, ref_put) (less_left left ref c h))
      | inr (q, one) ↦ elim (Option-cases (cacheable_ttl cap m)) [
        | inl dropped ↦
            subst (IsSpacious now cap left _)
              (sym (
                insert_not_cacheable iter hash_one t m q c one
                  (ap (λ (n : ℕ). cacheable_ttl n m) h.same_cap ∙ dropped)))
              (rw (one, dropped, ref_put) (less_left left ref c h))
        | inr (ttl, cacheable) ↦
            rw (one, cacheable, ref_put)
              (stored q ttl (
                insert-store iter hash_one t m q ttl c one
                  (ap (λ (n : ℕ). cacheable_ttl n m) h.same_cap ∙ cacheable)
                ∙ store_spare t m q ttl c (omega (arith, h.room))))
      ]
    ]
      where
        stored :
            (q : Question) (ttl : ℕ)
            → insert iter hash_one t m c
              ≡ add_entry
                  (shard_index hash_one (hash_key (from_question q)))
                  (from_question q)
                  (record { response = m; inserted_at = t; expires_at = t + from_secs ttl })
                  c
            → IsSpacious now cap left (ref_entry t m q ttl ref) (insert iter hash_one t m c)
        stored q ttl e = record {
          counted = insert-IsCounted iter laws hash_one t m c h.counted;
          room =
              subst (λ (c' : Cache). c'.len + left ≤ c'.capacity) (sym e)
                (add_entry_room _ left _ _ c h.room);
          same_cap =
              ap (λ (c' : Cache). c'.max_negative_ttl) e
              ∙ max_negative_ttl-add_entry _ _ _ c
              ∙ h.same_cap;
          keeps =
              subst (Keeps hash_one now (ref_entry t m q ttl ref)) (sym e) (
                add_entry-Keeps hash_one now (from_question q) _ ref c h.counted.sixty_four
                  h.keeps);
        }

    reap-IsSpacious :
        (t left : ℕ) (ref : Shard) (c : Cache)
        → t ≤ now
        → IsSpacious now cap left ref c
        → IsSpacious now cap left ref (evict_expired t c)
    reap-IsSpacious t left ref c before h = record {
      counted = (evict_expired-IsCounted t c h.counted).0;
      room = evict_expired_room t left c (evict_expired-IsCounted t c h.counted).1 h.room;
      same_cap = unfold evict_expired in h.same_cap;
      keeps = evict_expired-Keeps hash_one now t ref c before h.keeps;
    }

    run-IsSpacious :
        (ops : List CacheOp) (ref : Shard) (c : Cache)
        → ReapedBefore now ops
        → IsSpacious now cap (puts ops) ref c
        → IsSpacious now cap 0 (ref_run cap ops ref) (run iter hash_one ops c)
    unfolding ref_run run
    run-IsSpacious [] ref c before h = h
    run-IsSpacious (put t m ∷ ops) ref c before h =
        run-IsSpacious ops _ _ before (put-IsSpacious t (puts ops) m ref c h)
    run-IsSpacious (reap t ∷ ops) ref c (first, before) h =
        run-IsSpacious ops _ _ before (reap-IsSpacious t (puts ops) ref c first h)

    new-IsSpacious :
        (capacity left : ℕ)
        → capacity < 2 ^ 64
        → left ≤ capacity
        → IsSpacious now cap left [] (new capacity cap)
    new-IsSpacious capacity left small enough = record {
      counted = new-IsCounted capacity cap small;
      room = unfold new in omega arith;
      same_cap = unfold new in refl;
      keeps = λ k e there fresh. unfold ref_find in absurd (ground (arith, there));
    }

  ref_hit_fresh :
      (now : ℕ) (o : Option CacheEntry) (m : Message)
      → ref_hit now o ≡ some m
      → (e : CacheEntry) × (o ≡ some e) × (now < e.expires_at)
  ref_hit_fresh now none m h = absurd (ground (arith, h))
  ref_hit_fresh now (some e) m h = (e, refl, ground (arith, h))

  -- A cache that at most `capacity` responses have been put into, the capacity below 2 ^ 64, with the
  -- reaper's rounds before `now`, a map's iteration visiting entries of the map and some where it has
  -- any, answers a question with a name of at most 253 bytes exactly as a cache that never evicts:
  -- with the last cacheable response for that key, unless it has expired.
  pub get_exact :
      (iter : Shard → Shard) (capacity cap : ℕ) (ops : List CacheOp) (now : ℕ) (q : Question)
      → IsIteration iter
      → puts ops ≤ capacity
      → capacity < 2 ^ 64
      → ReapedBefore now ops
      → length q.name ≤ max_name_len
      → get hash_one now q (run iter hash_one ops (new capacity cap))
        ≡ ref_get now q (ref_run cap ops [])
  get_exact iter capacity cap ops now q laws enough small before short =
      let c : Cache = run iter hash_one ops (new capacity cap) in
      let ref : Shard = ref_run cap ops [] in
      elim (Option-cases (ref_get now q ref)) [
        | inl none_there ↦ elim (Option-cases (get hash_one now q c)) [
          | inl missed ↦ missed ∙ sym none_there
          | inr (m, got) ↦ got ∙ sym (get_refines hash_one iter capacity cap ops now q m got)
        ]
        | inr (m, answered) ↦
            let (e, there, fresh) = ref_hit_fresh now (ref_find (from_question q) ref) m answered in
            let kept : Keeps hash_one now ref c =
              (run-IsSpacious iter laws now cap ops [] (new capacity cap) before
                (new-IsSpacious iter laws now cap capacity (puts ops) small enough)).keeps in
            get-home hash_one now q c short
            ∙ ap (ref_hit now) (kept (from_question q) e there fresh ∙ sym there)
      ]
