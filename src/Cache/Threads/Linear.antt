-- ===== src/Cache/Threads/Linear.antt =====
-- What a thread finds in the cache while others change it.
use dnser.Base.{
  ℕ, ◌≡◌, refl, sym, subst, ◌∙◌, Bool, true, false, some, List, [], ◌∷◌, ◌++◌, set, All, leb, ◌==◌,
  arith, Option-cases, inl, inr, if_both,
}
use dnser.Cache.{
  Cache, Shard, shard_at, shard_index, shard_insert, evict_one, num_shards, get, only_question,
  cacheable_ttl,
}
use dnser.Cache.Entries.{
  Every, Every-set, shard_at-Every, empty_shards-Every, replaced, evict_one-Every, IsClosed,
}
use dnser.Cache.Keys.{HashCall, from_question, hash_key}
use dnser.Cache.Reference.{CacheOp, put, reap, ref_put, ref_run, ref_get}
use dnser.Cache.Refinement.{Agrees, Agrees-IsClosed, elsewhere, inserted, get-IsRefined}
use dnser.Cache.Threads.{
  Insertion, Phase, at_lock, at_load, at_eviction, at_sub, at_shard, at_sub_outside, at_relock,
  at_insert, at_add, Task, inserting, reaping, reaped, finished, Memory, System, Run, start, later,
  insertion, begin, calls, act, insert_act, home, evicted_home, evicted_at, log,
}
use dnser.Cache.Threads.Sums.{All-split, All-join}
use dnser.Proto.Message.{Message}
use dnser.Proto.Question.{Question}

-- An insertion is what `insert` makes of a response.
abbrev IsGenuine : ℕ → Task → Type 0
IsGenuine cap (inserting x p) =
    begin cap (put (x.entry).inserted_at (x.entry).response) ≡ inserting x at_lock
IsGenuine cap _ = Unit {0}

begin-IsGenuine : (cap : ℕ) (op : CacheOp) → IsGenuine cap (begin cap op)
begin-IsGenuine cap (put now response) = elim (Option-cases (only_question response.questions)) [
  | inl other ↦ nothing (unfold begin in ground (arith, other))
  | inr (q, one) ↦ elim (Option-cases (cacheable_ttl cap response)) [
    | inl dropped ↦ nothing (unfold begin in ground (arith, one, dropped))
    | inr (ttl, cacheable) ↦
        let e : begin cap (put now response)
            ≡ inserting (insertion now response (from_question q) ttl) at_lock =
          unfold begin in ground (arith, one, cacheable) in
        subst (IsGenuine cap) (sym e) e
  ]
]
  where
    nothing : begin cap (put now response) ≡ finished → IsGenuine cap (begin cap (put now response))
    nothing e = subst (IsGenuine cap) (sym e) tt
begin-IsGenuine cap (reap now) = unfold begin in tt

calls-IsGenuine : (cap : ℕ) (ops : List CacheOp) → All (IsGenuine cap) (calls cap ops)
calls-IsGenuine cap [] = tt
calls-IsGenuine cap (op ∷ ops) = (begin-IsGenuine cap op, calls-IsGenuine cap ops)

-- What the reference makes of it.
ref_put-IsGenuine :
    (cap : ℕ) (x : Insertion) (p : Phase) (ref : Shard)
    → IsGenuine cap (inserting x p)
    → ref_put cap (x.entry).inserted_at (x.entry).response ref ≡ (x.key, x.entry) ∷ ref
unfolding begin ref_put
ref_put-IsGenuine cap x p ref h = elim (Option-cases (only_question (x.entry).response.questions)) [
  | inl other ↦ absurd (ground (arith, other, h))
  | inr (q, one) ↦ elim (Option-cases (cacheable_ttl cap (x.entry).response)) [
    | inl dropped ↦ absurd (ground (arith, one, dropped, h))
    | inr (ttl, cacheable) ↦ ground (arith, one, cacheable, h)
  ]
]

ref_run-append :
    (cap now : ℕ) (m : Message) (ops : List CacheOp) (ref : Shard)
    → ref_run cap (ops ++ (put now m ∷ [])) ref ≡ ref_put cap now m (ref_run cap ops ref)
unfolding ref_run
ref_run-append cap now m [] ref = refl
ref_run-append cap now m (put t m' ∷ ops) ref = ref_run-append cap now m ops _
ref_run-append cap now m (reap t ∷ ops) ref = ref_run-append cap now m ops ref

module _ (iter : Shard → Shard) (hash_one : List HashCall → ℕ) (capacity cap : ℕ) where
  abbrev Agreed : List CacheOp → List Shard → Type 0
  Agreed stored shards = Every (Agrees hash_one (ref_run cap stored [])) 0 shards

  -- The call after its step, the shards, and the log.
  abbrev Stepped : List CacheOp → Task × Memory → Type 0
  Stepped stored (t, m) = Agreed stored m.shards × IsGenuine cap t

  module _ (stored : List CacheOp) where
    abbrev closed : IsClosed (Agrees hash_one (ref_run cap stored []))
    closed = Agrees-IsClosed hash_one (ref_run cap stored [])

    evict_one-Agreed :
        (now j : ℕ) (shards : List Shard)
        → Agreed stored shards
        → Agreed stored (set shards j (evict_one iter now (shard_at shards j)).0)
    evict_one-Agreed now j shards h = replaced _ closed 0 j j shards _ (omega arith) h (
        evict_one-Every _ closed iter j now (shard_at shards j)
          (shard_at-Every _ closed 0 j j shards (omega arith) h))

    evicted_home-Agreed :
        (x : Insertion) (m : Memory) (r : Shard × Bool)
        → IsGenuine cap (inserting x at_eviction)
        → Agreed stored m.shards
        → Agreed stored (set m.shards (home iter hash_one capacity x) r.0)
        → Stepped stored (evicted_home iter hash_one capacity x m r)
    evicted_home-Agreed x m (s, true) g h h' = (h', g)
    evicted_home-Agreed x m (s, false) g h h' = (h, g)

    evicted_at-Agreed :
        (x : Insertion) (j : ℕ) (m : Memory) (r : Shard × Bool)
        → IsGenuine cap (inserting x (at_shard j))
        → Agreed stored m.shards
        → Agreed stored (set m.shards j r.0)
        → Stepped stored (evicted_at iter hash_one capacity x j m r)
    evicted_at-Agreed x j m (s, true) g h h' = (h', g)
    evicted_at-Agreed x j m (s, false) g h h' = (h, g)

    stored-Agreed :
        (x : Insertion) (m : Memory)
        → IsGenuine cap (inserting x at_insert)
        → Agreed stored m.shards
        → Agreed
            (stored ++ (put (x.entry).inserted_at (x.entry).response ∷ []))
            (insert_act iter hash_one capacity x at_insert m).1.shards
    stored-Agreed x m g h =
        let ref : Shard = ref_run cap stored [] in
        let i : ℕ = shard_index hash_one (hash_key x.key) in
        let grown : (x.key, x.entry) ∷ ref
            ≡ ref_run cap (stored ++ (put (x.entry).inserted_at (x.entry).response ∷ [])) [] =
          sym (
            ref_run-append cap (x.entry).inserted_at (x.entry).response stored []
            ∙ ref_put-IsGenuine cap x at_insert ref g) in
        subst
          (λ (r : Shard).
            Every (Agrees hash_one r) 0
              (set m.shards i (shard_insert x.key x.entry (shard_at m.shards i))))
          grown
          (Every-set (Agrees hash_one ref) (Agrees hash_one ((x.key, x.entry) ∷ ref)) 0 i i m.shards
            _ (omega arith) h (elsewhere hash_one ref x.key x.entry)
            (inserted hash_one ref x.key x.entry (shard_at m.shards i)
              (shard_at-Every _ closed 0 i i m.shards (omega arith) h)))

    insert_act-Agreed :
        (x : Insertion) (p : Phase) (m : Memory)
        → IsGenuine cap (inserting x p)
        → Agreed stored m.shards
        → Stepped (log (inserting x p) stored) (insert_act iter hash_one capacity x p m)
    insert_act-Agreed x at_lock m g h = (h, g)
    insert_act-Agreed x at_load m g h = (h, g)
    insert_act-Agreed x at_eviction m g h =
        evicted_home-Agreed x m _ g h (evict_one-Agreed (x.entry).inserted_at _ m.shards h)
    insert_act-Agreed x at_sub m g h = (h, g)
    insert_act-Agreed x (at_shard j) m g h =
        if_both (Stepped stored) (leb num_shards j) (h, g)
          (if_both (Stepped stored) (j == home iter hash_one capacity x) (h, g)
            (evicted_at-Agreed x j m _ g h (evict_one-Agreed (x.entry).inserted_at j m.shards h)))
    insert_act-Agreed x at_sub_outside m g h = (h, g)
    insert_act-Agreed x at_relock m g h = (h, g)
    insert_act-Agreed x at_insert m g h = (stored-Agreed x m g h, g)
    insert_act-Agreed x (at_add true) m g h = (h, tt)
    insert_act-Agreed x (at_add false) m g h = (h, tt)

    act-Agreed :
        (t : Task) (m : Memory)
        → IsGenuine cap t
        → Agreed stored m.shards
        → Stepped (log t stored) (act iter hash_one capacity t m)
    unfolding act
    act-Agreed (inserting x p) m g h = insert_act-Agreed x p m g h
    act-Agreed (reaping now j) m g h =
        if_both (Stepped stored) (leb num_shards j) (h, tt)
          (
            replaced _ closed 0 j j m.shards _ (omega arith) h (
                closed.retains j now (shard_at m.shards j)
                  (shard_at-Every _ closed 0 j j m.shards (omega arith) h)),
            tt,
          )
    act-Agreed (reaped now j n) m g h = (h, tt)
    act-Agreed finished m g h = (h, tt)

  Run-Agreed :
      (ops : List CacheOp) {stored : List CacheOp} {s : System}
      → Run iter hash_one capacity cap ops stored s
      → Agreed stored s.memory.shards × All (IsGenuine cap) s.tasks
  Run-Agreed ops start = (
    unfold ref_run in empty_shards-Every _ (Agrees-IsClosed hash_one []) 0 num_shards,
    calls-IsGenuine cap ops,
  )
  Run-Agreed ops (later {stored = stored} {s = s} front t back run e able) =
      let (agreed, genuine) = Run-Agreed ops run in
      let (g, others) =
        All-split (IsGenuine cap) front t back (subst (All (IsGenuine cap)) e genuine) in
      let (agreed', g') = act-Agreed stored t s.memory g agreed in
      (agreed', All-join (IsGenuine cap) front _ back g' others)

  -- The cache that a thread calls `get` on.
  abbrev pub cache_of : Memory → Cache
  cache_of m = record {
    shards = m.shards;
    capacity = capacity;
    len = m.len;
    max_negative_ttl = cap;
  }

  -- However the steps of insertions and of the reaper's rounds interleave on a new cache, whatever
  -- its capacity, the hasher and the order of iteration: a hit between any two steps is what a
  -- cache that never evicts returns once the responses stored so far were put into it in the order
  -- of their stores: the last one for that key, unless it has expired, with its ttls lowered.
  pub get_linearizes :
      (ops : List CacheOp) {stored : List CacheOp} {s : System} (now : ℕ) (q : Question)
      (m : Message)
      → Run iter hash_one capacity cap ops stored s
      → get hash_one now q (cache_of s.memory) ≡ some m
      → ref_get now q (ref_run cap stored []) ≡ some m
  get_linearizes ops {stored} {s} now q m run e =
      get-IsRefined hash_one iter cap now q m (ref_run cap stored []) (cache_of s.memory)
        (record { agrees = (Run-Agreed ops run).0; same_cap = refl }) e
