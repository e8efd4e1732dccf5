-- ===== src/Cache/Threads.antt =====
-- insert and evict_expired of crates/dnser-cache/src/lib.rs, called by any number of threads. A
-- step is one access to the counter `len`, or what is done with one shard from where its lock is
-- taken up to the next access to `len`; threads take their steps in any order that the locks allow.
pub mod Sums
pub mod Balance
pub mod Counter
pub mod Linear
pub mod Measure
pub mod Progress
pub mod Suspended
pub mod Overrun
use dnser.Base.{
  ℕ, zero, suc, ◌+◌, ◌-◌, ◌≡◌, Bool, true, false, ◌&&◌, not, Option, none, some, List, [], ◌∷◌,
  ◌++◌, map, length, set, leb, ◌==◌, if◌then◌else◌,
}
use dnser.Cache.{
  Cache, Shard, CacheEntry, shard_at, shard_index, shard_insert, contains_key, retain, evict_one,
  fetch_sub, fetch_add, num_shards, from_secs, cacheable_ttl, only_question, empty_shards,
}
use dnser.Cache.Keys.{CacheKey, HashCall, from_question, hash_key}
use dnser.Cache.Reference.{CacheOp, put, reap}
use dnser.Proto.Message.{Message}

-- What `insert` has computed before it takes a lock; its `now` is the entry's `inserted_at`.
pub record Insertion : Type 0 where
  pub key : CacheKey
  pub entry : CacheEntry

-- Where `insert` is: before it takes its shard's lock; with the lock, before it loads `len`, before it
-- evicts, before it subtracts; without it, before shard number `j` of the others, before it subtracts,
-- before it takes the lock again; with the lock, before it inserts; at last, before it adds 1 to `len`
-- if its key is new.
pub data Phase : Type 0 where
  at_lock at_load at_eviction at_sub : Phase
  at_shard : ℕ → Phase
  at_sub_outside at_relock at_insert : Phase
  at_add : Bool → Phase

-- A call: `reaping now j` is before shard `j`, `reaped now j n` holds it and is about to subtract `n`.
pub data Task : Type 0 where
  inserting : Insertion → Phase → Task
  reaping : ℕ → ℕ → Task
  reaped : ℕ → ℕ → ℕ → Task
  finished : Task

-- What the threads share.
pub record Memory : Type 0 where
  pub shards : List Shard
  pub len : ℕ

abbrev pub insertion : ℕ → Message → CacheKey → ℕ → Insertion
insertion now response key ttl = record {
  key = key;
  entry = record { response = response; inserted_at = now; expires_at = now + from_secs ttl };
}

-- A call up to its first lock.
unfoldable pub begin : ℕ → CacheOp → Task
begin cap (put now response) = elim (only_question response.questions) [
  | none ↦ finished
  | some q ↦ elim (cacheable_ttl cap response) [
    | none ↦ finished
    | some ttl ↦ inserting (insertion now response (from_question q) ttl) at_lock
  ]
]
begin cap (reap now) = reaping now 0

module _ (iter : Shard → Shard) (hash_one : List HashCall → ℕ) (capacity : ℕ) where
  abbrev pub home : Insertion → ℕ
  home x = shard_index hash_one (hash_key x.key)

  -- `evict_one` on the shard of the insertion.
  abbrev pub evicted_home : Insertion → Memory → Shard × Bool → Task × Memory
  evicted_home x m (s, true) = (inserting x at_sub, record m { shards = set m.shards (home x) s })
  evicted_home x m (s, false) = (inserting x (at_shard 0), m)

  -- `evict_one` on another shard.
  abbrev pub evicted_at : Insertion → ℕ → Memory → Shard × Bool → Task × Memory
  evicted_at x j m (s, true) = (inserting x at_sub_outside, record m { shards = set m.shards j s })
  evicted_at x j m (s, false) = (inserting x (at_shard (j + 1)), m)

  -- A round of the loop over the other shards.
  abbrev pub scan_shard : Insertion → ℕ → Memory → Task × Memory
  scan_shard x j m =
      if leb num_shards j
      then (inserting x at_relock, m)
      else if j == home x
      then (inserting x (at_shard (j + 1)), m)
      else evicted_at x j m (evict_one iter (x.entry).inserted_at (shard_at m.shards j))

  abbrev pub insert_act : Insertion → Phase → Memory → Task × Memory
  insert_act x at_lock m = (inserting x at_load, m)
  insert_act x at_load m = (inserting x (if leb capacity m.len then at_eviction else at_insert), m)
  insert_act x at_eviction m =
      evicted_home x m (evict_one iter (x.entry).inserted_at (shard_at m.shards (home x)))
  insert_act x at_sub m = (inserting x at_insert, record m { len = fetch_sub m.len 1 })
  insert_act x (at_shard j) m = scan_shard x j m
  insert_act x at_sub_outside m = (inserting x at_relock, record m { len = fetch_sub m.len 1 })
  insert_act x at_relock m = (inserting x at_insert, m)
  insert_act x at_insert m =
      let shard = shard_at m.shards (home x) in
      (
        inserting x (at_add (not (contains_key x.key shard))),
        record m { shards = set m.shards (home x) (shard_insert x.key x.entry shard) },
      )
  insert_act x (at_add true) m = (finished, record m { len = fetch_add m.len 1 })
  insert_act x (at_add false) m = (finished, m)

  -- A round of the loop of `evict_expired`, up to where it subtracts.
  abbrev pub reap_shard : ℕ → ℕ → Memory → Task × Memory
  reap_shard now j m =
      let shard = shard_at m.shards j in
      if leb num_shards j then (finished, m) else (
        reaped now j (length shard - length (retain now shard)),
        record m { shards = set m.shards j (retain now shard) },
      )

  -- The next step of a call.
  unfoldable pub act : Task → Memory → Task × Memory
  act (inserting x p) m = insert_act x p m
  act (reaping now j) m = reap_shard now j m
  act (reaped now j n) m = (reaping now (j + 1), record m { len = fetch_sub m.len n })
  act finished m = (finished, m)

abbrev pub is_finished : Task → Bool
is_finished finished = true
is_finished _ = false

-- The shard whose lock a call holds between two steps.
module _ (hash_one : List HashCall → ℕ) where
  abbrev pub insert_holds : Insertion → Phase → Option ℕ
  insert_holds x at_load = some (shard_index hash_one (hash_key x.key))
  insert_holds x at_eviction = some (shard_index hash_one (hash_key x.key))
  insert_holds x at_sub = some (shard_index hash_one (hash_key x.key))
  insert_holds x at_insert = some (shard_index hash_one (hash_key x.key))
  insert_holds x _ = none

  unfoldable pub holds : Task → Option ℕ
  holds (inserting x p) = insert_holds x p
  holds (reaped now j n) = some j
  holds _ = none

  -- The shard whose lock the next step takes.
  abbrev pub insert_wants : Insertion → Phase → Option ℕ
  insert_wants x at_lock = some (shard_index hash_one (hash_key x.key))
  insert_wants x at_relock = some (shard_index hash_one (hash_key x.key))
  insert_wants x (at_shard j) =
      if leb num_shards j
      then none
      else if j == shard_index hash_one (hash_key x.key)
      then none
      else some j
  insert_wants x _ = none

  unfoldable pub wants : Task → Option ℕ
  wants (inserting x p) = insert_wants x p
  wants (reaping now j) = if leb num_shards j then none else some j
  wants _ = none

  abbrev pub is_other : ℕ → Option ℕ → Bool
  is_other i none = true
  is_other i (some j) = not (i == j)

  -- No call of the list holds the lock.
  abbrev pub is_free : ℕ → List Task → Bool
  is_free i [] = true
  is_free i (t ∷ tasks) = is_other i (holds t) && is_free i tasks

  abbrev pub lock_is_free : Option ℕ → List Task → Bool
  lock_is_free none others = true
  lock_is_free (some i) others = is_free i others

  unfoldable pub can_step : Task → List Task → Bool
  can_step t others = not (is_finished t) && lock_is_free (wants t) others

pub record System : Type 0 where
  pub memory : Memory
  pub tasks : List Task

-- A call goes on, between those before it and those behind it in the list.
abbrev pub resume : List Task → List Task → Task × Memory → System
resume front back (t, m) = record { memory = m; tasks = front ++ (t ∷ back) }

-- The responses stored, in the order of their stores.
abbrev pub log : Task → List CacheOp → List CacheOp
log (inserting x at_insert) stored = stored ++ (put (x.entry).inserted_at (x.entry).response ∷ [])
log _ stored = stored

abbrev pub calls : ℕ → List CacheOp → List Task
calls cap [] = []
calls cap (op ∷ ops) = begin cap op ∷ calls cap ops

-- The states that the calls `ops` on a new cache reach, with what they have stored.
pub data Run (iter : Shard → Shard) (hash_one : List HashCall → ℕ) (capacity cap : ℕ)
    (ops : List CacheOp) : List CacheOp → System → Type 0 where
  start : Run iter hash_one capacity cap ops [] (record {
    memory = record { shards = empty_shards num_shards; len = 0 };
    tasks = calls cap ops;
  })
  later :
      {stored : List CacheOp} {s : System} (front : List Task) (t : Task) (back : List Task)
      → Run iter hash_one capacity cap ops stored s
      → s.tasks ≡ front ++ (t ∷ back)
      → can_step hash_one t (front ++ back) ≡ true
      → Run iter hash_one capacity cap ops
          (log t stored)
          (resume front back (act iter hash_one capacity t s.memory))
