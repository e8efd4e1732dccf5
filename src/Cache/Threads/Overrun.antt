-- ===== src/Cache/Threads/Overrun.antt =====
-- More entries than the capacity: `insert` loads `len` with its shard's lock, and adds to it without.
use dnser.Base.{ℕ, ◌^◌, ◌<◌, ◌≡◌, refl, ap, subst, ◌∙◌, true, List, [], ◌∷◌, length, All, arith}
use dnser.Cache.{Shard, num_shards, empty_shards}
use dnser.Cache.Count.{IsIteration, total}
use dnser.Cache.Keys.{HashCall}
use dnser.Cache.Reference.{CacheOp}
use dnser.Cache.Threads.{Insertion, Memory, System, Run, start, home}
use dnser.Cache.Threads.Counter.{all_finished, Run-IsTallied, IsTallied, len_settles}
use dnser.Cache.Threads.Suspended.{
  Begins, Apart, waiting, uncounted, returned, calls-waiting, length-Begins, empty_missing,
  adds-uncounted, returned-all_finished, waiting-Idle, Reached, Missing, AllStored, AllReturned,
  store_together, count_together,
}

module _ (iter : Shard → Shard) (hash_one : List HashCall → ℕ) (capacity cap : ℕ)
    (ops : List CacheOp) where
  -- Whatever the capacity, if it is not 0: any number, below 2 ^ 64, of threads that insert
  -- responses under keys that differ, into a new cache, can leave an entry for each of them: there
  -- is an interleaving of their steps at whose end all have returned, and the cache has as many
  -- entries, and counts as many, as there were responses. Iterating a map visits entries of it, and
  -- some where it has any.
  pub capacity_overrun :
      (xs : List Insertion)
      → IsIteration iter
      → Begins cap ops xs
      → Apart xs
      → 0 < capacity
      → length ops < 2 ^ 64
      → (stored : List CacheOp) × (s : System) × Run iter hash_one capacity cap ops stored s
        × (all_finished s.tasks ≡ true)
        × (total s.memory.shards ≡ length ops)
        × (s.memory.len ≡ length ops)
  capacity_overrun xs laws begins apart room fits =
      let fresh : Memory = record { shards = empty_shards num_shards; len = 0 } in
      let first : Reached iter hash_one capacity cap ops fresh (waiting xs) =
        subst (Reached iter hash_one capacity cap ops fresh) (calls-waiting cap ops xs begins)
          (record { stored = []; run = start }) in
      let all : AllStored iter hash_one capacity cap ops [] xs =
        store_together iter hash_one capacity cap ops [] xs fresh
          (waiting-Idle iter hash_one capacity cap ops xs) room refl (nowhere xs) apart first in
      let tally : IsTallied (length ops) (record { memory = all.memory; tasks = uncounted xs }) =
        Run-IsTallied iter laws hash_one capacity cap ops fits all.reached.run in
      let (p, q) = adds-uncounted xs in
      let entries : total all.memory.shards ≡ length ops = omega (
        arith,
        tally.tallied,
        tally.room,
        all.uncounted_yet,
        p,
        q,
        fits,
        length-Begins cap ops xs begins,
      ) in
      let end : AllReturned iter hash_one capacity cap ops all.memory.shards [] xs =
        count_together iter hash_one capacity cap ops [] xs all.memory all.reached in
      let settled : total end.memory.shards ≡ length ops = ap total end.same_shards ∙ entries in
      (
        end.reached.stored,
        record { memory = end.memory; tasks = returned xs },
        end.reached.run,
        returned-all_finished xs,
        settled,
        len_settles iter laws hash_one capacity cap ops fits end.reached.run
              (returned-all_finished xs)
            ∙ settled,
      )
    where
      nowhere :
          (xs : List Insertion)
          → All
              (Missing iter hash_one capacity cap ops
                (record { shards = empty_shards num_shards; len = 0 }))
              xs
      nowhere [] = tt
      nowhere (x ∷ xs) =
          (empty_missing num_shards (home iter hash_one capacity x) x.key, nowhere xs)
