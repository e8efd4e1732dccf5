-- ===== src/Tests/Refinement.antt =====
-- The reference of the cache in crates/dnser-cache at a concrete run.
use dnser.Base.{◌≡◌, ◌≤◌, max, refl, some, [], ◌∷◌, arith}
use dnser.Cache.Bounded.{cache_bounded}
use dnser.Cache.Count.{total}
use dnser.Cache.Exact.{get_exact}
use dnser.Cache.{Cache, get, rewritten, new}
use dnser.Cache.Hits.{get-insert}
use dnser.Cache.Reference.{put, reap, ref_get, ref_run, run}
use dnser.Cache.Refinement.{get_refines}
use dnser.Tests.Cache.{
  constant_hash, in_order, in_order-IsIteration, shouting, asked, empty_cache, response_cacheable,
  same_question,
}
use dnser.Tests.Proto.{response}

hits :
    get constant_hash 5_000_000_000 shouting
      (run in_order constant_hash (put 0 response ∷ []) (new 2 60))
    ≡ some (rewritten response 5)
unfolding run new
hits =
    get-insert in_order constant_hash 0 5_000_000_000 response asked shouting 300 empty_cache refl
      response_cacheable same_question (omega arith) refl

get_refines_example :
    ref_get 5_000_000_000 shouting (ref_run 60 (put 0 response ∷ []) [])
    ≡ some (rewritten response 5)
get_refines_example =
    get_refines constant_hash in_order 2 60 (put 0 response ∷ []) 5_000_000_000 shouting
      (rewritten response 5) hits

-- A round of the reaper before the question.
get_exact_example :
    get constant_hash 5_000_000_000 shouting
      (run in_order constant_hash (put 0 response ∷ reap 1_000 ∷ []) (new 2 60))
    ≡ ref_get 5_000_000_000 shouting (ref_run 60 (put 0 response ∷ reap 1_000 ∷ []) [])
get_exact_example =
    get_exact constant_hash in_order 2 60 (put 0 response ∷ reap 1_000 ∷ []) 5_000_000_000 shouting
      in_order-IsIteration (omega arith) (omega arith) (omega arith) (omega arith)

-- The same response twice, in a cache for one entry.
abbrev crowded : Cache
crowded =
    run in_order constant_hash (put 0 response ∷ put 1_000 response ∷ reap 5_000 ∷ []) (new 1 60)

cache_bounded_example : (crowded.len ≡ total crowded.shards) × (total crowded.shards ≤ max 1 1)
cache_bounded_example =
    cache_bounded in_order in_order-IsIteration constant_hash 1 60
      (put 0 response ∷ put 1_000 response ∷ reap 5_000 ∷ []) (omega arith)
