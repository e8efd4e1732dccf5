-- ===== src/Tests/Served.antt =====
-- The theorems on crates/dnser-server over its resolver and its cache, at concrete inputs.
use dnser.Base.{[], ◌∷◌}
use dnser.Cache.{new, evict_expired}
use dnser.Resolver.Query.{resolve}
use dnser.Server.Handler.{process_query}
use dnser.Server.Served.{start, serve, reap, served-IsReply}
use dnser.Server.Sound.{IsReply}
use dnser.Tests.Cache.{constant_hash, in_order}
use dnser.Tests.Resolver.{asked, late, prompt}

-- One query before, that was answered, and a round of the reaper.
served-IsReply_example :
    IsReply asked
      (process_query in_order constant_hash (resolve (late ∷ [])) 5 6 asked (
        evict_expired 4
          (process_query in_order constant_hash (resolve (prompt ∷ [])) 0 1 asked (new 2 60)).1)).0
served-IsReply_example =
    served-IsReply in_order constant_hash 2 60 (late ∷ []) 5 6 asked
      (reap 4 (serve (prompt ∷ []) 0 1 asked start))
