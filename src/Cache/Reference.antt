-- ===== src/Cache/Reference.antt =====
-- A cache without shards, counter, capacity or eviction: the specification of
-- crates/dnser-cache/src/lib.rs.
use dnser.Base.{ℕ, ◌+◌, Option, none, some, List, [], ◌∷◌, if◌then◌else◌}
use dnser.Cache.{
  Cache, Shard, CacheEntry, insert, hit, evict_expired, cacheable_ttl, only_question, from_secs,
}
use dnser.Cache.Keys.{CacheKey, HashCall, same_key, from_question}
use dnser.Proto.Message.{Message}
use dnser.Proto.Question.{Question}

-- What is done to a cache: a response comes in, or the reaper makes its round.
pub data CacheOp : Type 0 where
  put : ℕ → Message → CacheOp
  reap : ℕ → CacheOp

-- The reference: every cacheable response ever put, the last one first, by `get` over one map.
abbrev pub ref_entry : ℕ → Message → Question → ℕ → Shard → Shard
ref_entry now m q ttl ref =
    (from_question q, record { response = m; inserted_at = now; expires_at = now + from_secs ttl })
    ∷ ref

unfoldable pub ref_put : ℕ → ℕ → Message → Shard → Shard
ref_put cap now m ref = elim (only_question m.questions) [
  | none ↦ ref
  | some q ↦ elim (cacheable_ttl cap m) [ none ↦ ref | some ttl ↦ ref_entry now m q ttl ref ]
]

unfoldable pub ref_run : ℕ → List CacheOp → Shard → Shard
ref_run cap [] ref = ref
ref_run cap (put now m ∷ ops) ref = ref_run cap ops (ref_put cap now m ref)
ref_run cap (reap now ∷ ops) ref = ref_run cap ops ref

unfoldable pub ref_find : CacheKey → Shard → Option CacheEntry
ref_find key [] = none
ref_find key ((k, e) ∷ rest) = if same_key k key then some e else ref_find key rest

abbrev pub ref_hit : ℕ → Option CacheEntry → Option Message
ref_hit now none = none
ref_hit now (some e) = hit now e

abbrev pub ref_get : ℕ → Question → Shard → Option Message
ref_get now q ref = ref_hit now (ref_find (from_question q) ref)

module _ (iter : Shard → Shard) (hash_one : List HashCall → ℕ) where
  unfoldable pub run : List CacheOp → Cache → Cache
  run [] c = c
  run (put now m ∷ ops) c = run ops (insert iter hash_one now m c)
  run (reap now ∷ ops) c = run ops (evict_expired now c)
