-- ===== src/Tests/Threads.antt =====
-- Insertions by two threads of crates/dnser-cache, interleaved.
use dnser.Base.{ℕ, ◌*◌, ◌≤◌, ◌≡◌, ◌⊎◌, refl, true, false, some, List, [], ◌∷◌, length, set, arith}
use dnser.Cache
use dnser.Cache.{
  Shard, CacheEntry, get, rewritten, empty_shards, shard_index, contains_key, remove, cacheable_ttl,
  from_secs, find_lookup,
}
use dnser.Cache.Count.{total}
use dnser.Cache.Keys.{
  CacheKey, same_key, from_question, to_ascii_lowercase, lowercase, equivalent,
  lookup_from_question,
}
use dnser.Cache.Reference.{CacheOp, put, ref_get, ref_run}
use dnser.Cache.Threads.{
  Insertion, at_lock, at_load, at_insert, at_add, inserting, finished, System, Run, start, later,
  begin, act, holds, wants, can_step, insertion,
}
use dnser.Cache.Threads.Counter.{all_finished, len_settles}
use dnser.Cache.Threads.Linear.{cache_of, get_linearizes}
use dnser.Cache.Threads.Overrun.{capacity_overrun}
use dnser.Cache.Threads.Suspended.{Begins, Apart}
use dnser.Cache.Threads.Progress.{CanGo, steps, no_deadlock}
use dnser.Proto.Codes.{rcode_try_from}
use dnser.Proto.Message.{Message}
use dnser.Proto.Question.{Question}
use dnser.Proto.Codes
use dnser.Proto.Header.{is_truncated, rcode}
use dnser.Tests.Cache.{constant_hash, in_order, in_order-IsIteration, shouting}
use dnser.Tests.Proto.{response}

abbrev ops : List CacheOp
ops = put 0 response ∷ put 1_000 response ∷ []

abbrev key : CacheKey
key = record { name = b'a' ∷ b'.' ∷ b'b' ∷ b'c' ∷ []; qtype = 1; qclass = 1 }

abbrev first : Insertion
first = insertion 0 response key 300

abbrev second : Insertion
second = insertion 1_000 response key 300

-- Both have stored, and only the first key was new.
abbrev both_stored : System
both_stored = record {
  memory = record { shards = set (empty_shards 64) 5 ((key, second.entry) ∷ []); len = 0 };
  tasks = inserting first (at_add true) ∷ inserting second (at_add false) ∷ [];
}

abbrev both_done : System
both_done = record {
  memory = record { shards = both_stored.memory.shards; len = 1 };
  tasks = finished ∷ finished ∷ [];
}

-- The second takes the lock before the first has counted its entry.
stores_both : Run in_order constant_hash 2 60 ops ops both_stored
unfolding begin act holds wants can_step shard_index contains_key remove same_key
    dnser.Base.Bytes.str_eq cacheable_ttl is_truncated rcode rcode_try_from Cache.min_ttl
    from_question to_ascii_lowercase lowercase dnser.Proto.Codes.record_type_code
stores_both =
    later (inserting first (at_add true) ∷ []) (inserting second at_insert) []
      (later (inserting first (at_add true) ∷ []) (inserting second at_load) []
        (later (inserting first (at_add true) ∷ []) (inserting second at_lock) []
          (later [] (inserting first at_insert) (inserting second at_lock ∷ [])
            (later [] (inserting first at_load) (inserting second at_lock ∷ [])
              (later [] (inserting first at_lock) (inserting second at_lock ∷ []) start refl refl)
              refl refl)
            refl refl)
          refl refl)
        refl refl)
      refl refl

finishes_both : Run in_order constant_hash 2 60 ops ops both_done
unfolding act wants can_step
finishes_both =
    later [] (inserting first (at_add true)) (finished ∷ [])
      (later (inserting first (at_add true) ∷ []) (inserting second (at_add false)) [] stores_both
        refl refl)
      refl refl

len_settles_example : both_done.memory.len ≡ total both_done.memory.shards
len_settles_example =
    len_settles in_order in_order-IsIteration constant_hash 2 60 ops (omega arith) finishes_both
      refl

finds_second :
    get constant_hash 5_000_000_000 shouting
      (cache_of in_order constant_hash 2 60 both_stored.memory)
    ≡ some (rewritten response 4)
unfolding get find_lookup shard_index equivalent dnser.Proto.Codes.record_type_code
    dnser.Cache.Keys.all_equal lowercase
finds_second = refl

get_linearizes_example :
    ref_get 5_000_000_000 shouting (ref_run 60 ops []) ≡ some (rewritten response 4)
get_linearizes_example =
    get_linearizes in_order constant_hash 2 60 ops 5_000_000_000 shouting (rewritten response 4)
      stores_both finds_second

no_deadlock_example :
    ((all_finished both_stored.tasks ≡ true) ⊎ CanGo constant_hash both_stored.tasks)
    × (steps in_order constant_hash 2 60 ops stores_both ≤ 129 * length ops)
no_deadlock_example = no_deadlock in_order constant_hash 2 60 ops stores_both

-- A response to another question.
abbrev other_question : Question
other_question = record { name = b'x' ∷ []; qtype = Codes.a; qclass = record { code = 1 } }

abbrev other_response : Message
other_response = record response { questions = other_question ∷ [] }

abbrev other_key : CacheKey
other_key = record { name = b'x' ∷ []; qtype = 1; qclass = 1 }

abbrev two_ops : List CacheOp
two_ops = put 0 response ∷ put 1_000 other_response ∷ []

abbrev two : List Insertion
two = first ∷ insertion 1_000 other_response other_key 300 ∷ []

two-Begins : Begins 60 two_ops two
unfolding begin cacheable_ttl is_truncated rcode rcode_try_from Cache.min_ttl from_question
    to_ascii_lowercase lowercase dnser.Proto.Codes.record_type_code
two-Begins = (refl, (refl, tt))

two-Apart : Apart two
unfolding same_key dnser.Base.Bytes.str_eq
two-Apart = ((refl, tt), (tt, tt))

-- The capacity is 1.
capacity_overrun_example :
    (stored : List CacheOp) × (s : System) × Run in_order constant_hash 1 60 two_ops stored s
    × (all_finished s.tasks ≡ true)
    × (total s.memory.shards ≡ 2)
    × (s.memory.len ≡ 2)
capacity_overrun_example =
    capacity_overrun in_order constant_hash 1 60 two_ops two in_order-IsIteration two-Begins
      two-Apart (omega arith) (omega arith)
