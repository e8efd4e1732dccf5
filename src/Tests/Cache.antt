-- ===== src/Tests/Cache.antt =====
-- The theorems on crates/dnser-cache and crates/dnser-net at concrete inputs.
use dnser.Base.{ℕ, ◌≡◌, refl, List, [], ◌∷◌, ◌++◌, arith, true, some, subst, append_assoc, All}
use dnser.Cache
use dnser.Cache.{
  Cache, Shard, CacheEntry, contains_key, get, insert, evict_expired, cacheable_ttl, rewritten,
  from_secs, as_secs, only_question, hit,
}
use dnser.Cache.Count.{IsIteration}
use dnser.Cache.Hits.{get-insert}
use dnser.Cache.Keys.{
  CacheKey, HashCall, from_question, same_key_refl, to_ascii_lowercase, lowercase,
}
use dnser.Net.{read_framed, write_framed, read_framed-write_framed}
use dnser.Proto.Codes
use dnser.Proto.Codes.{record_type_code, rcode_try_from}
use dnser.Proto.Header.{is_truncated, rcode}
use dnser.Proto.Question.{Question}
use dnser.Tests.Proto.{response}

-- A hasher for which all keys collide, and a map iterated in its own order.
abbrev pub constant_hash : List HashCall → ℕ
constant_hash calls = 5

abbrev pub in_order : Shard → Shard
in_order s = s

contains_behind :
    (front rest : Shard) (k : CacheKey) (e : CacheEntry)
    → contains_key k (front ++ (k, e) ∷ rest) ≡ true
unfolding contains_key
contains_behind [] rest k e = ground (arith, same_key_refl k)
contains_behind ((k', e') ∷ front) rest k e = ground (arith, contains_behind front rest k e)

All-contained :
    (front s : Shard) → All (λ (e : CacheKey × CacheEntry). contains_key e.0 (front ++ s) ≡ true) s
All-contained front [] = tt
All-contained front ((k, e) ∷ rest) = (
  contains_behind front rest k e,
  subst
      (λ (whole : Shard). All (λ (e' : CacheKey × CacheEntry). contains_key e'.0 whole ≡ true) rest)
      (append_assoc front ((k, e) ∷ []) rest) (All-contained (front ++ (k, e) ∷ []) rest),
)

pub in_order-IsIteration : IsIteration in_order
in_order-IsIteration = record { visits_entries = All-contained []; visits_some = λ s e. e }

-- "A.BC", asked for an address.
abbrev pub shouting : Question
shouting = record {
  name = b'A' ∷ b'.' ∷ b'B' ∷ b'C' ∷ [];
  qtype = Codes.a;
  qclass = record { code = 1 };
}

abbrev pub asked : Question
asked = record {
  name = b'a' ∷ b'.' ∷ b'b' ∷ b'c' ∷ [];
  qtype = Codes.a;
  qclass = record { code = 1 };
}

abbrev pub empty_cache : Cache
empty_cache = Cache.new 2 60

pub response_cacheable : cacheable_ttl empty_cache.max_negative_ttl response ≡ some 300
unfolding cacheable_ttl is_truncated rcode Cache.new rcode_try_from Cache.min_ttl
response_cacheable = refl

pub same_question : from_question shouting ≡ from_question asked
unfolding from_question to_ascii_lowercase lowercase
same_question = refl

get-insert_example :
    get constant_hash 5_000_000_000 shouting (insert in_order constant_hash 0 response empty_cache)
    ≡ some (rewritten response 5)
unfolding Cache.new
get-insert_example =
    get-insert in_order constant_hash 0 5_000_000_000 response asked shouting 300 empty_cache refl
      response_cacheable same_question (omega arith) refl

read_framed-write_framed_example :
    read_framed ((0 ∷ 2 ∷ b'h' ∷ b'i' ∷ []) ++ (0 ∷ [])) ≡ some (b'h' ∷ b'i' ∷ [], 0 ∷ [])
read_framed-write_framed_example =
    read_framed-write_framed (b'h' ∷ b'i' ∷ []) (0 ∷ 2 ∷ b'h' ∷ b'i' ∷ []) (0 ∷ [])
      (unfold write_framed in refl)
