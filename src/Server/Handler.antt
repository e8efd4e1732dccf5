-- ===== src/Server/Handler.antt =====
-- crates/dnser-server/src/handler.rs. The resolver is a parameter: the
-- outcome that `resolve` has for a query. Logging is not modelled.
use dnser.Base.{
  ℕ, ◌-◌, ◌^◌, ◌%◌, min, max, Bool, true, false, not, Option, none, some, List, [], ◌∷◌, ◌++◌,
  length, ◌==◌, if◌then◌else◌, bit_and, bit_or, Result, ok, err, stuck,
}
use dnser.Cache.{Cache, Shard, get, insert, only_question}
use dnser.Cache.Keys.{HashCall}
use dnser.Proto.Header.{reply_to, tc, rd}
use dnser.Proto.Message
use dnser.Proto.Message.{Message, to_bytes, max_udp_size}
use dnser.Proto.Record.{
  ResourceRecord, is_opt, edns_opt, edns_udp_size, edns_version, set_edns_extended_rcode,
}

abbrev pub max_udp_payload : ℕ
max_udp_payload = 512

-- `MAX_UDP_SIZE as u16`
abbrev pub server_udp_payload : ℕ
server_udp_payload = max_udp_size % 2 ^ 16

abbrev pub clamp : ℕ → ℕ → ℕ → ℕ
clamp n low high = max low (min n high)

abbrev pub advertised_limit : Option ℕ → ℕ
advertised_limit none = max_udp_payload
advertised_limit (some advertised) = clamp advertised max_udp_payload max_udp_size

unfoldable pub query_udp_limit : Message → ℕ
query_udp_limit query =
    advertised_limit (elim (Message.opt query) [ none ↦ none | some o ↦ edns_udp_size o ])

-- `retain(|rr| !rr.is_opt())`
unfoldable pub without_opt : List ResourceRecord → List ResourceRecord
without_opt [] = []
without_opt (rr ∷ rrs) = let kept = without_opt rrs in if is_opt rr then kept else rr ∷ kept

unfoldable pub add_edns_opt : Message → Message
add_edns_opt response =
    let additional = without_opt response.additional ++ (edns_opt server_udp_payload ∷ []) in
    record response {
      additional = additional;
      header = record response.header { ar_count = length additional % 2 ^ 16 };
    }

unfoldable pub build_servfail : Message → Message
build_servfail query = record Message.default {
  header = reply_to query.header 2;
  questions = query.questions;
}

unfoldable pub build_truncated : Message → Message
build_truncated query = record Message.default {
  header = reply_to query.header tc;
  questions = query.questions;
}

unfoldable pub build_badvers : Message → Message
build_badvers query = record Message.default {
  header = record (reply_to query.header 0) { ar_count = 1 };
  questions = query.questions;
  additional = set_edns_extended_rcode (edns_opt server_udp_payload) 1 ∷ [];
}

-- `o.edns_version() != Some(0)`
abbrev pub is_bad_version : Option ℕ → Bool
is_bad_version none = true
is_bad_version (some v) = not (v == 0)

-- The cached response under the query's id and RD flag; `!Header::RD` is a mask of 16 bits.
unfoldable pub readdressed : Message → Message → Message
readdressed query cached = record cached {
  header = record cached.header {
    id = query.header.id;
    flags = bit_or (bit_and cached.header.flags (2 ^ 16 - 1 - rd)) (bit_and query.header.flags rd);
  };
}

-- `if has_opt { add_edns_opt(…) }`
abbrev pub with_opt : Bool → Message → Message
with_opt has_opt m = if has_opt then add_edns_opt m else m

-- The response, and the cache afterwards.
module _ (iter : Shard → Shard) (hash_one : List HashCall → ℕ) {E : Type 0}
    (resolve : Message → Result E Message) where
  -- The query misses the cache: at `later` the upstream's answer is there.
  unfoldable pub ask_upstream : ℕ → Bool → Message → Cache → Message × Cache
  ask_upstream later has_opt query cache = elim (resolve query) [
    | ok m ↦ (with_opt has_opt m, insert iter hash_one later m cache)
    | err e ↦ (build_servfail query, cache)
    | stuck ↦ (build_servfail query, cache)
  ]

  unfoldable pub look_up : ℕ → Message → Cache → Option Message
  look_up now query cache = elim (only_question query.questions) [
    | none ↦ none
    | some question ↦ get hash_one now question cache
  ]

  unfoldable pub answer : ℕ → ℕ → Bool → Message → Cache → Message × Cache
  answer now later has_opt query cache = elim (look_up now query cache) [
    | some cached ↦ (with_opt has_opt (readdressed query cached), cache)
    | none ↦ ask_upstream later has_opt query cache
  ]

  unfoldable pub process_query : ℕ → ℕ → Message → Cache → Message × Cache
  process_query now later query cache = elim (Message.opt query) [
    | none ↦ answer now later false query cache
    | some o ↦
        if is_bad_version (edns_version o)
        then (build_badvers query, cache)
        else answer now later true query cache
  ]
