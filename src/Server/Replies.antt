-- ===== src/Server/Replies.antt =====
-- What `process_query` answers, on all its branches.
use dnser.Base.{
  ℕ, ◌+◌, ◌^◌, ◌%◌, ◌≤◌, ◌≡◌, refl, Bool, true, false, some, List, [], ◌∷◌, ◌++◌, length,
  length-append, Result, ok, err, stuck, arith,
}
use dnser.Cache.{Cache, Shard}
use dnser.Cache.Keys.{HashCall}
use dnser.Proto.Header.{reply_to}
use dnser.Proto.Message
use dnser.Proto.Message.{Message}
use dnser.Proto.Question.{Question}
use dnser.Proto.Record.{ResourceRecord, is_opt, edns_opt}
use dnser.Server.Handler.{
  process_query, answer, ask_upstream, readdressed, add_edns_opt, without_opt, build_servfail,
  build_badvers, query_udp_limit,
}

-- The limit for UDP is between 512 and 4096 bytes, whatever the client advertises.
pub query_udp_limit_bounds :
    (query : Message) → (512 ≤ query_udp_limit query) × (query_udp_limit query ≤ 4096)
unfolding query_udp_limit
query_udp_limit_bounds query = (ground arith, ground arith)

find_opt-without_opt :
    (rrs : List ResourceRecord) (rr : ResourceRecord)
    → is_opt rr ≡ true
    → Message.find_opt (without_opt rrs ++ rr ∷ []) ≡ some rr
unfolding without_opt
find_opt-without_opt [] rr h = ground (arith, h)
find_opt-without_opt (x ∷ xs) rr h = ground (arith, find_opt-without_opt xs rr h)

without_opt-append :
    (rrs : List ResourceRecord) (rr : ResourceRecord)
    → is_opt rr ≡ true
    → without_opt (without_opt rrs ++ rr ∷ []) ≡ without_opt rrs
unfolding without_opt
without_opt-append [] rr h = ground (arith, h)
without_opt-append (x ∷ xs) rr h = ground (arith, without_opt-append xs rr h)

-- Whatever OPT records a response has, `add_edns_opt` leaves one, which advertises 4096 bytes, and
-- the other records of the section as they were; the section's count in the header is its length,
-- taken to 16 bits, and the id, the flags, the questions, the other sections and the other three
-- counts are kept.
pub add_edns_opt_lem :
    (m : Message)
    → (Message.opt (add_edns_opt m) ≡ some (edns_opt 4096))
      × (without_opt (add_edns_opt m).additional ≡ without_opt m.additional)
      × (length (add_edns_opt m).additional ≡ length (without_opt m.additional) + 1)
      × ((add_edns_opt m).header.ar_count ≡ length (add_edns_opt m).additional % 2 ^ 16)
      × ((add_edns_opt m).header.id ≡ m.header.id)
      × ((add_edns_opt m).header.flags ≡ m.header.flags)
      × ((add_edns_opt m).header.qd_count ≡ m.header.qd_count)
      × ((add_edns_opt m).header.an_count ≡ m.header.an_count)
      × ((add_edns_opt m).header.ns_count ≡ m.header.ns_count)
      × ((add_edns_opt m).questions ≡ m.questions)
      × ((add_edns_opt m).answers ≡ m.answers)
      × ((add_edns_opt m).authority ≡ m.authority)
unfolding add_edns_opt
add_edns_opt_lem m = (
  unfold Message.opt in
      find_opt-without_opt m.additional (edns_opt 4096) (unfold is_opt edns_opt in refl),
  without_opt-append m.additional (edns_opt 4096) (unfold is_opt edns_opt in refl),
  length-append (without_opt m.additional) (edns_opt 4096 ∷ []),
  refl,
  refl,
  refl,
  refl,
  refl,
  refl,
  refl,
  refl,
  refl,
)

module _ (iter : Shard → Shard) (hash_one : List HashCall → ℕ) {E : Type 0}
    (resolve : Message → Result E Message) where
  ask_upstream-id :
      (later : ℕ) (has_opt : Bool) (query : Message) (cache : Cache)
      → ((m : Message) → resolve query ≡ ok m → m.header.id ≡ query.header.id)
      → (ask_upstream iter hash_one resolve later has_opt query cache).0.header.id ≡ query.header.id
  unfolding ask_upstream add_edns_opt build_servfail reply_to
  ask_upstream-id later has_opt query cache h =
      (elim (resolve query)
          as (λ r.
            resolve query ≡ r
            → (ask_upstream iter hash_one resolve later has_opt query cache).0.header.id
              ≡ query.header.id) [
                | ok m ↦ λ e. ground (arith, e, h m e)
                | err x ↦ λ e. ground (arith, e)
                | stuck ↦ λ e. ground (arith, e)
              ])
        refl

  answer-id :
      (now later : ℕ) (has_opt : Bool) (query : Message) (cache : Cache)
      → ((m : Message) → resolve query ≡ ok m → m.header.id ≡ query.header.id)
      → (answer iter hash_one resolve now later has_opt query cache).0.header.id ≡ query.header.id
  unfolding answer add_edns_opt readdressed
  answer-id now later has_opt query cache h =
      ground (arith, ask_upstream-id later has_opt query cache h)

  -- If the resolver's answers to a query have the query's id, then so has every response to it: a hit,
  -- an answer from upstream, SERVFAIL and BADVERS.
  pub process_query-id :
      (now later : ℕ) (query : Message) (cache : Cache)
      → ((m : Message) → resolve query ≡ ok m → m.header.id ≡ query.header.id)
      → (process_query iter hash_one resolve now later query cache).0.header.id ≡ query.header.id
  unfolding process_query build_badvers reply_to
  process_query-id now later query cache h =
      ground
        (arith, answer-id now later false query cache h, answer-id now later true query cache h)
