-- ===== src/Server/Served.antt =====
-- What a client is sent, whoever was served before: `process_query` over `resolve`, with a cache that
-- earlier queries and the reaper left behind.
use dnser.Base.{
  ℕ, ◌≡◌, refl, ap, sym, ◌∙◌, Bool, true, false, Option, none, some, List, map, All, ok, err, stuck,
  arith, if_both, Option-cases, inl, inr, if◌then◌else◌,
}
use dnser.Cache.{Cache, Shard, insert, evict_expired, only_question, new}
use dnser.Cache.Entries.{All-IsClosed, insert-All, evict_expired-Every, new-Every}
use dnser.Cache.Keys.{HashCall, from_question}
use dnser.Proto.Message
use dnser.Proto.Message.{Message}
use dnser.Proto.Record.{ResourceRecord, edns_version}
use dnser.Resolver.Query.{Upstream, resolve}
use dnser.Resolver.Answers.{resolve-IsAnswer}
use dnser.Server.Handler.{
  process_query, answer, look_up, ask_upstream, readdressed, with_opt, build_badvers,
  is_bad_version,
}
use dnser.Server.Sound.{
  IsReply, Honest, IsSound, IsAnswer-IsReply, with_opt-IsReply, is_response-readdressed,
  build_servfail-IsReply, build_badvers-IsReply, only_question-singleton, get-Honest,
}

-- The runs of a server on one cache: queries served, each by its own upstreams, and the reaper's
-- rounds. `insert_later` is a query whose upstream answers when other queries have changed the
-- cache since it missed.
pub data Run (iter : Shard → Shard) (hash_one : List HashCall → ℕ) (capacity cap : ℕ)
    : Cache → Type 0 where
  start : Run iter hash_one capacity cap (new capacity cap)
  serve :
      {c : Cache} (us : List Upstream) (now later : ℕ) (query : Message)
      → Run iter hash_one capacity cap c
      → Run iter hash_one capacity cap
          (process_query iter hash_one (resolve us) now later query c).1
  insert_later :
      {c : Cache} (us : List Upstream) (later : ℕ) (query m : Message)
      → resolve us query ≡ ok m
      → Run iter hash_one capacity cap c
      → Run iter hash_one capacity cap (insert iter hash_one later m c)
  reap :
      {c : Cache} (now : ℕ)
      → Run iter hash_one capacity cap c
      → Run iter hash_one capacity cap (evict_expired now c)

module _ (iter : Shard → Shard) (hash_one : List HashCall → ℕ) (us : List Upstream) where
  insert-IsSound :
      (later : ℕ) (query m : Message) (c : Cache)
      → IsSound c
      → resolve us query ≡ ok m
      → IsSound (insert iter hash_one later m c)
  insert-IsSound later query m c sound e =
      insert-All Honest iter hash_one later m c sound
        λ q ttl one. ((resolve-IsAnswer us query m e).response, q, one, refl)

  -- A reply, and a cache that is still sound.
  abbrev Served : Message → Message × Cache → Type 0
  Served query (m, c) = IsReply query m × IsSound c

  ask_upstream-Served :
      (later : ℕ) (has_opt : Bool) (query : Message) (c : Cache)
      → IsSound c
      → Served query (ask_upstream iter hash_one (resolve us) later has_opt query c)
  unfolding ask_upstream
  ask_upstream-Served later has_opt query c sound =
      (elim (resolve us query)
          as (λ r.
            resolve us query ≡ r
            → Served query (ask_upstream iter hash_one (λ q. r) later has_opt query c)) [
              | ok m ↦ λ e. (
                with_opt-IsReply has_opt query m
                    (IsAnswer-IsReply query m (resolve-IsAnswer us query m e)),
                insert-IsSound later query m c sound e,
              )
              | err x ↦ λ e. (build_servfail-IsReply query, sound)
              | stuck ↦ λ e. (build_servfail-IsReply query, sound)
            ])
        refl

  look_up-Honest :
      (now : ℕ) (query : Message) (c : Cache) (m : Message)
      → IsSound c
      → look_up iter hash_one (resolve us) now query c ≡ some m
      → IsReply query (readdressed query m)
  unfolding look_up readdressed
  look_up-Honest now query c m sound e = elim (Option-cases (only_question query.questions)) [
    | inl other ↦ absurd (ground (arith, other, e))
    | inr (q, one) ↦
        let (response, questions) = get-Honest hash_one now q c m sound (ground (arith, one, e)) in
        record {
          same_id = refl;
          response = is_response-readdressed query m response;
          questions =
              questions
              ∙ ap (map from_question) (sym (only_question-singleton query.questions q one));
        }
  ]

  answer-Served :
      (now later : ℕ) (has_opt : Bool) (query : Message) (c : Cache)
      → IsSound c
      → Served query (answer iter hash_one (resolve us) now later has_opt query c)
  unfolding answer
  answer-Served now later has_opt query c sound =
      (elim (look_up iter hash_one (resolve us) now query c)
          as (λ o. look_up iter hash_one (resolve us) now query c ≡ o → Served query (after o)) [
            | some m ↦ λ e.
                (with_opt-IsReply has_opt query _ (look_up-Honest now query c m sound e), sound)
            | none ↦ λ e. ask_upstream-Served later has_opt query c sound
          ])
        refl
    where
      after : Option Message → Message × Cache
      after (some m) = (with_opt has_opt (readdressed query m), c)
      after none = ask_upstream iter hash_one (resolve us) later has_opt query c

  process_query-Served :
      (now later : ℕ) (query : Message) (c : Cache)
      → IsSound c
      → Served query (process_query iter hash_one (resolve us) now later query c)
  unfolding process_query
  process_query-Served now later query c sound =
      elim (Message.opt query) as (λ o. Served query (after o)) [
        | none ↦ answer-Served now later false query c sound
        | some o ↦
            if_both (Served query) (is_bad_version (edns_version o))
              (build_badvers-IsReply query, sound) (answer-Served now later true query c sound)
      ]
    where
      after : Option ResourceRecord → Message × Cache
      after none = answer iter hash_one (resolve us) now later false query c
      after (some o) =
          if is_bad_version (edns_version o)
          then (build_badvers query, c)
          else answer iter hash_one (resolve us) now later true query c

new-IsSound : (capacity cap : ℕ) → IsSound (new capacity cap)
unfolding new
new-IsSound capacity cap = new-Every (λ j. All Honest) (All-IsClosed Honest) capacity cap

Run-IsSound :
    (iter : Shard → Shard) (hash_one : List HashCall → ℕ) (capacity cap : ℕ) {c : Cache}
    → Run iter hash_one capacity cap c
    → IsSound c
Run-IsSound iter hash_one capacity cap start = new-IsSound capacity cap
Run-IsSound iter hash_one capacity cap (serve {c} us now later query run) =
    (process_query-Served iter hash_one us now later query c
      (Run-IsSound iter hash_one capacity cap run)).1
Run-IsSound iter hash_one capacity cap (insert_later {c} us later query m e run) =
    insert-IsSound iter hash_one us later query m c (Run-IsSound iter hash_one capacity cap run) e
Run-IsSound iter hash_one capacity cap (reap {c} now run) =
    evict_expired-Every (λ j. All Honest) (All-IsClosed Honest) now c
      (Run-IsSound iter hash_one capacity cap run)

-- Whatever queries were served before, whatever their upstreams, the network and the reaper did, in
-- whatever order the answers came, and whatever they do now, what a query is answered with, by the
-- cache, an upstream, SERVFAIL or BADVERS, is a response with its id, to its own questions up to
-- the case of ASCII letters.
pub served-IsReply :
    (iter : Shard → Shard) (hash_one : List HashCall → ℕ) (capacity cap : ℕ) {c : Cache}
    (us : List Upstream) (now later : ℕ) (query : Message)
    → Run iter hash_one capacity cap c
    → IsReply query (process_query iter hash_one (resolve us) now later query c).0
served-IsReply iter hash_one capacity cap {c} us now later query run =
    (process_query-Served iter hash_one us now later query c
      (Run-IsSound iter hash_one capacity cap run)).0
