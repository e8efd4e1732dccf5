-- ===== src/Server/Sound.antt =====
-- What is kept in a cache, and what is handed out from it.
use dnser.Base.{
  ℕ, ◌-◌, ◌^◌, ◌≡◌, refl, ap, sym, ◌∙◌, Bool, true, false, some, List, [], ◌∷◌, map, All, arith,
  Option-cases, inl, inr, bit_and, bit_or,
}
use dnser.Base.Bits.{bit, bit-and, bit-or}
use dnser.Base.Bytes.{str_eq_iff}
use dnser.Cache.{Cache, CacheEntry, get, only_question, find_lookup, shard_at, shard_index, hit}
use dnser.Cache.Entries.{Every, All-IsClosed, find_lookup-All, shard_at-Every}
use dnser.Cache.Keys.{
  CacheKey, HashCall, from_question, lookup_from_question, hash_lookup, equivalent_iff,
}
use dnser.Proto.Header.{is_response, rd}
use dnser.Proto.Header.Replies.{flag_test, reply_to_lem}
use dnser.Proto.Message.{Message}
use dnser.Proto.Question.{Question}
use dnser.Resolver.{same_question, same_questions}
use dnser.Resolver.Answers.{IsAnswer}
use dnser.Server.Handler.{readdressed, add_edns_opt, with_opt, build_servfail, build_badvers}

-- A reply to a query: a response with its id, to its questions but for the case of ASCII letters.
pub record IsReply (query m : Message) : Type 0 where
  pub same_id : m.header.id ≡ query.header.id
  pub response : is_response m.header ≡ true
  pub questions : map from_question m.questions ≡ map from_question query.questions

-- An entry is a response to the one question that its key is of.
abbrev pub Honest : CacheKey × CacheEntry → Type 0
Honest (k, e) =
    (is_response e.response.header ≡ true)
    × (q : Question) × (only_question e.response.questions ≡ some q)
    × (from_question q ≡ k)

abbrev pub IsSound : Cache → Type 0
IsSound c = Every (λ j. All Honest) 0 c.shards

same_question-from_question :
    (a b : Question) → same_question a b ≡ true → from_question a ≡ from_question b
unfolding same_question from_question
same_question-from_question a b h = ground (arith, h, str_eq_iff a.name b.name)

same_questions-map :
    (as' bs : List Question)
    → same_questions as' bs ≡ true
    → map from_question as' ≡ map from_question bs
unfolding same_questions
same_questions-map [] [] h = refl
same_questions-map [] (b ∷ bs) h = absurd (ground arith)
same_questions-map (a ∷ as') [] h = absurd (ground arith)
same_questions-map (a ∷ as') (b ∷ bs) h =
    rw
      (
        same_question-from_question a b (ground (arith, h)),
        same_questions-map as' bs (ground (arith, h)),
      )
      refl

pub IsAnswer-IsReply : (query m : Message) → IsAnswer query m → IsReply query m
IsAnswer-IsReply query m a = record {
  same_id = a.same_id;
  response = a.response;
  questions = same_questions-map m.questions query.questions a.questions;
}

pub with_opt-IsReply :
    (has_opt : Bool) (query m : Message) → IsReply query m → IsReply query (with_opt has_opt m)
unfolding add_edns_opt is_response
with_opt-IsReply true query m r = record {
  same_id = r.same_id;
  response = r.response;
  questions = r.questions;
}
with_opt-IsReply false query m r = r

-- RD is not QR.
pub is_response-readdressed :
    (query cached : Message)
    → is_response cached.header ≡ true
    → is_response (readdressed query cached).header ≡ true
unfolding is_response readdressed
is_response-readdressed query cached h =
    let keep = bit_and cached.header.flags (2 ^ 16 - 1 - rd) in
    let taken = bit_and query.header.flags rd in
    let digit : bit (bit_or keep taken) 15 ≡ 1 = omega (
      arith,
      bit-or keep taken 15,
      bit-and cached.header.flags (2 ^ 16 - 1 - rd) 15,
      bit-and query.header.flags rd 15,
      set_there,
    ) in
    ground (arith, flag_test (bit_or keep taken) 15, digit)
  where
    set_there : bit cached.header.flags 15 ≡ 1
    set_there = ground (arith, h, flag_test cached.header.flags 15)

pub build_servfail-IsReply : (query : Message) → IsReply query (build_servfail query)
unfolding build_servfail
build_servfail-IsReply query =
    let h = reply_to_lem query.header 2 in
    record { same_id = h.0; response = h.3; questions = refl }

pub build_badvers-IsReply : (query : Message) → IsReply query (build_badvers query)
unfolding build_badvers is_response
build_badvers-IsReply query =
    let h = reply_to_lem query.header 0 in
    record { same_id = h.0; response = h.3; questions = refl }

pub only_question-singleton :
    (qs : List Question) (q : Question) → only_question qs ≡ some q → qs ≡ q ∷ []
only_question-singleton [] q e = absurd (ground arith)
only_question-singleton (a ∷ []) q e = ground (arith, e)
only_question-singleton (a ∷ b ∷ rest) q e = absurd (ground arith)

module _ (hash_one : List HashCall → ℕ) where
  -- What `get` returns is a response to the same question.
  pub get-Honest :
      (now : ℕ) (q : Question) (c : Cache) (m : Message)
      → IsSound c
      → get hash_one now q c ≡ some m
      → (is_response m.header ≡ true) × (map from_question m.questions ≡ from_question q ∷ [])
  unfolding get is_response
  get-Honest now q c m sound e =
      let l = lookup_from_question q in
      let i : ℕ = shard_index hash_one (hash_lookup l) in
      let shard = shard_at c.shards i in
      elim (Option-cases (find_lookup l shard)) [
        | inl missing ↦ absurd (ground (arith, missing, e))
        | inr (entry, found) ↦
            let (key, same, honest) =
              find_lookup-All Honest l shard entry
                (shard_at-Every (λ j. All Honest) (All-IsClosed Honest) 0 i i c.shards (omega arith)
                  sound)
                found in
            let (response, q', one, of_key) = honest in
            let returned = hit-kept now entry m (ground (arith, found, e)) in
            (
              ground (arith, response, returned.0),
              ap (map from_question)
                    (returned.1 ∙ only_question-singleton entry.response.questions q' one)
                  ∙ ap (λ (k : CacheKey). k ∷ []) (of_key ∙ sym ((equivalent_iff q key).0 same)),
            )
      ]
    where
      hit-kept :
          (now : ℕ) (entry : CacheEntry) (m : Message)
          → hit now entry ≡ some m
          → (m.header ≡ entry.response.header) × (m.questions ≡ entry.response.questions)
      hit-kept now entry m e = (ground arith, ground arith)
