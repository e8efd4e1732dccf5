-- ===== src/Testing/Echo.antt =====
-- A resolver over the mock upstreams: each crate's part of the way of a query, put together.
use dnser.Base.{
  ℕ, zero, suc, ◌*◌, ◌/◌, ◌≤◌, ◌≡◌, refl, ap, sym, subst, ◌∙◌, true, false, some, List, [], ◌∷◌,
  ◌++◌, Option, length, ok, arith, bit_and, bit_or, append-nil, ◌⊎◌, inl, inr,
}
use dnser.Base.Bits.{bit, bit-or, bit-le-one, and_single, or_256, or_one-lt}
use dnser.Base.Bytes.{Bytes, IsU16, str_eq_refl}
use dnser.Proto.Header.{Header, qr, rd, ra, tc, z, reply_to, is_truncated}
use dnser.Proto.Header.Replies.{reply_to_lem, with_flags}
use dnser.Proto.Message
use dnser.Proto.Message.{Message, to_bytes, max_udp_size}
use dnser.Proto.Message.RoundTrip.{IsValid, message_round_trip}
use dnser.Proto.Question.{Question}
use dnser.Resolver.{same_question, same_questions, parse_validated_response, allocate_and_insert}
use dnser.Resolver.Patch.{asking, patch_lem}
use dnser.Resolver.Query.{Upstream, answered, patch, query_upstream, finish}
use dnser.Server.Tcp.Pipeline.{parse-nonempty}
use dnser.Testing.Datagrams.{take-whole, length-patch, udp_responder_replies}
use dnser.Testing.Peers.{buffer, udp_responder}
use dnser.Testing.Mocks.{written, responds, bare_reply, echo}

same_question_refl : (q : Question) → same_question q q ≡ true
unfolding same_question
same_question_refl q = ground (arith, str_eq_refl q.name)

same_questions_refl : (qs : List Question) → same_questions qs qs ≡ true
unfolding same_questions
same_questions_refl [] = refl
same_questions_refl (q ∷ qs) = ground (arith, same_question_refl q, same_questions_refl qs)

-- Flags that a reply can be given: they fit beside QR and RD, and the reserved bit is clear.
pub record IsExtra (extra : ℕ) : Type 0 where
  pub fits : IsU16 (bit_or (bit_or qr extra) 0)
  pub fits_rd : IsU16 (bit_or (bit_or qr extra) rd)
  pub clear : bit_and (bit_or (bit_or qr extra) 0) z ≡ 0
  pub clear_rd : bit_and (bit_or (bit_or qr extra) rd) z ≡ 0

pub ra-IsExtra : IsExtra ra
ra-IsExtra = record { fits = omega arith; fits_rd = omega arith; clear = refl; clear_rd = refl }

pub tc-IsExtra : IsExtra tc
tc-IsExtra = record { fits = omega arith; fits_rd = omega arith; clear = refl; clear_rd = refl }

rd_cases : (flags : ℕ) → (bit_and flags rd ≡ 0) ⊎ (bit_and flags rd ≡ rd)
rd_cases flags = split (bit flags 8) (bit-le-one flags 8) (and_single flags 8)
  where
    split :
        (b : ℕ)
        → b ≤ 1
        → bit_and flags rd ≡ b * 256
        → (bit_and flags rd ≡ 0) ⊎ (bit_and flags rd ≡ rd)
    split zero h e = inl (omega (arith, e))
    split (suc zero) h e = inr (omega (arith, e))
    split (suc (suc b)) h e = absurd (omega arith)

reply_flags :
    (query : Header) (extra : ℕ)
    → IsExtra extra
    → IsU16 (reply_to query extra).flags × (bit_and (reply_to query extra).flags z ≡ 0)
unfolding reply_to
reply_flags query extra h =
    let mine : ℕ → Type 0 =
      λ n. IsU16 (bit_or (bit_or qr extra) n) × (bit_and (bit_or (bit_or qr extra) n) z ≡ 0) in
    elim (rd_cases query.flags) [
      | inl e ↦ subst mine (sym e) (h.fits, h.clear)
      | inr e ↦ subst mine (sym e) (h.fits_rd, h.clear_rd)
    ]

bare_reply-IsValid :
    (extra : ℕ) (query : Message) → IsExtra extra → IsValid query → IsValid (bare_reply extra query)
bare_reply-IsValid extra query h v = record {
  header_valid = record {
    id_fits = unfold reply_to in v.header_valid.id_fits;
    flags_fit = (reply_flags query.header extra h).0;
    not_reserved = (reply_flags query.header extra h).1;
    qd_fits = unfold reply_to in v.header_valid.qd_fits;
    an_fits = unfold reply_to in omega arith;
    ns_fits = unfold reply_to in omega arith;
    ar_fits = unfold reply_to in omega arith;
  };
  qd_agrees = unfold reply_to in v.qd_agrees;
  an_agrees = unfold reply_to in refl;
  ns_agrees = unfold reply_to in refl;
  ar_agrees = unfold reply_to in refl;
  questions_valid = v.questions_valid;
  answers_valid = tt;
  authority_valid = tt;
  additional_valid = tt;
}

pub asking-IsValid :
    (id : ℕ) (query : Message) → IsU16 id → IsValid query → IsValid (asking id query)
asking-IsValid id query small v =
    let flags : ℕ = query.header.flags in
    record {
      header_valid = record {
        id_fits = small;
        flags_fit = omega (
          arith,
          or_256 flags,
          or_one-lt (flags / 256) (omega (arith, v.header_valid.flags_fit)),
        );
        not_reserved =
            and_single (bit_or flags rd) 6
            ∙ omega
                (arith, bit-or flags rd 6, sym (and_single flags 6) ∙ v.header_valid.not_reserved);
        qd_fits = v.header_valid.qd_fits;
        an_fits = v.header_valid.an_fits;
        ns_fits = v.header_valid.ns_fits;
        ar_fits = v.header_valid.ar_fits;
      };
      qd_agrees = v.qd_agrees;
      an_agrees = v.an_agrees;
      ns_agrees = v.ns_agrees;
      ar_agrees = v.ar_agrees;
      questions_valid = v.questions_valid;
      answers_valid = v.answers_valid;
      authority_valid = v.authority_valid;
      additional_valid = v.additional_valid;
    }

-- What `parse` reads and what a mock replies.
pub record Mocked (extra : ℕ) (query : Message) : Type 0 where
  pub reply : Bytes
  pub sent : written (bare_reply extra query) ≡ some reply
  pub read : Message.parse reply ≡ ok (bare_reply extra query)

pub mocked : (extra : ℕ) (query : Message) → IsExtra extra → IsValid query → Mocked extra query
mocked extra query h v =
    let (reply, p, back) =
      message_round_trip (bare_reply extra query) (bare_reply-IsValid extra query h v) in
    record {
      reply = reply;
      sent = ground (arith, p);
      read = ap Message.parse (sym (append-nil reply)) ∙ back [];
    }

-- The reply under the client's id.
abbrev pub reply_for : ℕ → ℕ → Message → Message
reply_for extra id query =
    let reply = bare_reply extra (asking id query) in
    record reply { header = record reply.header { id = query.header.id } }

-- A response with the questions of the query is accepted.
pub accepted :
    (extra : ℕ) (asked query : Message) (reply : Bytes)
    → Message.parse reply ≡ ok (bare_reply extra asked)
    → asked.questions ≡ query.questions
    → parse_validated_response reply query query.header.id
      ≡ ok (record (bare_reply extra asked) {
        header = record (reply_to asked.header extra) { id = query.header.id };
      })
unfolding parse_validated_response
accepted extra asked query reply e same =
    rw (e, (reply_to_lem asked.header extra).3, same, same_questions_refl query.questions) refl

pub responds-parse :
    (reply : Message → Message) (bytes : Bytes) (query : Message)
    → Message.parse bytes ≡ ok query
    → responds reply bytes ≡ written (reply query)
responds-parse reply bytes query e = ground (arith, e)

-- Whether TC is set is what the mock says.
pub reply_for-is_truncated :
    (extra id : ℕ) (query : Message)
    → is_truncated (reply_for extra id query).header ≡ is_truncated (with_flags extra)
unfolding is_truncated
reply_for-is_truncated extra id query = (reply_to_lem (asking id query).header extra).5

-- What an upstream does with the patched query of a resolver: its responder's reply comes back.
abbrev pub mock_upstream : Upstream → Bytes → Upstream
mock_upstream u reply = record u { send = λ bytes. true; wait = answered reply }

module _ (query : Message) (v : IsValid query) (sent : Bytes)
    (serialised : to_bytes query ≡ ok sent) (u : Upstream) (id : ℕ) (table : List (ℕ × ℕ))
    (small : IsU16 id) (short : length sent ≤ buffer)
    (registered : allocate_and_insert u.randoms u.start u.tx u.in_flight ≡ ok (id, table)) where
  pub patched_parse : Message.parse (patch id sent) ≡ ok (asking id query)
  patched_parse =
      let (bytes, p, back) =
        message_round_trip (asking id query) (asking-IsValid id query small v) in
      let same : bytes ≡ patch id sent =
        ground (arith, p, patch_lem id query sent v.header_valid.flags_fit serialised) in
      ap Message.parse (sym (append-nil (patch id sent)) ∙ ap (λ (b : Bytes). b ++ []) (sym same))
      ∙ back []

  pub query_upstream-answered :
      (reply : Bytes)
      → query_upstream query (mock_upstream u reply) ≡ finish u.connection query (answered reply)
  unfolding query_upstream
  query_upstream-answered reply = rw (serialised, registered) refl

  -- What an upstream that runs a responder sends for the patched query.
  pub mock_replies :
      (extra : ℕ) (respond : Bytes → Option Bytes) (peer : ℕ)
      → (m : Mocked extra (asking id query)) → respond (patch id sent) ≡ some m.reply
      → udp_responder respond ((patch id sent, peer) ∷ []) ≡ (m.reply, peer) ∷ []
  mock_replies extra respond peer m e =
      udp_responder_replies respond peer (patch id sent) m.reply
        (omega (arith, length-patch id sent, short)) e
        (parse-nonempty m.reply (bare_reply extra (asking id query)) m.read)

  -- A resolver asks an upstream that `spawn_udp_responder` runs with `mocks::echo`: whatever is in
  -- flight and whichever id is allocated, if the query and the mock's reply have 4096 bytes at
  -- most, which is what the buffers hold, the reply to the patched query is sent and accepted, and
  -- the valid query is answered with its own questions, under its own id, as a response that is not
  -- truncated.
  pub echo_answers :
      (peer : ℕ)
      → ((reply : Bytes)
          → to_bytes (bare_reply ra (asking id query)) ≡ ok reply
          → length reply ≤ max_udp_size)
      → (reply : Bytes) × (udp_responder echo ((patch id sent, peer) ∷ []) ≡ (reply, peer) ∷ [])
        × (query_upstream query (mock_upstream u reply) ≡ ok (reply_for ra id query))
  unfolding echo finish
  echo_answers peer fits =
      let m : Mocked ra (asking id query) =
        mocked ra (asking id query) ra-IsExtra (asking-IsValid id query small v) in
      let whole : is_truncated (reply_for ra id query).header ≡ false =
        reply_for-is_truncated ra id query ∙ unfold is_truncated in refl in
      (
        m.reply,
        mock_replies ra echo peer m (
            responds-parse (bare_reply ra) (patch id sent) (asking id query) patched_parse
            ∙ m.sent),
        query_upstream-answered m.reply
            ∙ rw
                (
                  finish,
                  take-whole max_udp_size m.reply (fits m.reply (ground (arith, m.sent))),
                  accepted ra (asking id query) query m.reply m.read refl,
                  whole,
                )
                refl,
      )
