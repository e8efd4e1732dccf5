-- ===== src/Tests/Mocks.antt =====
-- The resolver over the mock upstreams of crates/dnser-testing, at a concrete query.
use dnser.Base.{ℕ, ◌/◌, ◌%◌, ◌<◌, ◌^◌, ◌≡◌, refl, some, [], ◌∷◌, length, ok, arith}
use dnser.Base.Bytes.{Bytes}
use dnser.Net.{write_framed}
use dnser.Proto.Codes.{is_known}
use dnser.Proto.Header.{ra, tc}
use dnser.Proto.Message.{Message, to_bytes}
use dnser.Proto.Message.RoundTrip.{IsValid}
use dnser.Resolver.{allocate_and_insert, find_id, try_random, is_taken}
use dnser.Resolver.Patch.{asking}
use dnser.Resolver.Query.{stream, patch, query_upstream}
use dnser.Testing.Echo.{reply_for, mock_upstream, echo_answers}
use dnser.Testing.Fallback.{dual_answers}
use dnser.Testing.Mocks.{bare_reply, echo, truncated}
use dnser.Testing.Peers.{udp_responder, tcp_responder}
use dnser.Tests.Proto.{a-IsLabel}
use dnser.Tests.Resolver.{asked, asked_bytes, serialises, prompt}

asked-IsValid : IsValid asked
unfolding is_known
asked-IsValid = record {
  header_valid = record {
    id_fits = omega arith;
    flags_fit = omega arith;
    not_reserved = refl;
    qd_fits = omega arith;
    an_fits = omega arith;
    ns_fits = omega arith;
    ar_fits = omega arith;
  };
  qd_agrees = refl;
  an_agrees = refl;
  ns_agrees = refl;
  ar_agrees = refl;
  questions_valid = (
    record {
      name_valid = record {
        labels = (b'a' ∷ []) ∷ [];
        text = refl;
        valid = record { labels_valid = (a-IsLabel, tt); fits = omega arith };
      };
      class_known = refl;
    },
    tt,
  );
  answers_valid = tt;
  authority_valid = tt;
  additional_valid = tt;
}

gives_seven :
    allocate_and_insert prompt.randoms prompt.start prompt.tx prompt.in_flight ≡ ok (7, (7, 1) ∷ [])
unfolding allocate_and_insert find_id try_random is_taken
gives_seven = refl

-- What UDP brings back: 19 bytes.
abbrev udp_reply : ℕ → Bytes
udp_reply flags =
    0
    ∷ 7
    ∷ flags / 256 % 256
    ∷ flags % 256
    ∷ 0
    ∷ 1
    ∷ 0
    ∷ 0
    ∷ 0
    ∷ 0
    ∷ 0
    ∷ 0
    ∷ 1
    ∷ b'a'
    ∷ 0
    ∷ 0
    ∷ 1
    ∷ 0
    ∷ 1
    ∷ []

echoed : to_bytes (bare_reply ra (asking 7 asked)) ≡ ok (udp_reply 0x8180)
unfolding to_bytes dnser.Proto.Message.build_writer dnser.Proto.Message.write_section
    dnser.Proto.Header.write dnser.Proto.Header.reply_to dnser.Proto.Question.write
    dnser.Proto.Writer.new dnser.Proto.Writer.write_name dnser.Proto.Codes.record_type_code
echoed = refl

cut : to_bytes (bare_reply tc (asking 7 asked)) ≡ ok (udp_reply 0x8300)
unfolding to_bytes dnser.Proto.Message.build_writer dnser.Proto.Message.write_section
    dnser.Proto.Header.write dnser.Proto.Header.reply_to dnser.Proto.Question.write
    dnser.Proto.Writer.new dnser.Proto.Writer.write_name dnser.Proto.Codes.record_type_code
cut = refl

length-same :
    (m : Message) (bytes reply : Bytes)
    → to_bytes m ≡ ok bytes
    → to_bytes m ≡ ok reply
    → length bytes ≡ length reply
length-same m bytes reply e e' = ground (arith, e, e')

echo_answers_example :
    (reply : Bytes) × (udp_responder echo ((patch 7 asked_bytes, 5) ∷ []) ≡ (reply, 5) ∷ [])
    × (query_upstream asked (mock_upstream prompt reply) ≡ ok (reply_for ra 7 asked))
echo_answers_example =
    echo_answers asked asked-IsValid asked_bytes serialises prompt 7 ((7, 1) ∷ []) (omega arith)
      (omega arith) gives_seven 5
      λ reply e. omega (arith, length-same _ (udp_reply 0x8180) reply echoed e)

abbrev asked_frame : Bytes
asked_frame = 0 ∷ 19 ∷ asked_bytes

asked_framed : write_framed asked_bytes ≡ some asked_frame
unfolding write_framed
asked_framed = refl

-- What the TCP side replies.
abbrev reply_bytes : Bytes
reply_bytes =
    0 ∷ 42 ∷ 0x80 ∷ 0x80 ∷ 0 ∷ 1 ∷ 0 ∷ 0 ∷ 0 ∷ 0 ∷ 0 ∷ 0 ∷ 1 ∷ b'a' ∷ 0 ∷ 0 ∷ 1 ∷ 0 ∷ 1 ∷ []

replies : to_bytes (bare_reply ra asked) ≡ ok reply_bytes
unfolding to_bytes dnser.Proto.Message.build_writer dnser.Proto.Message.write_section
    dnser.Proto.Header.write dnser.Proto.Header.reply_to dnser.Proto.Question.write
    dnser.Proto.Writer.new dnser.Proto.Writer.write_name dnser.Proto.Codes.record_type_code
replies = refl

reply_fits : (reply : Bytes) → to_bytes (bare_reply ra asked) ≡ ok reply → length reply < 2 ^ 16
reply_fits reply e = omega (arith, length-same _ reply_bytes reply replies e)

dual_answers_example :
    (reply : Bytes) × (udp_responder truncated ((patch 7 asked_bytes, 5) ∷ []) ≡ (reply, 5) ∷ [])
    × (query_upstream asked (record (mock_upstream prompt reply) {
      connection = stream (tcp_responder echo 1 asked_frame);
    })
        ≡ ok (bare_reply ra asked))
dual_answers_example =
    dual_answers asked asked-IsValid asked_bytes asked_frame serialises (omega arith) asked_framed
      reply_fits prompt 7 ((7, 1) ∷ []) 5 0 (omega arith)
      (λ reply e. omega (arith, length-same _ (udp_reply 0x8300) reply cut e)) gives_seven
