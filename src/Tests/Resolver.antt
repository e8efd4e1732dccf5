-- ===== src/Tests/Resolver.antt =====
-- The theorems on crates/dnser-resolver at concrete inputs.
use dnser.Base.{
  ℕ, zero, suc, ◌+◌, ◌%◌, ◌^◌, ◌≤◌, ◌<◌, ◌≡◌, refl, Bool, true, false, none, some, List, [], ◌∷◌,
  length, ok, err, arith, if◌then◌else◌, ◌==◌, Bool-cases, inl, inr,
}
use dnser.Base.Bytes.{Bytes, str_eq}
use dnser.Proto.Codes
use dnser.Proto.Header.{is_response}
use dnser.Proto.Message
use dnser.Proto.Message.{Message}
use dnser.Resolver.{
  is_taken, scan, allocate_and_insert, find_id, try_random, receive, id_space_exhausted,
  parse_validated_response, same_questions, same_question,
}
use dnser.Resolver.InFlight.{allocate_exhausted}
use dnser.Resolver.Query.{
  Upstream, Wait, answered, timed_out, too_slow, patch, query_upstream, resolve, finish,
}
use dnser.Resolver.Patch.{asking, patch_lem}
use dnser.Resolver.Answers.{IsAnswer, resolve-IsAnswer, resolve_succeeds}
use dnser.Proto.Header.{is_truncated}
use dnser.Proto.Message.{to_bytes}
use dnser.Tests.Server.{sent}

-- Id 7 is in flight, the random ids are 7 and 9.
abbrev pub datagram_for_nine : Bytes
datagram_for_nine = 0 ∷ 9 ∷ 0x81 ∷ 0 ∷ 0 ∷ 0 ∷ 0 ∷ 0 ∷ 0 ∷ 0 ∷ 0 ∷ 0 ∷ []

-- The ids below `n`, all in flight.
unfoldable table : ℕ → List (ℕ × ℕ)
table zero = []
table (suc n) = (n, 0) ∷ table n

is_taken-table : (n id : ℕ) → id < n → is_taken id (table n) ≡ true
unfolding table is_taken
is_taken-table zero id h = absurd (omega arith)
is_taken-table (suc n) id h = ground (arith, is_taken-table n id)

scan-table : (n start offset : ℕ) → scan n start offset (table (2 ^ 16)) ≡ none
unfolding scan
scan-table zero start offset = refl
scan-table (suc n) start offset =
    rw (is_taken-table (2 ^ 16) ((start + offset) % 2 ^ 16) (omega arith))
      (scan-table n start (offset + 1))

table_is_full : allocate_and_insert [] 5 0 (table (2 ^ 16)) ≡ err id_space_exhausted
unfolding allocate_and_insert find_id try_random
table_is_full = ground (arith, scan-table (2 ^ 16) 5 0)

allocate_exhausted_example : is_taken 300 (table (2 ^ 16)) ≡ true
allocate_exhausted_example =
    allocate_exhausted [] 5 300 0 (table (2 ^ 16)) (omega arith) table_is_full (omega arith)

-- SERVFAIL for "a" under id 7, for a query that had id 42.
abbrev upstream_answer : Message
upstream_answer = record Message.default {
  header = record {
    id = 7;
    flags = 0x8102;
    qd_count = 1;
    an_count = 0;
    ns_count = 0;
    ar_count = 0;
  };
  questions = record { name = b'a' ∷ []; qtype = Codes.a; qclass = record { code = 1 } } ∷ [];
}

abbrev accepted : Message
accepted = record upstream_answer { header = record upstream_answer.header { id = 42 } }

accepts : parse_validated_response sent accepted 42 ≡ ok accepted
unfolding parse_validated_response same_questions same_question str_eq is_response Message.parse
    Message.parse_body Message.parse_section dnser.Proto.Header.parse dnser.Proto.Reader.read_u16
    dnser.Base.Bytes.slice dnser.Proto.Reader.new dnser.Proto.Question.parse
    dnser.Proto.Reader.read_name dnser.Proto.Reader.name_loop dnser.Proto.Reader.name_round
    dnser.Proto.Reader.start_state dnser.Proto.Utf8.from_utf8 Codes.record_type_try_from
    Codes.record_type_code Codes.is_known
accepts = refl

-- "a" under id 42, without RD.
abbrev pub asked : Message
asked = record accepted { header = record accepted.header { flags = 0 } }

abbrev pub asked_bytes : Bytes
asked_bytes = 0 ∷ 42 ∷ 0 ∷ 0 ∷ 0 ∷ 1 ∷ 0 ∷ 0 ∷ 0 ∷ 0 ∷ 0 ∷ 0 ∷ 1 ∷ b'a' ∷ 0 ∷ 0 ∷ 1 ∷ 0 ∷ 1 ∷ []

abbrev patched_bytes : Bytes
patched_bytes = 0 ∷ 7 ∷ 1 ∷ 0 ∷ 0 ∷ 1 ∷ 0 ∷ 0 ∷ 0 ∷ 0 ∷ 0 ∷ 0 ∷ 1 ∷ b'a' ∷ 0 ∷ 0 ∷ 1 ∷ 0 ∷ 1 ∷ []

pub serialises : to_bytes asked ≡ ok asked_bytes
unfolding to_bytes Message.build_writer Message.write_section dnser.Proto.Header.write
    dnser.Proto.Question.write dnser.Proto.Writer.new dnser.Proto.Writer.write_name
    Codes.record_type_code
serialises = refl

patches : patch 7 asked_bytes ≡ patched_bytes
unfolding patch
patches = refl

patch_lem_example : to_bytes (asking 7 asked) ≡ ok (patch 7 asked_bytes)
patch_lem_example = patch_lem 7 asked asked_bytes (omega arith) serialises

-- An upstream that does not answer, and one that answers with SERVFAIL.
abbrev pub late : Upstream
late = record {
  in_flight = [];
  randoms = 7 ∷ [];
  start = 0;
  tx = 1;
  send = λ bytes. true;
  wait = timed_out;
  connection = too_slow;
}

abbrev pub prompt : Upstream
prompt = record late { wait = answered sent }

accepts_asked : parse_validated_response sent asked 42 ≡ ok accepted
unfolding parse_validated_response same_questions same_question str_eq is_response Message.parse
    Message.parse_body Message.parse_section dnser.Proto.Header.parse dnser.Proto.Reader.read_u16
    dnser.Base.Bytes.slice dnser.Proto.Reader.new dnser.Proto.Question.parse
    dnser.Proto.Reader.read_name dnser.Proto.Reader.name_loop dnser.Proto.Reader.name_round
    dnser.Proto.Reader.start_state dnser.Proto.Utf8.from_utf8 Codes.record_type_try_from
    Codes.record_type_code Codes.is_known
accepts_asked = refl

prompt_answers : query_upstream asked prompt ≡ ok accepted
unfolding query_upstream finish allocate_and_insert find_id try_random is_taken is_truncated
prompt_answers = rw (serialises, accepts_asked) refl

late_times_out : query_upstream asked late ≡ err dnser.Resolver.timeout
unfolding query_upstream finish allocate_and_insert find_id try_random is_taken
late_times_out = rw serialises refl

resolves : resolve (late ∷ prompt ∷ []) asked ≡ ok accepted
unfolding resolve dnser.Resolver.Query.first_ok
resolves = ground (arith, late_times_out, prompt_answers)

resolve-IsAnswer_example : IsAnswer asked accepted
resolve-IsAnswer_example = resolve-IsAnswer (late ∷ prompt ∷ []) asked accepted resolves

resolve_succeeds_example :
    (m : Message) × (resolve (late ∷ prompt ∷ []) asked ≡ ok m) × IsAnswer asked m
resolve_succeeds_example =
    resolve_succeeds (late ∷ prompt ∷ []) asked (inr (inl (accepted, prompt_answers)))
