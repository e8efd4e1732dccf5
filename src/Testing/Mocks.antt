-- ===== src/Testing/Mocks.antt =====
-- crates/dnser-testing/src/mocks.rs: responders from bytes to bytes. `none` is a panic of `unwrap`.
use dnser.Base.{
  ℕ, zero, suc, ◌%◌, ◌^◌, Option, none, some, List, [], ◌∷◌, ◌++◌, length, ok, err, stuck, bit_or,
}
use dnser.Base.Bytes.{Bytes}
use dnser.Proto.Header.{ra, tc, reply_to}
use dnser.Proto.Message
use dnser.Proto.Message.{Message, to_bytes}
use dnser.Proto.Question.{Question}
use dnser.Proto.Rdata.{a}
use dnser.Proto.Record.{ResourceRecord}
use dnser.Testing.{class_in, soa_record}

-- `to_bytes().unwrap().to_vec()`
abbrev pub written : Message → Option Bytes
written m = elim (to_bytes m) [ ok bytes ↦ some bytes | err e ↦ none | stuck ↦ none ]

-- `Message::try_from(query_bytes).unwrap()`, and what is made of the query.
abbrev pub responds : (Message → Message) → Bytes → Option Bytes
responds reply query_bytes = elim (Message.parse query_bytes) [
  | ok query ↦ written (reply query)
  | err e ↦ none
  | stuck ↦ none
]

-- The reply of `echo` and of `truncated`, by the flags they add.
abbrev pub bare_reply : ℕ → Message → Message
bare_reply extra query = record Message.default {
  header = reply_to query.header extra;
  questions = query.questions;
}

unfoldable pub echo : Bytes → Option Bytes
echo query_bytes = responds (bare_reply ra) query_bytes

unfoldable pub truncated : Bytes → Option Bytes
truncated query_bytes = responds (bare_reply tc) query_bytes

-- "example.com"
abbrev example_com : Bytes
example_com = b'e' ∷ b'x' ∷ b'a' ∷ b'm' ∷ b'p' ∷ b'l' ∷ b'e' ∷ b'.' ∷ b'c' ∷ b'o' ∷ b'm' ∷ []

-- `questions.first().map(…)`, and what is taken where there is none.
abbrev pub first_name : Bytes → List Question → Bytes
first_name otherwise [] = otherwise
first_name otherwise (q ∷ _) = q.name

-- A reply with a synthetic SOA.
abbrev pub negative_reply : ℕ → Message → Message
negative_reply extra query = record Message.default {
  header = record (reply_to query.header extra) { ns_count = 1 };
  questions = query.questions;
  authority = soa_record (first_name example_com query.questions) 60 60 ∷ [];
}

unfoldable pub nxdomain : Bytes → Option Bytes
nxdomain query_bytes = responds (negative_reply (bit_or ra 3)) query_bytes

unfoldable pub nodata : Bytes → Option Bytes
nodata query_bytes = responds (negative_reply ra) query_bytes

-- `(0..n).map(…)`: the addresses 10.0.0.i.
unfoldable pub a_records : Bytes → ℕ → List ResourceRecord
a_records name zero = []
a_records name (suc i) =
    a_records name i
    ++ (record { name = name; class = class_in; ttl = 300; rdata = a (10 ∷ 0 ∷ 0 ∷ i ∷ []) } ∷ [])

abbrev pub many_reply : ℕ → Message → Message
many_reply n query =
    let answers = a_records (first_name [] query.questions) n in
    record Message.default {
      header = record (reply_to query.header ra) { an_count = length answers % 2 ^ 16 };
      questions = query.questions;
      answers = answers;
    }

unfoldable pub many_a_records : ℕ → Bytes → Option Bytes
many_a_records n query_bytes = responds (many_reply n) query_bytes
