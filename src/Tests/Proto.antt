-- ===== src/Tests/Proto.antt =====
-- The theorems on crates/dnser-proto at concrete inputs.
use dnser.Base.{ℕ, ◌≡◌, ◌≢◌, refl, List, [], ◌∷◌, ◌++◌, ok, stuck, arith, some, subst, some}
use dnser.Base.Bytes.{Bytes, str_eq, str_eq_iff}
use dnser.Proto.Codec.{RoundTrip}
use dnser.Proto.Codec.Names.{name-RoundTrip}
use dnser.Proto.Codes
use dnser.Proto.Codes.{Class, is_known}
use dnser.Proto.Header.{Header}
use dnser.Proto.Message
use dnser.Proto.Message.{Message, to_bytes}
use dnser.Proto.Message.RoundTrip
use dnser.Proto.Message.RoundTrip.{message_round_trip}
use dnser.Proto.Message.Termination.{message-ne-stuck}
use dnser.Proto.Name.{IsLabel, IsName, join_dots, NameAt, root, label_at}
use dnser.Proto.Rdata
use dnser.Proto.Rdata.{RData, cname}
use dnser.Proto.Reader.{read_name}
use dnser.Proto.Record
use dnser.Proto.Record.{ResourceRecord}
use dnser.Proto.Record.Valid.{a_valid}
use dnser.Proto.Record.Backfill.{backfill_is_direct, write_data}
use dnser.Proto.Record.RoundTrip.{record-RoundTrip, max_record}
use dnser.Proto.Utf8.{from_utf8}
use dnser.Proto.Writer
use dnser.Proto.Writer.{Writer, write_name, write_u16, find_name}
use dnser.Proto.Writer.Offsets.{IsRight, wire_size}

abbrev bc : Bytes
bc = b'b' ∷ b'c' ∷ []

abbrev pub a_bc : List Bytes
a_bc = (b'a' ∷ []) ∷ bc ∷ []

pub a-IsLabel : IsLabel (b'a' ∷ [])
unfolding from_utf8
a-IsLabel = record {
  nonempty = omega arith;
  short = omega arith;
  no_dot = omega arith;
  utf8 = refl;
}

bc-IsLabel : IsLabel bc
unfolding from_utf8
bc-IsLabel = record {
  nonempty = omega arith;
  short = omega arith;
  no_dot = omega arith;
  utf8 = refl;
}

a_bc-IsName : IsName a_bc
a_bc-IsName = record { labels_valid = (a-IsLabel, (bc-IsLabel, tt)); fits = omega arith }

-- A writer that has written "bc".
abbrev after_bc : Writer
after_bc = record { buf = 2 ∷ b'b' ∷ b'c' ∷ 0 ∷ []; name_offsets = (bc, 0) ∷ [] }

zero_is :
    (key : Bytes) (offset : ℕ) → find_name key after_bc.name_offsets ≡ some offset → 0 ≡ offset
unfolding find_name
zero_is offset found = ground arith

after_bc-IsRight : IsRight after_bc
unfolding find_name
after_bc-IsRight = record {
  entry = λ key offset found. record {
    labels = bc ∷ [];
    after = 4;
    jumps = 0;
    text = ground (arith, str_eq_iff bc key);
    valid = (bc-IsLabel, tt);
    few = omega arith;
    small = ground arith;
    there =
        subst (λ (o : ℕ). NameAt after_bc.buf o 4 0 (bc ∷ [])) (zero_is key offset found)
          (label_at (record { rest = 0 ∷ []; ahead = refl }) refl
            (root (record { rest = []; ahead = refl }) refl refl));
  };
}

name-RoundTrip_example :
    RoundTrip Bytes
      (write_name (join_dots a_bc))
      read_name
      (join_dots a_bc)
      (wire_size a_bc)
      after_bc
name-RoundTrip_example = name-RoundTrip a_bc a_bc-IsName after_bc after_bc-IsRight

abbrev address : ResourceRecord
address = record {
  name = join_dots a_bc;
  class = record { code = 1 };
  ttl = 300;
  rdata = Rdata.a (192 ∷ 0 ∷ 2 ∷ 1 ∷ []);
}

address-IsValid : Record.RoundTrip.IsValid address
address-IsValid = record {
  name_valid = record { labels = a_bc; text = refl; valid = a_bc-IsName };
  class_fits = omega arith;
  ttl_fits = omega arith;
  data_valid = a_valid refl;
}

record-RoundTrip_example :
    RoundTrip ResourceRecord (Record.write address) Record.parse address max_record after_bc
record-RoundTrip_example = record-RoundTrip address address-IsValid after_bc after_bc-IsRight

-- A response with the same name in its question and its answer.
abbrev pub response : Message
response = record {
  header = record {
    id = 0xABCD;
    flags = 0x8180;
    qd_count = 1;
    an_count = 1;
    ns_count = 0;
    ar_count = 0;
  };
  questions = record { name = join_dots a_bc; qtype = Codes.a; qclass = record { code = 1 } } ∷ [];
  answers = address ∷ [];
  authority = [];
  additional = [];
}

response-IsValid : Message.RoundTrip.IsValid response
unfolding is_known
response-IsValid = record {
  header_valid = record {
    id_fits = omega arith;
    flags_fit = omega arith;
    not_reserved = refl;
    qd_fits = omega arith;
    an_fits = omega arith;
    ns_fits = omega arith;
    ar_fits = omega arith;
  };
  qd_agrees = refl;
  an_agrees = refl;
  ns_agrees = refl;
  ar_agrees = refl;
  questions_valid = (
    record {
      name_valid = record { labels = a_bc; text = refl; valid = a_bc-IsName };
      class_known = refl;
    },
    tt,
  );
  answers_valid = (address-IsValid, tt);
  authority_valid = tt;
  additional_valid = tt;
}

message_round_trip_example :
    (bytes : Bytes) × (to_bytes response ≡ ok bytes)
    × ((later : Bytes) → Message.parse (bytes ++ later) ≡ ok response)
message_round_trip_example = message_round_trip response response-IsValid

message-ne-stuck_example : Message.parse (0 ∷ 1 ∷ 0xC0 ∷ 2 ∷ []) ≢ stuck
message-ne-stuck_example = message-ne-stuck (0 ∷ 1 ∷ 0xC0 ∷ 2 ∷ [])

abbrev alias : RData
alias = cname (join_dots a_bc)

-- "a" and a pointer to "bc", behind two zeros.
abbrev alias_behind_zeros : Writer
alias_behind_zeros = record {
  buf = 2 ∷ b'b' ∷ b'c' ∷ 0 ∷ 0 ∷ 0 ∷ 1 ∷ b'a' ∷ 0xC0 ∷ 0 ∷ [];
  name_offsets = (join_dots a_bc, 6) ∷ (bc, 0) ∷ [];
}

write-alias : Rdata.write alias (write_u16 0 after_bc) ≡ ok alias_behind_zeros
unfolding Rdata.write write_name Writer.write_labels Writer.trim_end_dots Writer.split_dots
    find_name Writer.remember str_eq
write-alias = refl

backfill_is_direct_example : write_data alias after_bc ≡ Rdata.write alias (write_u16 4 after_bc)
backfill_is_direct_example =
    backfill_is_direct alias after_bc alias_behind_zeros 4 write-alias refl (omega arith)

-- A query that asks for recursion.
abbrev query : Header
query = record { id = 7; flags = 0x0100; qd_count = 1; an_count = 0; ns_count = 0; ar_count = 1 }
