-- ===== src/Testing/Fixtures.antt =====
-- crates/dnser-testing/src/fixtures.rs: messages as the cache is given them.
use dnser.Base.{ℕ, ◌%◌, ◌^◌, List, [], ◌∷◌, length, bit_or}
use dnser.Base.Bytes.{Bytes}
use dnser.Proto.Codes.{RecordType}
use dnser.Proto.Header
use dnser.Proto.Header.{qr, rd, ra, tc}
use dnser.Proto.Message
use dnser.Proto.Message.{Message}
use dnser.Proto.Question.{Question}
use dnser.Proto.Rdata.{a}
use dnser.Proto.Record.{ResourceRecord}
use dnser.Testing.{class_in}

unfoldable pub question : Bytes → RecordType → Question
question name qtype = record { name = name; qtype = qtype; qclass = class_in }

unfoldable pub a_record : Bytes → Bytes → ℕ → ResourceRecord
a_record name ip ttl = record { name = name; class = class_in; ttl = ttl; rdata = a ip }

-- `answers.len() as u16`
abbrev pub as_u16 : ℕ → ℕ
as_u16 n = n % 2 ^ 16

unfoldable pub noerror : Question → List ResourceRecord → Message
noerror q answers = record Message.default {
  header = record Header.default {
    id = 1;
    flags = bit_or (bit_or qr rd) ra;
    qd_count = 1;
    an_count = as_u16 (length answers);
  };
  questions = q ∷ [];
  answers = answers;
}

unfoldable pub servfail : Question → Message
servfail q = record Message.default {
  header = record Header.default { id = 1; flags = bit_or qr 2; qd_count = 1 };
  questions = q ∷ [];
}

unfoldable pub truncated : Question → List ResourceRecord → Message
truncated q answers = record Message.default {
  header = record Header.default {
    id = 1;
    flags = bit_or (bit_or qr tc) rd;
    qd_count = 1;
    an_count = as_u16 (length answers);
  };
  questions = q ∷ [];
  answers = answers;
}

unfoldable pub nxdomain : Question → ResourceRecord → Message
nxdomain q soa = record Message.default {
  header = record Header.default { id = 1; flags = bit_or qr 3; qd_count = 1; ns_count = 1 };
  questions = q ∷ [];
  authority = soa ∷ [];
}

unfoldable pub nodata : Question → ResourceRecord → Message
nodata q soa = record Message.default {
  header = record Header.default { id = 1; flags = bit_or qr ra; qd_count = 1; ns_count = 1 };
  questions = q ∷ [];
  authority = soa ∷ [];
}
