-- ===== src/Testing.antt =====
-- crates/dnser-testing/src/lib.rs: the builders of queries and records that the tests of the
-- workspace share.
pub mod Fixtures
pub mod Mocks
pub mod Peers
pub mod Datagrams
pub mod Echo
pub mod Fallback
pub mod Cacheable
use dnser.Base.{ℕ, List, [], ◌∷◌, ◌++◌}
use dnser.Base.Bytes.{Bytes}
use dnser.Proto.Codes.{RecordType, Class}
use dnser.Proto.Header
use dnser.Proto.Header.{rd}
use dnser.Proto.Message
use dnser.Proto.Message.{Message}
use dnser.Proto.Question.{Question}
use dnser.Proto.Rdata.{soa}
use dnser.Proto.Record.{ResourceRecord, edns_opt}

-- `Class::IN`
abbrev pub class_in : Class
class_in = record { code = 1 }

unfoldable pub make_query : Bytes → RecordType → Message
make_query name qtype = record Message.default {
  header = record Header.default { id = 1234; flags = rd; qd_count = 1 };
  questions = record { name = name; qtype = qtype; qclass = class_in } ∷ [];
}

unfoldable pub make_edns_query : Bytes → RecordType → ℕ → Message
unfolding make_query
make_edns_query name qtype udp_size =
    let q = make_query name qtype in
    record q {
      additional = q.additional ++ (edns_opt udp_size ∷ []);
      header = record q.header { ar_count = 1 };
    }

-- `format!("ns1.{zone}")` and `format!("admin.{zone}")`
abbrev pub ns1_of : Bytes → Bytes
ns1_of zone = b'n' ∷ b's' ∷ b'1' ∷ b'.' ∷ zone

abbrev pub admin_of : Bytes → Bytes
admin_of zone = b'a' ∷ b'd' ∷ b'm' ∷ b'i' ∷ b'n' ∷ b'.' ∷ zone

unfoldable pub soa_record : Bytes → ℕ → ℕ → ResourceRecord
soa_record zone ttl minimum = record {
  name = zone;
  class = class_in;
  ttl = ttl;
  rdata = soa (ns1_of zone) (admin_of zone) 1 3600 600 86400 minimum;
}
