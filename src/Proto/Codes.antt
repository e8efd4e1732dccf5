-- ===== src/Proto/Codes.antt =====
-- The coded fields: opcode.rs, rcode.rs, class.rs and record_type.rs of crates/dnser-proto/src.
-- `t as u16` and `u16::from` are the `_code` functions, `try_from` the `_try_from` ones.
use dnser.Base.{
  ℕ, ◌≡◌, ◌≢◌, refl, Bool, ◌||◌, ◌==◌, if◌then◌else◌, Result, ok, err, stuck, arith, ◌<◌, ◌^◌,
}

pub data Opcode : Type 0 where
  query iquery status notify update : Opcode

unfoldable pub opcode_try_from : ℕ → Result ℕ Opcode
opcode_try_from value =
    if value == 0
    then ok query
    else if value == 1
    then ok iquery
    else if value == 2
    then ok status
    else if value == 4
    then ok notify
    else if value == 5
    then ok update
    else err value

unfoldable pub opcode_code : Opcode → ℕ
opcode_code query = 0
opcode_code iquery = 1
opcode_code status = 2
opcode_code notify = 4
opcode_code update = 5

pub data Rcode : Type 0 where
  no_error form_err serv_fail nx_domain not_imp refused : Rcode

unfoldable pub rcode_try_from : ℕ → Result ℕ Rcode
rcode_try_from value =
    if value == 0
    then ok no_error
    else if value == 1
    then ok form_err
    else if value == 2
    then ok serv_fail
    else if value == 3
    then ok nx_domain
    else if value == 4
    then ok not_imp
    else if value == 5
    then ok refused
    else err value

unfoldable pub rcode_code : Rcode → ℕ
rcode_code no_error = 0
rcode_code form_err = 1
rcode_code serv_fail = 2
rcode_code nx_domain = 3
rcode_code not_imp = 4
rcode_code refused = 5

pub record Class : Type 0 where
  pub code : ℕ

unfoldable pub is_known : Class → Bool
is_known c = c.code == 1 || c.code == 2 || c.code == 3 || c.code == 4 || c.code == 255

pub data RecordType : Type 0 where
  a ns cname soa ptr mx txt aaaa srv opt ixfr axfr any : RecordType

unfoldable pub record_type_try_from : ℕ → Result ℕ RecordType
record_type_try_from value =
    if value == 1
    then ok a
    else if value == 2
    then ok ns
    else if value == 5
    then ok cname
    else if value == 6
    then ok soa
    else if value == 12
    then ok ptr
    else if value == 15
    then ok mx
    else if value == 16
    then ok txt
    else if value == 28
    then ok aaaa
    else if value == 33
    then ok srv
    else if value == 41
    then ok opt
    else if value == 251
    then ok ixfr
    else if value == 252
    then ok axfr
    else if value == 255
    then ok any
    else err value

unfoldable pub record_type_code : RecordType → ℕ
record_type_code a = 1
record_type_code ns = 2
record_type_code cname = 5
record_type_code soa = 6
record_type_code ptr = 12
record_type_code mx = 15
record_type_code txt = 16
record_type_code aaaa = 28
record_type_code srv = 33
record_type_code opt = 41
record_type_code ixfr = 251
record_type_code axfr = 252
record_type_code any = 255

-- `try_from` reads back every code, and refuses exactly the numbers that are no code.
pub opcode_try_from-code : (o : Opcode) → opcode_try_from (opcode_code o) ≡ ok o
unfolding opcode_try_from opcode_code
opcode_try_from-code query = refl
opcode_try_from-code _ = refl

pub rcode_try_from-code : (r : Rcode) → rcode_try_from (rcode_code r) ≡ ok r
unfolding rcode_try_from rcode_code
rcode_try_from-code no_error = refl
rcode_try_from-code _ = refl

pub record_type_try_from-code : (t : RecordType) → record_type_try_from (record_type_code t) ≡ ok t
unfolding record_type_try_from record_type_code
record_type_try_from-code a = refl
record_type_try_from-code _ = refl

pub rcode-code_try_from : (n : ℕ) {r : Rcode} → rcode_try_from n ≡ ok r → rcode_code r ≡ n
unfolding rcode_try_from rcode_code
rcode-code_try_from n h = ground arith

pub record_type-code_try_from :
    (n : ℕ) {t : RecordType} → record_type_try_from n ≡ ok t → record_type_code t ≡ n
unfolding record_type_try_from record_type_code
record_type-code_try_from n h = ground arith

pub record_type_code-lt : (t : RecordType) → record_type_code t < 2 ^ 16
unfolding record_type_code
record_type_code-lt a = omega arith
record_type_code-lt _ = omega arith

-- A conversion is no loop.
pub record_type_try_from-ne-stuck : (n : ℕ) → record_type_try_from n ≢ stuck
unfolding record_type_try_from
record_type_try_from-ne-stuck n = ground arith
