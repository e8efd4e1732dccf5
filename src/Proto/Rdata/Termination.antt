-- ===== src/Proto/Rdata/Termination.antt =====
-- The loops of TXT and OPT records end, and so does the parser of a record's data.
use dnser.Base.{
  ℕ, zero, suc, ◌+◌, ◌-◌, ◌≤◌, ◌<◌, ◌≡◌, ◌≢◌, refl, List, [], ◌∷◌, ◌++◌, ok, err, stuck,
  >>=-ne-stuck, Bool-cases, inl, inr, arith, ◌==◌, Result, ok-ne-stuck,
}
use dnser.Base.Bytes.{Bytes}
use dnser.Proto.Codes
use dnser.Proto.Codes.{RecordType, record_type_try_from, record_type_try_from-ne-stuck}
use dnser.Proto.Rdata.{
  EdnsOption, txt_loop, opt_loop, checked_sub, parse_typed, parse_matched, parse_inner, parse,
}
use dnser.Proto.Reader.{Reader, read_name, read_u8, read_u16, read_u32, read_bytes}
use dnser.Proto.Reader.Termination.{
  read_name-ne-stuck, read_u8-ne-stuck, read_u16-ne-stuck, read_u32-ne-stuck, read_bytes-ne-stuck,
}

checked_sub-ne-stuck : (a b : ℕ) → checked_sub a b ≢ stuck
checked_sub-ne-stuck a b = ground arith

checked_sub_less : (a b : ℕ) {c : ℕ} → checked_sub a b ≡ ok c → c ≡ a - b × (b ≤ a)
checked_sub_less a b e = ground arith

-- A round takes a byte at least of what remains.
pub txt_loop-ne-stuck :
    (fuel : ℕ) (r : Reader) (remaining : ℕ) (chunks : List Bytes)
    → remaining < fuel
    → txt_loop fuel r remaining chunks ≢ stuck
unfolding txt_loop
txt_loop-ne-stuck zero r remaining chunks h = absurd (omega arith)
txt_loop-ne-stuck (suc fuel) r remaining chunks h = elim (Bool-cases (remaining == 0)) [
  | inl done ↦ rw (done, txt_loop) (ok-ne-stuck _)
  | inr more ↦
      rw (more, txt_loop)
        (>>=-ne-stuck (read_u8 r) _ (read_u8-ne-stuck r) λ p _.
          >>=-ne-stuck (checked_sub remaining (1 + p.0)) _
            (checked_sub-ne-stuck remaining (1 + p.0))
            λ left e. >>=-ne-stuck (read_bytes p.1 p.0) _ (read_bytes-ne-stuck p.1 p.0) λ q _.
              txt_loop-ne-stuck fuel q.1 left (chunks ++ q.0 ∷ [])
                (omega (arith, checked_sub_less remaining (1 + p.0) e)))
]

pub opt_loop-ne-stuck :
    (fuel : ℕ) (r : Reader) (remaining : ℕ) (options : List EdnsOption)
    → remaining < fuel
    → opt_loop fuel r remaining options ≢ stuck
unfolding opt_loop
opt_loop-ne-stuck zero r remaining options h = absurd (omega arith)
opt_loop-ne-stuck (suc fuel) r remaining options h = elim (Bool-cases (remaining == 0)) [
  | inl done ↦ rw (done, opt_loop) (ok-ne-stuck _)
  | inr more ↦
      rw (more, opt_loop)
        (>>=-ne-stuck (read_u16 r) _ (read_u16-ne-stuck r) λ c _.
          >>=-ne-stuck (read_u16 c.1) _ (read_u16-ne-stuck c.1) λ p _.
            >>=-ne-stuck (checked_sub remaining (4 + p.0)) _
              (checked_sub-ne-stuck remaining (4 + p.0))
              λ left e. >>=-ne-stuck (read_bytes p.1 p.0) _ (read_bytes-ne-stuck p.1 p.0) λ q _.
                opt_loop-ne-stuck fuel q.1 left
                  (options ++ record { code = c.0; payload = q.0 } ∷ [])
                  (omega (arith, checked_sub_less remaining (4 + p.0) e)))
]

parse_typed-ne-stuck :
    (t : RecordType) (rtype rdlen : ℕ) (r : Reader) → parse_typed t rtype rdlen r ≢ stuck
unfolding parse_typed
parse_typed-ne-stuck Codes.a rtype rdlen r = ground (arith, read_bytes-ne-stuck r 4)
parse_typed-ne-stuck Codes.aaaa rtype rdlen r = ground (arith, read_bytes-ne-stuck r 16)
parse_typed-ne-stuck Codes.mx rtype rdlen r =
    >>=-ne-stuck (read_u16 r) _ (read_u16-ne-stuck r)
      λ p _. >>=-ne-stuck (read_name p.1) _ (read_name-ne-stuck p.1) λ q _. ok-ne-stuck _
parse_typed-ne-stuck Codes.txt rtype rdlen r =
    >>=-ne-stuck (txt_loop (suc rdlen) r rdlen []) _
      (txt_loop-ne-stuck (suc rdlen) r rdlen [] (omega arith)) λ p _. ok-ne-stuck _
parse_typed-ne-stuck Codes.opt rtype rdlen r =
    >>=-ne-stuck (opt_loop (suc rdlen) r rdlen []) _
      (opt_loop-ne-stuck (suc rdlen) r rdlen [] (omega arith)) λ p _. ok-ne-stuck _
parse_typed-ne-stuck Codes.soa rtype rdlen r =
    >>=-ne-stuck (read_name r) _ (read_name-ne-stuck r) λ p₁ _.
      >>=-ne-stuck (read_name p₁.1) _ (read_name-ne-stuck p₁.1) λ p₂ _.
        >>=-ne-stuck (read_u32 p₂.1) _ (read_u32-ne-stuck p₂.1) λ p₃ _.
          >>=-ne-stuck (read_u32 p₃.1) _ (read_u32-ne-stuck p₃.1) λ p₄ _.
            >>=-ne-stuck (read_u32 p₄.1) _ (read_u32-ne-stuck p₄.1) λ p₅ _.
              >>=-ne-stuck (read_u32 p₅.1) _ (read_u32-ne-stuck p₅.1) λ p₆ _.
                >>=-ne-stuck (read_u32 p₆.1) _ (read_u32-ne-stuck p₆.1) λ p₇ _. ok-ne-stuck _
parse_typed-ne-stuck Codes.srv rtype rdlen r =
    >>=-ne-stuck (read_u16 r) _ (read_u16-ne-stuck r) λ p₁ _.
      >>=-ne-stuck (read_u16 p₁.1) _ (read_u16-ne-stuck p₁.1) λ p₂ _.
        >>=-ne-stuck (read_u16 p₂.1) _ (read_u16-ne-stuck p₂.1)
          λ p₃ _. >>=-ne-stuck (read_name p₃.1) _ (read_name-ne-stuck p₃.1) λ p₄ _. ok-ne-stuck _
parse_typed-ne-stuck Codes.ns rtype rdlen r = ground (arith, read_name-ne-stuck r)
parse_typed-ne-stuck Codes.cname rtype rdlen r = ground (arith, read_name-ne-stuck r)
parse_typed-ne-stuck Codes.ptr rtype rdlen r = ground (arith, read_name-ne-stuck r)
parse_typed-ne-stuck _ rtype rdlen r = ground (arith, read_bytes-ne-stuck r rdlen)

parse_matched-ne-stuck :
    (t : Result ℕ RecordType) (rtype rdlen : ℕ) (r : Reader)
    → t ≢ stuck
    → parse_matched t rtype rdlen r ≢ stuck
unfolding parse_matched
parse_matched-ne-stuck (ok t) rtype rdlen r h = parse_typed-ne-stuck t rtype rdlen r
parse_matched-ne-stuck (err n) rtype rdlen r h = ground (arith, read_bytes-ne-stuck r rdlen)
parse_matched-ne-stuck stuck rtype rdlen r h = absurd (h refl)

pub parse-ne-stuck : (r : Reader) (rtype rdlen : ℕ) → parse r rtype rdlen ≢ stuck
unfolding parse parse_inner
parse-ne-stuck r rtype rdlen = ground (
  arith,
  parse_matched-ne-stuck (record_type_try_from rtype) rtype rdlen r
      (record_type_try_from-ne-stuck rtype),
)
