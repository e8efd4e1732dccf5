-- ===== src/Proto/Utf8.antt =====
-- `std::str::from_utf8`, which reader.rs calls on every label: well-formed UTF-8 by the table of
-- the Unicode standard, with the position and length of the first error.
use dnser.Base.{
  ℕ, ◌+◌, ◌-◌, ◌≡◌, refl, ◌&&◌, Option, none, some, [], ◌∷◌, leb, ltb, ◌==◌, if◌then◌else◌, Result,
  ok, err, ◌⊎◌, inl, inr, Option-cases, max,
}
use dnser.Base.Bytes.{Bytes}
use dnser.Proto.Errors.{Utf8Error}

-- At a character's first byte; or inside a character, of which `seen` bytes are read and `left` are
-- to come, the next of them in the range from `low` to `high`.
pub data Scan : Type 0 where
  between : Scan
  inside : (seen left low high : ℕ) → Scan

first_byte : ℕ → Option Scan
first_byte b =
    if ltb b 0x80
    then some between
    else if leb 0xC2 b && leb b 0xDF
    then some (inside 1 1 0x80 0xBF)
    else if b == 0xE0
    then some (inside 1 2 0xA0 0xBF)
    else if b == 0xED
    then some (inside 1 2 0x80 0x9F)
    else if leb 0xE1 b && leb b 0xEF
    then some (inside 1 2 0x80 0xBF)
    else if b == 0xF0
    then some (inside 1 3 0x90 0xBF)
    else if leb 0xF1 b && leb b 0xF3
    then some (inside 1 3 0x80 0xBF)
    else if b == 0xF4
    then some (inside 1 3 0x80 0x8F)
    else none

next_byte : Scan → ℕ → Option Scan
unfolding first_byte
next_byte between b = first_byte b
next_byte (inside seen left low high) b =
    if leb low b && leb b high
    then some (if left == 1 then between else inside (seen + 1) (left - 1) 0x80 0xBF)
    else none

-- The bytes read of the character under way.
abbrev pending : Scan → ℕ
pending between = 0
pending (inside seen left low high) = seen

-- The input ends inside a character: `error_len` is `None`.
at_end : Scan → ℕ → Option Utf8Error
at_end between pos = none
at_end (inside seen left low high) pos = some (record { valid_up_to = pos; error_len = none })

-- A byte that does not fit: `error_len` counts the bytes before it, or the byte itself.
bad_byte : Scan → ℕ → Utf8Error
bad_byte s pos = record { valid_up_to = pos; error_len = some (max 1 (pending s)) }

-- Where the next character begins, or the one under way began.
boundary : Scan → Scan → ℕ → ℕ
boundary s between pos = pos + pending s + 1
boundary s (inside seen left low high) pos = pos

scan_utf8 : Scan → ℕ → Bytes → Option Utf8Error
unfolding next_byte at_end bad_byte boundary
scan_utf8 s pos [] = at_end s pos
scan_utf8 s pos (b ∷ bs) = elim (next_byte s b) [
  | none ↦ some (bad_byte s pos)
  | some s' ↦ scan_utf8 s' (boundary s s' pos) bs
]

unfoldable pub from_utf8 : Bytes → Result Utf8Error Bytes
unfolding scan_utf8
from_utf8 bytes = elim (scan_utf8 between 0 bytes) [ none ↦ ok bytes | some e ↦ err e ]

-- `from_utf8` returns the bytes that it was given, or an error.
pub from_utf8_cases :
    (bytes : Bytes) → (from_utf8 bytes ≡ ok bytes) ⊎ ((e : Utf8Error) × (from_utf8 bytes ≡ err e))
unfolding from_utf8
from_utf8_cases bytes = elim (Option-cases (scan_utf8 between 0 bytes)) [
  | inl e ↦ inl (rw (e, from_utf8) refl)
  | inr (x, e) ↦ inr (x, rw (e, from_utf8) refl)
]

-- "é€" is well formed; a surrogate, an overlong form and a cut character are not.
from_utf8_text :
    from_utf8 (0xC3 ∷ 0xA9 ∷ 0xE2 ∷ 0x82 ∷ 0xAC ∷ []) ≡ ok (0xC3 ∷ 0xA9 ∷ 0xE2 ∷ 0x82 ∷ 0xAC ∷ [])
unfolding from_utf8
from_utf8_text = refl

from_utf8_errors :
    (from_utf8 (b'a' ∷ 0xED ∷ 0xA0 ∷ 0x80 ∷ [])
      ≡ err (record { valid_up_to = 1; error_len = some 1 }))
    × (from_utf8 (0xC0 ∷ 0x80 ∷ []) ≡ err (record { valid_up_to = 0; error_len = some 1 }))
    × (from_utf8 (b'a' ∷ b'b' ∷ 0xE2 ∷ 0x82 ∷ [])
        ≡ err (record { valid_up_to = 2; error_len = none }))
    × (from_utf8 (0xE2 ∷ 0x82 ∷ b'a' ∷ []) ≡ err (record { valid_up_to = 0; error_len = some 2 }))
unfolding from_utf8
from_utf8_errors = (refl, refl, refl, refl)
