-- ===== src/Base/Bytes.antt =====
-- Byte strings: slices, big-endian words, the equality of keys. A byte is a number below 256.
use Prim.Native.Nat.{ℕ, ◌+◌, ◌-◌, ◌*◌, ◌/◌, ◌%◌, ◌^◌, ◌≤◌, ◌<◌}
use mathlib.Core.Path.{◌≡◌, refl, ap, sym, ◌∙◌}
use mathlib.Core.Logic.{◌↔◌}
use mathlib.Core.Bool.{Bool, true, false, ◌&&◌}
use mathlib.Core.Option.{Option, none, some}
use mathlib.Core.List.{List, [], ◌∷◌, ◌++◌}
use native.Mathlib.Omega.{arith}
use dnser.Base.Tests.{leb, ◌==◌, if◌then◌else◌, le→leb}
use dnser.Base.Lists.{length, take, drop, length-append, length-drop, take-append}

abbrev pub Bytes : Type 0
Bytes = List ℕ

abbrev pub IsByte : ℕ → Type 0
IsByte b = b < 256

abbrev pub IsU16 : ℕ → Type 0
IsU16 v = v < 2 ^ 16

abbrev pub IsU32 : ℕ → Type 0
IsU32 v = v < 2 ^ 32

-- `v.to_be_bytes()` of a u16 and of a u32
abbrev pub be16 : ℕ → Bytes
be16 v = (v / 256 % 256) ∷ (v % 256) ∷ []

abbrev pub be32 : ℕ → Bytes
be32 v = (v / 2 ^ 24 % 256) ∷ (v / 2 ^ 16 % 256) ∷ (v / 256 % 256) ∷ (v % 256) ∷ []

-- `from_be_bytes`
abbrev from_be_onto : ℕ → Bytes → ℕ
from_be_onto n [] = n
from_be_onto n (b ∷ bs) = from_be_onto (n * 256 + b) bs

abbrev pub from_be_bytes : Bytes → ℕ
from_be_bytes bs = from_be_onto 0 bs

pub from_be_bytes-be16 : (v : ℕ) → IsU16 v → from_be_bytes (be16 v) ≡ v
from_be_bytes-be16 v h = omega arith

pub from_be_bytes-be32 : (v : ℕ) → IsU32 v → from_be_bytes (be32 v) ≡ v
from_be_bytes-be32 v h = omega arith

-- `buf.get(pos..pos + n)`
unfoldable pub slice : Bytes → ℕ → ℕ → Option Bytes
slice buf pos n = if leb (pos + n) (length buf) then some (take n (drop pos buf)) else none

pub slice_of_drop :
    (buf : Bytes) (pos n : ℕ) (xs ys : Bytes)
    → drop pos buf ≡ xs ++ ys
    → n ≡ length xs
    → pos ≤ length buf
    → slice buf pos n ≡ some xs
unfolding slice
slice_of_drop buf pos n xs ys e hn hp =
    let len : length (xs ++ ys) ≡ length buf - pos = ap length (sym e) ∙ length-drop pos buf in
    rw (
      le→leb (pos + n) (length buf) (omega (arith, length-append xs ys)),
      e,
      take-append xs ys n hn,
    )

pub slice_bounds :
    (buf : Bytes) (pos n : ℕ) {xs : Bytes} → slice buf pos n ≡ some xs → pos + n ≤ length buf
unfolding slice
slice_bounds buf pos n h = ground arith

-- `==` of two `String`s
unfoldable pub str_eq : Bytes → Bytes → Bool
str_eq [] [] = true
str_eq [] (b ∷ bs) = false
str_eq (a ∷ as') [] = false
str_eq (a ∷ as') (b ∷ bs) = a == b && str_eq as' bs

pub str_eq_iff : (a b : Bytes) → (str_eq a b ≡ true) ↔ (a ≡ b)
unfolding str_eq
str_eq_iff [] [] = ground arith
str_eq_iff [] (b ∷ bs) = ground arith
str_eq_iff (a ∷ as') [] = ground arith
str_eq_iff (a ∷ as') (b ∷ bs) = ground (arith, str_eq_iff as' bs)

pub str_eq_refl : (a : Bytes) → str_eq a a ≡ true
str_eq_refl a = (str_eq_iff a a).1 refl
