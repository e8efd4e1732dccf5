-- ===== src/Proto/Writer.antt =====
-- crates/dnser-proto/src/writer.rs. A method takes the writer and returns the writer after it, or an
-- error. `name_offsets` is the `HashMap`, as an association list; a key is inserted only where the
-- lookup has just missed.
pub mod Offsets
pub mod Labels
pub mod Names
pub mod Uniform
use dnser.Base.{
  ℕ, zero, suc, ◌+◌, ◌*◌, ◌/◌, ◌%◌, ◌^◌, ◌≡◌, refl, Bool, true, false, Option, none, some, List, [],
  ◌∷◌, ◌++◌, length, set, drop, ltb, leb, ◌==◌, if◌then◌else◌, Result, ok, err, ◌>>=◌, bit_or,
  is_empty,
}
use dnser.Base.Bytes.{Bytes, be16, be32, str_eq}
use dnser.Proto.Errors.{WriteError, empty_label}

pub record Writer : Type 0 where
  pub buf : Bytes
  pub name_offsets : List (Bytes × ℕ)

-- What a method that may fail returns.
abbrev pub Written : Type 0
Written = Result WriteError Writer

unfoldable pub new : Writer
new = record { buf = []; name_offsets = [] }

-- `len()` of the buffer
abbrev pub pos : Writer → ℕ
pos w = length w.buf

-- `put_slice`
abbrev pub put : Bytes → Writer → Writer
put bs w = record w { buf = w.buf ++ bs }

abbrev pub write_u8 : ℕ → Writer → Writer
write_u8 v w = put ((v % 256) ∷ []) w

abbrev pub write_u16 : ℕ → Writer → Writer
write_u16 v w = put (be16 v) w

abbrev pub write_u32 : ℕ → Writer → Writer
write_u32 v w = put (be32 v) w

abbrev pub write_bytes : Bytes → Writer → Writer
write_bytes bs w = put bs w

-- The position of the two bytes that are to be filled in, and the writer with zeros there.
abbrev pub reserve_u16 : Writer → ℕ × Writer
reserve_u16 w = (pos w, write_u16 0 w)

unfoldable pub backfill_u16 : ℕ → ℕ → Writer → Writer
backfill_u16 p v w = record w { buf = set (set w.buf p (v / 256 % 256)) (p + 1) (v % 256) }

-- `name_offsets.get(suffix)`
unfoldable pub find_name : Bytes → List (Bytes × ℕ) → Option ℕ
find_name suffix [] = none
find_name suffix ((key, offset) ∷ rest) =
    if str_eq key suffix then some offset else find_name suffix rest

-- `trim_end_matches('.')`
abbrev cons_trimmed : ℕ → Bytes → Bytes
cons_trimmed b [] = if b == b'.' then [] else b ∷ []
cons_trimmed b (c ∷ cs) = b ∷ c ∷ cs

unfoldable pub trim_end_dots : Bytes → Bytes
trim_end_dots [] = []
trim_end_dots (b ∷ bs) = cons_trimmed b (trim_end_dots bs)

-- `split('.')`
abbrev cons_first : ℕ → List Bytes → List Bytes
cons_first b [] = (b ∷ []) ∷ []
cons_first b (label ∷ labels) = (b ∷ label) ∷ labels

unfoldable pub split_dots : Bytes → List Bytes
split_dots [] = [] ∷ []
split_dots (b ∷ bs) = let rest = split_dots bs in if b == b'.' then [] ∷ rest else cons_first b rest

-- The suffix is remembered if a pointer can hold its offset.
unfoldable pub remember : Bytes → Writer → Writer
remember suffix w =
    if leb (pos w) 0b0011_1111_1111_1111
    then record w { name_offsets = (suffix, pos w) ∷ w.name_offsets }
    else w

-- The loop over the labels; `offset` is where the rest of `name` begins.
unfoldable pub write_labels : Bytes → ℕ → List Bytes → Writer → Written
write_labels name offset [] w = ok (write_u8 0 w)
write_labels name offset (label ∷ labels) w = elim (find_name (drop offset name) w.name_offsets) [
  | some ptr ↦ ok (write_u16 (bit_or 0b1100_0000_0000_0000 ptr) w)
  | none ↦
      if is_empty label
      then err empty_label
      else if ltb 63 (length label)
      then err WriteError.label_too_long
      else write_labels name (offset + length label + 1) labels
          (write_bytes label (write_u8 (length label) (remember (drop offset name) w)))
]

unfoldable pub write_name : Bytes → Writer → Written
unfolding write_labels find_name trim_end_dots split_dots remember
write_name given w =
    let name = trim_end_dots given in
    if is_empty name then ok (write_u8 0 w) else write_labels name 0 (split_dots name) w

-- "a.bc" is written out, "x.bc." ends in a pointer to its "bc".
write_name_twice :
    (write_name (b'a' ∷ b'.' ∷ b'b' ∷ b'c' ∷ []) new
      >>= write_name (b'x' ∷ b'.' ∷ b'b' ∷ b'c' ∷ b'.' ∷ []))
    ≡ ok (record {
      buf = 1 ∷ b'a' ∷ 2 ∷ b'b' ∷ b'c' ∷ 0 ∷ 1 ∷ b'x' ∷ 0xC0 ∷ 2 ∷ [];
      name_offsets =
          (b'x' ∷ b'.' ∷ b'b' ∷ b'c' ∷ [], 6)
          ∷ (b'b' ∷ b'c' ∷ [], 2)
          ∷ (b'a' ∷ b'.' ∷ b'b' ∷ b'c' ∷ [], 0)
          ∷ [];
    })
unfolding write_name new str_eq
write_name_twice = refl

-- An inner empty label is refused.
write_name_empty_label : write_name (b'a' ∷ b'.' ∷ b'.' ∷ b'b' ∷ []) new ≡ err empty_label
unfolding write_name new str_eq
write_name_empty_label = refl
