-- ===== src/Proto/Name.antt =====
-- Domain names as lists of labels: what the texts of reader.rs and writer.rs stand for, and how a
-- name lies in a buffer, compression pointers included.
pub mod Dots
pub mod Stable
pub mod Read
pub mod Conflated
use dnser.Base.{
  ℕ, zero, suc, ◌+◌, ◌*◌, ◌/◌, ◌%◌, ◌^◌, ◌≤◌, ◌<◌, ◌≡◌, ◌≢◌, refl, List, [], ◌∷◌, ◌++◌, length,
  drop, All, ok,
}
use dnser.Base.Bytes.{Bytes, be16}
use dnser.Proto.Utf8.{from_utf8}

-- The text of a name: its labels with dots between them.
abbrev pub join_dots : List Bytes → Bytes
join_dots [] = []
join_dots (label ∷ []) = label
join_dots (label ∷ next ∷ labels) = label ++ b'.' ∷ join_dots (next ∷ labels)

abbrev pub NoDot : Bytes → Type 0
NoDot label = All (λ b. b ≢ b'.') label

-- A label that goes over the wire and comes back as itself.
pub record IsLabel (label : Bytes) : Type 0 where
  pub nonempty : 0 < length label
  pub short : length label ≤ 63
  pub no_dot : NoDot label
  pub utf8 : from_utf8 label ≡ ok label

-- A label that can be read, also if it holds a dot.
pub record IsRawLabel (label : Bytes) : Type 0 where
  pub raw_nonempty : 0 < length label
  pub raw_short : length label ≤ 63
  pub raw_utf8 : from_utf8 label ≡ ok label

pub record IsRawName (labels : List Bytes) : Type 0 where
  pub all_raw : All IsRawLabel labels
  pub raw_fits : length (join_dots labels) ≤ 253

pub record IsName (labels : List Bytes) : Type 0 where
  pub labels_valid : All IsLabel labels
  pub fits : length (join_dots labels) ≤ 253

-- The buffer holds `bytes` at `pos`.
pub record Holds (buf : Bytes) (pos : ℕ) (bytes : Bytes) : Type 0 where
  pub rest : Bytes
  pub ahead : drop pos buf ≡ bytes ++ rest

-- A name lies at `pos`: the bytes up to `after` are its own, and reading it makes `jumps` jumps.
pub data NameAt (buf : Bytes) : ℕ → ℕ → ℕ → List Bytes → Type 0 where
  root :
      {pos after jumps : ℕ}
      → Holds buf pos (0 ∷ [])
      → after ≡ pos + 1
      → jumps ≡ 0
      → NameAt buf pos after jumps []
  label_at :
      {pos next after jumps : ℕ} {label : Bytes} {labels : List Bytes}
      → Holds buf pos (length label ∷ label)
      → next ≡ pos + 1 + length label
      → NameAt buf next after jumps labels
      → NameAt buf pos after jumps (label ∷ labels)
  pointer_at :
      {pos target after after' jumps jumps' : ℕ} {labels : List Bytes}
      → target < 2 ^ 14
      → Holds buf pos (be16 (0xC000 + target))
      → after ≡ pos + 2
      → jumps ≡ suc jumps'
      → NameAt buf target after' jumps' labels
      → NameAt buf pos after jumps labels
