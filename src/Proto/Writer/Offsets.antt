-- ===== src/Proto/Writer/Offsets.antt =====
-- The offsets that a writer remembers.
use dnser.Base.{
  ℕ, ◌+◌, ◌^◌, ◌≤◌, ◌<◌, ◌≡◌, ◌⊎◌, sym, ap, ◌∙◌, List, [], ◌∷◌, ◌++◌, length, length-append, arith,
  some, All,
}
use dnser.Base.Bytes.{Bytes, str_eq_iff}
use dnser.Proto.Name.{NameAt, IsLabel, join_dots}
use dnser.Proto.Name.Stable.{NameAt-append}
use dnser.Proto.Name.Dots.{split-join}
use dnser.Proto.Writer.{Writer, pos, put, find_name, remember, split_dots}

-- A remembered name lies at its offset, which fits a pointer.
pub record Remembered (buf key : Bytes) (offset : ℕ) : Type 0 where
  pub labels : List Bytes
  pub after : ℕ
  pub jumps : ℕ
  pub text : key ≡ join_dots labels
  pub valid : All IsLabel labels
  pub few : jumps < length labels
  pub small : offset < 2 ^ 14
  pub there : NameAt buf offset after jumps labels

-- Every entry of `name_offsets` up to the length `n` is right.
abbrev pub RightUpTo : ℕ → Writer → Type 0
RightUpTo n w =
    (key : Bytes) (offset : ℕ)
    → find_name key w.name_offsets ≡ some offset
    → length key ≤ n
    → Remembered w.buf key offset

pub record IsRight (w : Writer) : Type 0 where
  pub entry :
      (key : Bytes) (offset : ℕ)
      → find_name key w.name_offsets ≡ some offset
      → Remembered w.buf key offset

pub Remembered-append :
    {buf key : Bytes} {offset : ℕ} (more : Bytes)
    → Remembered buf key offset
    → Remembered (buf ++ more) key offset
Remembered-append more r = record {
  labels = r.labels;
  after = r.after;
  jumps = r.jumps;
  text = r.text;
  valid = r.valid;
  few = r.few;
  small = r.small;
  there = NameAt-append more r.there;
}

pub put-IsRight : (bs : Bytes) (w : Writer) → IsRight w → IsRight (put bs w)
put-IsRight bs w h = record {
  entry = λ key offset found. Remembered-append bs (h.entry key offset found);
}

pub join_injective :
    (xs ys : List Bytes)
    → 0 < length xs
    → 0 < length ys
    → All IsLabel xs
    → All IsLabel ys
    → join_dots xs ≡ join_dots ys
    → xs ≡ ys
join_injective [] ys p q hx hy e = absurd (omega arith)
join_injective (x ∷ xs) [] p q hx hy e = absurd (omega arith)
join_injective (x ∷ xs) (y ∷ ys) p q hx hy e =
    sym (split-join x xs hx) ∙ ap split_dots e ∙ split-join y ys hy

pub buf-remember : (suffix : Bytes) (w : Writer) → (remember suffix w).buf ≡ w.buf
unfolding remember
buf-remember suffix w = ground arith

pub find-remember :
    (suffix key : Bytes) (w : Writer) (offset : ℕ)
    → find_name key (remember suffix w).name_offsets ≡ some offset
    → ((suffix ≡ key) × (offset ≡ pos w) × (offset < 2 ^ 14))
      ⊎ (find_name key w.name_offsets ≡ some offset)
unfolding remember find_name
find-remember suffix key w offset e = ground (arith, str_eq_iff suffix key)

-- The bytes of a name that is written without pointers.
abbrev pub wire_size : List Bytes → ℕ
wire_size [] = 1
wire_size (label ∷ labels) = length label + 1 + wire_size labels

pub wire_size-pos : (labels : List Bytes) → 1 ≤ wire_size labels
wire_size-pos [] = omega arith
wire_size-pos (label ∷ labels) = omega (arith, wire_size-pos labels)

pub wire_size-le : (labels : List Bytes) → wire_size labels ≤ length (join_dots labels) + 2
wire_size-le [] = omega arith
wire_size-le (label ∷ []) = omega arith
wire_size-le (label ∷ next ∷ labels) =
    omega
      (arith, wire_size-le (next ∷ labels), length-append label (b'.' ∷ join_dots (next ∷ labels)))
