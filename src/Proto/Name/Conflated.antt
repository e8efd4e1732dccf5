-- ===== src/Proto/Name/Conflated.antt =====
-- Names that differ on the wire and are read as one text: `read_name` pushes a label's bytes as
-- they are.
use dnser.Base.{
  ℕ, ◌<◌, ◌≡◌, ◌≢◌, refl, ap, ◌∙◌, List, [], ◌∷◌, ◌++◌, length, ok, arith, append_assoc,
}
use dnser.Base.Bytes.{Bytes}
use dnser.Proto.Name.{NameAt, IsRawName, join_dots}
use dnser.Proto.Name.Read.{read_name_raw}
use dnser.Proto.Reader.{max_jumps, read_name}

-- The text of a label with a dot in it is that of two labels.
join-dotted :
    (a b : Bytes) (labels : List Bytes)
    → join_dots ((a ++ b'.' ∷ b) ∷ labels) ≡ join_dots (a ∷ b ∷ labels)
join-dotted a b [] = refl
join-dotted a b (next ∷ labels) = append_assoc a (b'.' ∷ b) (b'.' ∷ join_dots (next ∷ labels))

length_differs : (a b : Bytes) (labels : List Bytes) → ((a ++ b'.' ∷ b) ∷ labels) ≢ (a ∷ b ∷ labels)
length_differs a b labels e = absurd (omega (arith, ap length e))

-- Two names that differ, one of which has the label `a.b` and the other the labels `a` and `b` in
-- its place, all of them well-formed UTF-8 of 1 to 63 bytes, and the text of each 253 bytes at
-- most: wherever they lie, and however they are compressed, if each is reached through fewer than
-- 128 pointers, as `max_jumps` has it, `read_name` returns the same text for both.
pub labels_conflated :
    (a b : Bytes) (labels : List Bytes) (buf buf' : Bytes) (pos pos' : ℕ)
    {after after' jumps jumps' : ℕ}
    → NameAt buf pos after jumps ((a ++ b'.' ∷ b) ∷ labels)
    → NameAt buf' pos' after' jumps' (a ∷ b ∷ labels)
    → IsRawName ((a ++ b'.' ∷ b) ∷ labels)
    → IsRawName (a ∷ b ∷ labels)
    → jumps < max_jumps
    → jumps' < max_jumps
    → ((a ++ b'.' ∷ b) ∷ labels ≢ a ∷ b ∷ labels)
      × (text : Bytes) × (read_name (record { buf = buf; pos = pos })
          ≡ ok (text, record { buf = buf; pos = after }))
      × (read_name (record { buf = buf'; pos = pos' })
          ≡ ok (text, record { buf = buf'; pos = after' }))
labels_conflated a b labels buf buf' pos pos' {after} {after'} n n' h h' few few' = (
  length_differs a b labels,
  join_dots (a ∷ b ∷ labels),
  read_name_raw buf pos n h few
      ∙ ap (λ (t : Bytes). ok (t, record { buf = buf; pos = after })) (join-dotted a b labels),
  read_name_raw buf' pos' n' h' few',
)
