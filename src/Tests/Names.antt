-- ===== src/Tests/Names.antt =====
-- Names that crates/dnser-proto reads as one text, at concrete bytes.
use dnser.Base.{◌≡◌, ◌≢◌, refl, [], ◌∷◌, ok, arith}
use dnser.Base.Bytes.{Bytes}
use dnser.Proto.Name.{NameAt, root, label_at, IsRawLabel}
use dnser.Proto.Name.Conflated.{labels_conflated}
use dnser.Proto.Reader.{read_name}
use dnser.Proto.Utf8.{from_utf8}

abbrev a_text : Bytes
a_text = b'a' ∷ []

abbrev b_text : Bytes
b_text = b'b' ∷ []

-- One label "a.b".
abbrev one_label : Bytes
one_label = 3 ∷ b'a' ∷ b'.' ∷ b'b' ∷ 0 ∷ []

abbrev two_labels : Bytes
two_labels = 1 ∷ b'a' ∷ 1 ∷ b'b' ∷ 0 ∷ []

one-NameAt : NameAt one_label 0 5 0 ((b'a' ∷ b'.' ∷ b'b' ∷ []) ∷ [])
one-NameAt =
    label_at (record { rest = 0 ∷ []; ahead = refl }) refl
      (root (record { rest = []; ahead = refl }) refl refl)

two-NameAt : NameAt two_labels 0 5 0 (a_text ∷ b_text ∷ [])
two-NameAt =
    label_at (record { rest = 1 ∷ b'b' ∷ 0 ∷ []; ahead = refl }) refl
      (label_at (record { rest = 0 ∷ []; ahead = refl }) refl
        (root (record { rest = []; ahead = refl }) refl refl))

raw_dotted : IsRawLabel (b'a' ∷ b'.' ∷ b'b' ∷ [])
unfolding from_utf8
raw_dotted = record { raw_nonempty = omega arith; raw_short = omega arith; raw_utf8 = refl }

raw_a : IsRawLabel a_text
unfolding from_utf8
raw_a = record { raw_nonempty = omega arith; raw_short = omega arith; raw_utf8 = refl }

raw_b : IsRawLabel b_text
unfolding from_utf8
raw_b = record { raw_nonempty = omega arith; raw_short = omega arith; raw_utf8 = refl }

labels_conflated_example :
    ((b'a' ∷ b'.' ∷ b'b' ∷ []) ∷ [] ≢ a_text ∷ b_text ∷ [])
    × (text : Bytes) × (read_name (record { buf = one_label; pos = 0 })
        ≡ ok (text, record { buf = one_label; pos = 5 }))
    × (read_name (record { buf = two_labels; pos = 0 })
        ≡ ok (text, record { buf = two_labels; pos = 5 }))
labels_conflated_example =
    labels_conflated a_text b_text [] one_label two_labels 0 0 one-NameAt two-NameAt
      (record { all_raw = (raw_dotted, tt); raw_fits = omega arith })
      (record { all_raw = (raw_a, (raw_b, tt)); raw_fits = omega arith }) (omega arith)
      (omega arith)
