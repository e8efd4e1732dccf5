-- ===== src/Proto/Name/Dots.antt =====
-- `split('.')` and `trim_end_matches('.')` undo the joining of labels.
use dnser.Base.{
  ℕ, zero, suc, ◌+◌, ◌*◌, ◌≤◌, ◌<◌, ◌≡◌, refl, sym, ap, ◌∙◌, List, [], ◌∷◌, ◌++◌, length, drop, All,
  length-append, arith, drop-append, drop-drop,
}
use dnser.Base.Bytes.{Bytes}
use dnser.Proto.Name.{join_dots, NoDot, IsLabel, IsRawLabel}
use dnser.Proto.Writer.{split_dots, trim_end_dots}

split-label : (label : Bytes) → NoDot label → split_dots label ≡ label ∷ []
unfolding split_dots
split-label [] h = refl
split-label (b ∷ bs) (hb, h) = ground (arith, split-label bs h)

split-append :
    (label rest : Bytes) → NoDot label → split_dots (label ++ b'.' ∷ rest) ≡ label ∷ split_dots rest
unfolding split_dots
split-append [] rest h = refl
split-append (b ∷ bs) rest (hb, h) = ground (arith, split-append bs rest h)

pub split-join :
    (label : Bytes) (labels : List Bytes)
    → All IsLabel (label ∷ labels)
    → split_dots (join_dots (label ∷ labels)) ≡ label ∷ labels
split-join label [] (h, hs) = split-label label h.no_dot
split-join label (next ∷ labels) (h, hs) =
    split-append label (join_dots (next ∷ labels)) h.no_dot
    ∙ ap (◌∷◌ label) (split-join next labels hs)

trim-label : (label : Bytes) → NoDot label → trim_end_dots label ≡ label
unfolding trim_end_dots
trim-label [] h = refl
trim-label (b ∷ []) (hb, h) = ground arith
trim-label (b ∷ c ∷ bs) (hb, h) = rw (trim-label (c ∷ bs) h) refl

-- A text that does not end in a dot keeps all that stands before it.
trim-append :
    (front : Bytes) (b : ℕ) (bs : Bytes)
    → trim_end_dots (b ∷ bs) ≡ b ∷ bs
    → trim_end_dots (front ++ b ∷ bs) ≡ front ++ b ∷ bs
unfolding trim_end_dots
trim-append [] b bs h = h
trim-append (c ∷ []) b bs h = rw (trim-append [] b bs h) refl
trim-append (c ∷ d ∷ front) b bs h = rw (trim-append (d ∷ front) b bs h) refl

trim-cons :
    (b : ℕ) (bs : Bytes) → 0 < length bs → trim_end_dots bs ≡ bs → trim_end_dots (b ∷ bs) ≡ b ∷ bs
unfolding trim_end_dots
trim-cons b [] h e = absurd (omega arith)
trim-cons b (c ∷ cs) h e = rw e refl

pub length-join-pos :
    (label : Bytes) (labels : List Bytes)
    → All IsLabel (label ∷ labels)
    → 0 < length (join_dots (label ∷ labels))
length-join-pos label [] (h, hs) = h.nonempty
length-join-pos label (next ∷ labels) (h, hs) =
    omega (arith, h.nonempty, length-append label (b'.' ∷ join_dots (next ∷ labels)))

pub trim-join :
    (labels : List Bytes) → All IsLabel labels → trim_end_dots (join_dots labels) ≡ join_dots labels
trim-join [] h = unfold trim_end_dots in refl
trim-join (label ∷ []) (h, hs) = trim-label label h.no_dot
trim-join (label ∷ next ∷ labels) (h, hs) =
    trim-append label b'.' (join_dots (next ∷ labels))
      (trim-cons b'.' _ (length-join-pos next labels hs) (trim-join (next ∷ labels) hs))

drop-past : (n : ℕ) (xs : Bytes) → n ≡ length xs + 1 → drop n xs ≡ []
drop-past zero xs e = absurd (omega arith)
drop-past (suc n) [] e = refl
drop-past (suc n) (x ∷ xs) e = drop-past n xs (omega arith)

drop-first :
    (n : ℕ) (label : Bytes) (labels : List Bytes)
    → n ≡ length label + 1
    → drop n (join_dots (label ∷ labels)) ≡ join_dots labels
drop-first n label [] e = drop-past n label e
drop-first n label (next ∷ labels) e =
    sym (drop-drop (length label) 1 n (join_dots (label ∷ next ∷ labels)) e)
    ∙ ap (drop 1) (drop-append label (b'.' ∷ join_dots (next ∷ labels)) (length label) refl)

-- Past a label and its dot stands the name of the labels that follow.
pub drop-join :
    (name : Bytes) (offset : ℕ) (label : Bytes) (labels : List Bytes)
    → drop offset name ≡ join_dots (label ∷ labels)
    → drop (offset + length label + 1) name ≡ join_dots labels
drop-join name offset label labels e =
    sym (drop-drop offset (length label + 1) _ name (omega arith))
    ∙ ap (drop (length label + 1)) e
    ∙ drop-first _ label labels refl

-- The number of labels is bounded by the length of the text: each label but the last has a dot.
pub labels_bound :
    (label : Bytes) (labels : List Bytes)
    → All IsRawLabel (label ∷ labels)
    → 2 * length (label ∷ labels) ≤ length (join_dots (label ∷ labels)) + 1
labels_bound label [] (h, hs) = omega (arith, h.raw_nonempty)
labels_bound label (next ∷ labels) (h, hs) = omega (
  arith,
  h.raw_nonempty,
  length-append label (b'.' ∷ join_dots (next ∷ labels)),
  labels_bound next labels hs,
)
