-- ===== src/Proto/Name/Read.antt =====
-- `read_name` returns the name that lies at its position.
use dnser.Base.{
  ℕ, zero, suc, ◌+◌, ◌*◌, ◌/◌, ◌%◌, ◌^◌, ◌≤◌, ◌<◌, ◌≡◌, refl, sym, ap, ◌∙◌, subst, List, [], ◌∷◌,
  ◌++◌, length, drop, take, length-append, arith, append_assoc, ok, true, some, get_elem?,
  get_elem?_of_drop, drop-drop, take-append, All, All-map, bit_and, bit_or,
}
use dnser.Base.Bits.{top_two_bits, and_low, or_fields}
use dnser.Base.Bytes.{Bytes, be16}
use dnser.Proto.Name.{
  Holds, NameAt, root, label_at, pointer_at, IsLabel, IsName, IsRawLabel, IsRawName, join_dots,
}
use dnser.Proto.Name.Stable.{Holds-bounds}
use dnser.Proto.Name.Dots.{labels_bound}
use dnser.Proto.Reader.Termination.{length-push_dot}
use dnser.Proto.Reader.{
  Reader, NameState, continue_with, break_with, max_jumps, max_name_len, name_fuel, follow_pointer,
  leave_at, start_state, take_label, on_byte, name_round, name_loop, read_name, push_dot,
}

module _ (buf : Bytes) (s : NameState) (few : s.jumps < max_jumps) where
  round_root :
      Holds buf s.pos (0 ∷ [])
      → name_round buf s ≡ ok (break_with (record s { resume = leave_at s (s.pos + 1) }))
  unfolding name_round on_byte
  round_root h = ground (arith, get_elem?_of_drop s.pos buf h.ahead)

  round_label :
      (label : Bytes)
      → IsRawLabel label
      → Holds buf s.pos (length label ∷ label)
      → length (push_dot s.name ++ label) ≤ max_name_len
      → name_round buf s
        ≡ ok (
            continue_with
              (record s { name = push_dot s.name ++ label; pos = s.pos + 1 + length label }))
  unfolding name_round on_byte take_label
  round_label label ok_label h fits =
      let byte : get_elem? buf s.pos ≡ some (length label) = get_elem?_of_drop s.pos buf h.ahead in
      let ahead : drop (s.pos + 1) buf ≡ label ++ h.rest =
        sym (drop-drop s.pos 1 (s.pos + 1) buf refl) ∙ ap (drop 1) h.ahead in
      let text : take (length label) (drop (s.pos + 1) buf) ≡ label =
        ap (take (length label)) ahead ∙ take-append label h.rest (length label) refl in
      rw (byte, text, ok_label.raw_utf8)
        (ground (arith, top_two_bits (length label), Holds-bounds h))

  round_pointer :
      (target : ℕ)
      → target < 2 ^ 14
      → target < length buf
      → Holds buf s.pos (be16 (0xC000 + target))
      → name_round buf s
        ≡ ok (
            continue_with (record s {
              pos = target;
              jumped = true;
              jumps = s.jumps + 1;
              resume = leave_at s (s.pos + 2);
            }))
  unfolding name_round on_byte follow_pointer
  round_pointer target small inside h =
      let high : ℕ = (0xC000 + target) / 256 % 256 in
      let byte : get_elem? buf s.pos ≡ some high = get_elem?_of_drop s.pos buf h.ahead in
      let ahead : drop (s.pos + 1) buf ≡ (0xC000 + target) % 256 ∷ h.rest =
        sym (drop-drop s.pos 1 (s.pos + 1) buf refl) ∙ ap (drop 1) h.ahead in
      let next : get_elem? buf (s.pos + 1) ≡ some ((0xC000 + target) % 256) =
        get_elem?_of_drop (s.pos + 1) buf ahead in
      let low_six : bit_and high 0b0011_1111 ≡ target / 256 =
        and_low 6 high 0b0011_1111 refl ∙ omega arith in
      let offset : bit_or (bit_and high 0b0011_1111 * 2 ^ 8) ((0xC000 + target) % 256) ≡ target =
        or_fields 8 (bit_and high 0b0011_1111) ((0xC000 + target) % 256) (omega arith)
        ∙ omega (arith, low_six) in
      rw (byte, next, offset) (ground (arith, top_two_bits high))

-- The name that is left when more labels are read behind `name`.
abbrev push_labels : Bytes → List Bytes → Bytes
push_labels name [] = name
push_labels name (label ∷ labels) = push_labels (push_dot name ++ label) labels

length-push_labels :
    (name : Bytes) (labels : List Bytes) → length name ≤ length (push_labels name labels)
length-push_labels name [] = omega arith
length-push_labels name (label ∷ labels) = omega (
  arith,
  length-push_labels (push_dot name ++ label) labels,
  length-append (push_dot name) label,
  length-push_dot name,
)

push-join :
    (b : ℕ) (bs label : Bytes) (labels : List Bytes)
    → push_labels (b ∷ bs) (label ∷ labels) ≡ (b ∷ bs) ++ b'.' ∷ join_dots (label ∷ labels)
push-join b bs label [] = append_assoc (b ∷ bs) (b'.' ∷ []) label
push-join b bs label (next ∷ labels) =
    push-join b ((bs ++ b'.' ∷ []) ++ label) next labels ∙ simp append_assoc

push_labels-nil :
    (labels : List Bytes) → All IsRawLabel labels → push_labels [] labels ≡ join_dots labels
push_labels-nil [] h = refl
push_labels-nil (label ∷ []) h = refl
push_labels-nil ([] ∷ next ∷ labels) (h, hs) = absurd (omega (arith, h.raw_nonempty))
push_labels-nil ((b ∷ bs) ∷ next ∷ labels) (h, hs) = push-join b bs next labels

NameAt-inside :
    {buf : Bytes} {pos after jumps : ℕ} {labels : List Bytes}
    → NameAt buf pos after jumps labels
    → pos < length buf
NameAt-inside (root h e j) = omega (arith, Holds-bounds h)
NameAt-inside (label_at h e n) = omega (arith, Holds-bounds h)
NameAt-inside (pointer_at t h e j n) = omega (arith, Holds-bounds h)

-- The loop from a state at a name: it takes a round for each jump and label, and one for the end.
pub name_loop-NameAt :
    (buf : Bytes) {pos after jumps : ℕ} {labels : List Bytes}
    → NameAt buf pos after jumps labels
    → (fuel : ℕ) (s : NameState) → s.pos ≡ pos
    → jumps + length labels < fuel
    → s.jumps + jumps < max_jumps
    → All IsRawLabel labels
    → length (push_labels s.name labels) ≤ max_name_len
    → (s' : NameState) × (name_loop fuel buf s ≡ ok s')
      × (s'.name ≡ push_labels s.name labels)
      × (s'.resume ≡ leave_at s after)
unfolding name_loop
name_loop-NameAt buf n zero s here enough few valid fits = absurd (omega arith)
name_loop-NameAt buf (root h e j) (suc fuel) s here enough few valid fits = (
  record s { resume = leave_at s (s.pos + 1) },
  rw (round_root buf s (omega arith) (subst (λ p. Holds buf p (0 ∷ [])) (sym here) h)),
  refl,
  ap (leave_at s) (omega arith),
)
name_loop-NameAt buf (label_at {label = x} {labels = xs} h e n) (suc fuel) s here enough few valid
      fits =
    let s₁ : NameState = record s { name = push_dot s.name ++ x; pos = s.pos + 1 + length x } in
    let round : name_round buf s ≡ ok (continue_with s₁) =
      round_label buf s (omega arith) x valid.0
        (subst (λ p. Holds buf p (length x ∷ x)) (sym here) h)
        (omega (arith, length-push_labels (push_dot s.name ++ x) xs)) in
    let (s', run, named, left) =
      name_loop-NameAt buf n fuel s₁ (omega arith) (omega arith) (omega arith) valid.1 fits in
    (s', rw round run, named, left)
name_loop-NameAt buf (pointer_at {target = x} t h e j n) (suc fuel) s here enough few valid fits =
    let s₁ : NameState = record s {
      pos = x;
      jumped = true;
      jumps = s.jumps + 1;
      resume = leave_at s (s.pos + 2);
    } in
    let round : name_round buf s ≡ ok (continue_with s₁) =
      round_pointer buf s (omega arith) x t (NameAt-inside n)
        (subst (λ p. Holds buf p (be16 (0xC000 + x))) (sym here) h) in
    let (s', run, named, left) =
      name_loop-NameAt buf n fuel s₁ refl (omega arith) (omega arith) valid fits in
    (s', rw round run, named, left ∙ ap (leave_at s) (omega arith))

labels_few : (labels : List Bytes) → IsRawName labels → 2 * length labels ≤ 254
labels_few [] h = omega arith
labels_few (label ∷ labels) h = omega (arith, labels_bound label labels h.all_raw, h.raw_fits)

-- `read_name` returns the text of the labels that lie at its position, whatever bytes they hold, and
-- stops behind them, if the pointers that it has to follow are fewer than `max_jumps`.
pub read_name_raw :
    (buf : Bytes) (pos : ℕ) {after jumps : ℕ} {labels : List Bytes}
    → NameAt buf pos after jumps labels
    → IsRawName labels
    → jumps < max_jumps
    → read_name (record { buf = buf; pos = pos })
      ≡ ok (join_dots labels, record { buf = buf; pos = after })
unfolding read_name start_state
read_name_raw buf pos {after} {jumps} {labels} n h few =
    let r : Reader = record { buf = buf; pos = pos } in
    let bound : 2 * length labels ≤ 254 = labels_few labels h in
    let text : push_labels [] labels ≡ join_dots labels = push_labels-nil labels h.all_raw in
    let (s', run, named, left) =
      name_loop-NameAt buf n name_fuel (start_state r) refl (omega arith) (omega arith) h.all_raw
        (omega (arith, ap length text, h.raw_fits)) in
    rw run (ground (arith, named, left, text))

IsLabel-IsRawLabel : (labels : List Bytes) → All IsLabel labels → All IsRawLabel labels
IsLabel-IsRawLabel labels h =
    All-map labels h
      λ label x. record { raw_nonempty = x.nonempty; raw_short = x.short; raw_utf8 = x.utf8 }

-- So it does with a name.
pub read_name-NameAt :
    (buf : Bytes) (pos : ℕ) {after jumps : ℕ} {labels : List Bytes}
    → NameAt buf pos after jumps labels
    → IsName labels
    → jumps ≤ length labels
    → read_name (record { buf = buf; pos = pos })
      ≡ ok (join_dots labels, record { buf = buf; pos = after })
read_name-NameAt buf pos {after} {jumps} {labels} n h few =
    read_name_raw buf pos n
      (record { all_raw = IsLabel-IsRawLabel labels h.labels_valid; raw_fits = h.fits })
      (omega (
        arith,
        few,
        labels_few labels
            (record { all_raw = IsLabel-IsRawLabel labels h.labels_valid; raw_fits = h.fits }),
      ))
