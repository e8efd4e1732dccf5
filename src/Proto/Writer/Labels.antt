-- ===== src/Proto/Writer/Labels.antt =====
-- What the loop over the labels of a name does.
use dnser.Base.{
  ℕ, suc, ◌+◌, ◌%◌, ◌≤◌, ◌<◌, ◌≡◌, ◌⊎◌, inl, inr, refl, sym, ap, subst, ◌∙◌, List, [], ◌∷◌, ◌++◌,
  length, drop, length-append, arith, append_assoc, append-nil, none, some, ok, All, le→ltb, bit_or,
}
use dnser.Base.Bits.{or_fields}
use dnser.Base.Bytes.{Bytes, be16}
use dnser.Proto.Name.{Holds, NameAt, root, label_at, pointer_at, IsLabel, join_dots}
use dnser.Proto.Name.Stable.{Holds-end, NameAt-append}
use dnser.Proto.Writer.{
  Writer, pos, find_name, remember, write_labels, write_u8, write_u16, write_bytes,
}
use dnser.Proto.Writer.Offsets.{
  Remembered, RightUpTo, Remembered-append, join_injective, buf-remember, find-remember, wire_size,
  wire_size-pos,
}

-- What the loop over the labels leaves behind.
pub record Wrote (name : Bytes) (offset : ℕ) (labels : List Bytes) (w : Writer) : Type 0 where
  pub result : Writer
  pub out : Bytes
  pub jumps : ℕ
  pub run : write_labels name offset labels w ≡ ok result
  pub appended : result.buf ≡ w.buf ++ out
  pub few : jumps ≤ length labels
  pub small : length out ≤ wire_size labels
  pub there : NameAt result.buf (pos w) (pos result) jumps labels
  pub entries :
      (key : Bytes) (at_offset : ℕ)
      → find_name key result.name_offsets ≡ some at_offset
      → (find_name key w.name_offsets ≡ some at_offset) ⊎ Remembered result.buf key at_offset

pub NameAt-end : (buf : Bytes) → NameAt (buf ++ 0 ∷ []) (length buf) (length (buf ++ 0 ∷ [])) 0 []
NameAt-end buf =
    root (rw append-nil at (Holds-end buf (0 ∷ []) [])) (omega (arith, length-append buf (0 ∷ [])))
      refl

-- A remembered suffix: the pointer is written, and nothing is remembered.
pub write_pointer :
    (name : Bytes) (offset target : ℕ) (label : Bytes) (labels : List Bytes) (w : Writer)
    → drop offset name ≡ join_dots (label ∷ labels)
    → All IsLabel (label ∷ labels)
    → find_name (drop offset name) w.name_offsets ≡ some target
    → Remembered w.buf (drop offset name) target
    → Wrote name offset (label ∷ labels) w
unfolding write_labels
write_pointer name offset target label labels w e valid hit r =
    let same : r.labels ≡ label ∷ labels =
      join_injective r.labels (label ∷ labels) (omega (arith, r.few)) (omega arith) r.valid valid
        (sym r.text ∙ e) in
    let word : bit_or 0b1100_0000_0000_0000 target ≡ 0xC000 + target =
      or_fields 14 3 target r.small in
    record {
      result = write_u16 (0xC000 + target) w;
      out = be16 (0xC000 + target);
      jumps = suc r.jumps;
      run = rw (hit, write_labels) (rw word refl);
      appended = refl;
      few = omega (arith, r.few, ap length same);
      small = omega (arith, valid.0.nonempty, wire_size-pos labels);
      there =
          pointer_at r.small (rw append-nil at (Holds-end w.buf (be16 (0xC000 + target)) []))
            (omega (arith, length-append w.buf (be16 (0xC000 + target)))) refl
            (subst (NameAt (w.buf ++ be16 (0xC000 + target)) target r.after r.jumps) same
              (NameAt-append (be16 (0xC000 + target)) r.there));
      entries = λ key at_offset found. inl found;
    }

-- The writer once a label is written.
abbrev pub after_label : Bytes → Bytes → Writer → Writer
after_label suffix label w = write_bytes label (write_u8 (length label) (remember suffix w))

buf-after_label :
    (suffix label : Bytes) (w : Writer)
    → length label ≤ 63
    → (after_label suffix label w).buf ≡ w.buf ++ length label ∷ label
buf-after_label suffix label w short =
    let byte : length label % 256 ≡ length label = omega arith in
    rw (buf-remember suffix w, byte) (append_assoc w.buf (length label ∷ []) label)

write_labels_step :
    (name : Bytes) (offset : ℕ) (label : Bytes) (labels : List Bytes) (w : Writer)
    → IsLabel label
    → find_name (drop offset name) w.name_offsets ≡ none
    → write_labels name offset (label ∷ labels) w
      ≡ write_labels name
          (offset + length label + 1)
          labels
          (after_label (drop offset name) label w)
unfolding write_labels
write_labels_step name offset [] labels w valid miss = absurd (omega (arith, valid.nonempty))
write_labels_step name offset (b ∷ bs) labels w valid miss =
    rw (miss, write_labels) (rw (le→ltb 63 (length (b ∷ bs)) valid.short) refl)

-- The entries of the tail are the old ones, the one of this label, or right.
split_entry :
    (suffix : Bytes) (label : Bytes) (labels : List Bytes) (w result : Writer) (jumps : ℕ)
    → suffix ≡ join_dots (label ∷ labels)
    → All IsLabel (label ∷ labels)
    → jumps ≤ length labels
    → NameAt result.buf (pos w) (pos result) jumps (label ∷ labels)
    → (key : Bytes) (offset : ℕ)
    → (find_name key (remember suffix w).name_offsets ≡ some offset)
      ⊎ Remembered result.buf key offset
    → (find_name key w.name_offsets ≡ some offset) ⊎ Remembered result.buf key offset
split_entry suffix label labels w result jumps text valid few there key offset (inr good) = inr good
split_entry suffix label labels w result jumps text valid few there key offset (inl found) =
    elim (find-remember suffix key w offset found) [
      | inl (same, here, small) ↦ inr (record {
        labels = label ∷ labels;
        after = pos result;
        jumps = jumps;
        text = sym same ∙ text;
        valid = valid;
        few = omega arith;
        small = small;
        there =
            subst (λ p. NameAt result.buf p (pos result) jumps (label ∷ labels)) (sym here) there;
      })
      | inr old ↦ inl old
    ]

-- A label is written before the labels that follow it: what they leave behind, with it in front.
pub write_label :
    (name : Bytes) (offset : ℕ) (label : Bytes) (labels : List Bytes) (w : Writer)
    → All IsLabel (label ∷ labels)
    → drop offset name ≡ join_dots (label ∷ labels)
    → find_name (drop offset name) w.name_offsets ≡ none
    → Wrote name (offset + length label + 1) labels (after_label (drop offset name) label w)
    → Wrote name offset (label ∷ labels) w
write_label name offset label labels w (valid, valids) e miss tail =
    let w₁ : Writer = after_label (drop offset name) label w in
    let at_label : w₁.buf ≡ w.buf ++ length label ∷ label =
      buf-after_label (drop offset name) label w valid.short in
    let whole : tail.result.buf ≡ w.buf ++ (length label ∷ label) ++ tail.out =
      tail.appended ∙ ap (λ (t : Bytes). t ++ tail.out) at_label in
    let there : NameAt tail.result.buf (pos w) (pos tail.result) tail.jumps (label ∷ labels) =
      label_at
        (subst (λ b. Holds b (pos w) (length label ∷ label)) (sym whole)
          (Holds-end w.buf (length label ∷ label) tail.out))
        (ap length at_label ∙ omega (arith, length-append w.buf (length label ∷ label)))
        tail.there in
    record {
      result = tail.result;
      out = (length label ∷ label) ++ tail.out;
      jumps = tail.jumps;
      run = write_labels_step name offset label labels w valid miss ∙ tail.run;
      appended = whole ∙ append_assoc w.buf (length label ∷ label) tail.out;
      few = omega (arith, tail.few);
      small = omega (arith, tail.small, length-append (length label ∷ label) tail.out);
      there = there;
      entries = λ key at_offset found.
          split_entry (drop offset name) label labels w tail.result tail.jumps e (valid, valids)
            tail.few there key at_offset (tail.entries key at_offset found);
    }

length-join_lt :
    (label : Bytes) (labels : List Bytes)
    → IsLabel label
    → length (join_dots labels) < length (join_dots (label ∷ labels))
length-join_lt label [] h = h.nonempty
length-join_lt label (next ∷ labels) h =
    omega (arith, length-append label (b'.' ∷ join_dots (next ∷ labels)))

pub RightUpTo-after_label :
    (suffix label : Bytes) (labels : List Bytes) (w : Writer)
    → suffix ≡ join_dots (label ∷ labels)
    → IsLabel label
    → RightUpTo (length (join_dots (label ∷ labels))) w
    → RightUpTo (length (join_dots labels)) (after_label suffix label w)
RightUpTo-after_label suffix label labels w text valid right key offset found short =
    elim (find-remember suffix key w offset found) [
      | inl (same, here, small) ↦
          absurd (omega (arith, length-join_lt label labels valid, ap length same, ap length text))
      | inr old ↦
          subst (λ b. Remembered b key offset) (sym (buf-after_label suffix label w valid.short))
            (Remembered-append (length label ∷ label)
              (right key offset old (omega (arith, length-join_lt label labels valid))))
    ]
