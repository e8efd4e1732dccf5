-- ===== src/Proto/Writer/Names.antt =====
-- `write_name` writes a name that lies where it was written, and remembers only offsets at which the
-- remembered name lies.
use dnser.Base.{
  ℕ, ◌+◌, ◌≤◌, ◌<◌, ◌≡◌, inl, inr, refl, sym, ap, subst, ◌∙◌, List, [], ◌∷◌, ◌++◌, length, drop,
  arith, Option-cases, ok, All, if◌then◌else◌, is_empty,
}
use dnser.Base.Bytes.{Bytes}
use dnser.Proto.Name.{NameAt, IsLabel, join_dots}
use dnser.Proto.Name.Dots.{split-join, trim-join, drop-join, length-join-pos}
use dnser.Proto.Writer.{
  Writer, pos, find_name, write_labels, write_name, write_u8, split_dots, trim_end_dots,
}
use dnser.Proto.Writer.Offsets.{Remembered, RightUpTo, IsRight, Remembered-append, wire_size}
use dnser.Proto.Writer.Labels.{
  Wrote, NameAt-end, write_pointer, after_label, write_label, RightUpTo-after_label,
}

-- Every suffix that is looked up is shorter than those remembered meanwhile, so the loop needs
-- right entries only up to its own length.
module _ (name : Bytes) where
  Wrote-labels :
      (labels : List Bytes) (offset : ℕ) (w : Writer)
      → drop offset name ≡ join_dots labels
      → All IsLabel labels
      → RightUpTo (length (join_dots labels)) w
      → Wrote name offset labels w
  Wrote-labels [] offset w e valid right = record {
    result = write_u8 0 w;
    out = 0 ∷ [];
    jumps = 0;
    run = unfold write_labels in refl;
    appended = refl;
    few = omega arith;
    small = omega arith;
    there = NameAt-end w.buf;
    entries = λ key at_offset found. inl found;
  }
  Wrote-labels (label ∷ labels) offset w e valid right =
      elim (Option-cases (find_name (drop offset name) w.name_offsets)) [
        | inr (target, hit) ↦
            write_pointer name offset target label labels w e valid hit
              (right (drop offset name) target hit (omega (arith, ap length e)))
        | inl miss ↦ write_label name offset label labels w valid e miss (
            Wrote-labels labels (offset + length label + 1) (after_label (drop offset name) label w)
              (drop-join name offset label labels e) valid.1
              (RightUpTo-after_label (drop offset name) label labels w e valid.0 right))
      ]

write_name-labels :
    (given name : Bytes) (labels : List Bytes) (w : Writer)
    → trim_end_dots given ≡ name
    → 0 < length name
    → split_dots name ≡ labels
    → write_name given w ≡ write_labels name 0 labels w
unfolding write_name
write_name-labels given [] labels w trimmed h split = absurd (omega arith)
write_name-labels given (b ∷ bs) labels w trimmed h split =
    ap (λ (n : Bytes). if is_empty n then ok (write_u8 0 w) else write_labels n 0 (split_dots n) w)
      trimmed
    ∙ ap (λ (ls : List Bytes). write_labels (b ∷ bs) 0 ls w) split

-- What a right writer is after `write_name`.
pub record WroteName (labels : List Bytes) (w : Writer) : Type 0 where
  pub result : Writer
  pub out : Bytes
  pub jumps : ℕ
  pub run : write_name (join_dots labels) w ≡ ok result
  pub appended : result.buf ≡ w.buf ++ out
  pub few : jumps ≤ length labels
  pub small : length out ≤ wire_size labels
  pub there : NameAt result.buf (pos w) (pos result) jumps labels
  pub right : IsRight result

-- A valid name is always written: it then lies at the old end of the buffer, with no more pointers
-- to follow than it has labels, and every remembered offset stays right.
pub wrote_name :
    (labels : List Bytes) (w : Writer) → All IsLabel labels → IsRight w → WroteName labels w
unfolding write_name
wrote_name [] w valid h = record {
  result = write_u8 0 w;
  out = 0 ∷ [];
  jumps = 0;
  run = refl;
  appended = refl;
  few = omega arith;
  small = omega arith;
  there = NameAt-end w.buf;
  right = record {
    entry = λ key offset found. Remembered-append (0 ∷ []) (h.entry key offset found);
  };
}
wrote_name (label ∷ labels) w valid h =
    let name : Bytes = join_dots (label ∷ labels) in
    let wrote : Wrote name 0 (label ∷ labels) w =
      Wrote-labels name (label ∷ labels) 0 w refl valid
        (λ key offset found _. h.entry key offset found) in
    record {
      result = wrote.result;
      out = wrote.out;
      jumps = wrote.jumps;
      run =
          write_name-labels name name (label ∷ labels) w (trim-join (label ∷ labels) valid)
            (length-join-pos label labels valid) (split-join label labels valid)
          ∙ wrote.run;
      appended = wrote.appended;
      few = wrote.few;
      small = wrote.small;
      there = wrote.there;
      right = record {
        entry = λ key offset found. elim (wrote.entries key offset found) [
          | inl old ↦
              subst (λ b. Remembered b key offset) (sym wrote.appended)
                (Remembered-append wrote.out (h.entry key offset old))
          | inr good ↦ good
        ];
      };
    }
