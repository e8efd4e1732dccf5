-- ===== src/Proto/Writer/Uniform.antt =====
-- A writing method looks at the length of the buffer and at `name_offsets` only, never at what the
-- buffer holds: over another buffer of the same length it appends the same bytes.
use dnser.Base.{
  ℕ, ◌+◌, ◌≡◌, refl, sym, ap, ◌∙◌, List, [], ◌∷◌, ◌++◌, length, drop, length-append, arith,
  append_assoc, append-nil, some, none, Option-cases, inl, inr, ok, err, ◌>>=◌, >>=-eq-ok, bit_or,
  Bool-cases, is_empty, ltb, if◌then◌else◌,
}
use dnser.Base.Bytes.{Bytes}
use dnser.Proto.Errors.{WriteError, empty_label}
use dnser.Proto.Writer.{
  Writer, Written, put, find_name, remember, write_labels, write_name, write_u8, write_u16,
  write_bytes, split_dots, trim_end_dots,
}

abbrev pub rebuf : Writer → Bytes → Writer
rebuf w buf = record w { buf = buf }

pub record Replay (f : Writer → Written) (w : Writer) (buf : Bytes) (result : Writer) : Type 0 where
  pub out : Bytes
  pub appended : result.buf ≡ w.buf ++ out
  pub replayed : f (rebuf w buf) ≡ ok (rebuf result (buf ++ out))

pub record Uniform (f : Writer → Written) : Type 0 where
  pub replay :
      (w : Writer) (buf : Bytes) (result : Writer)
      → length w.buf ≡ length buf
      → f w ≡ ok result
      → Replay f w buf result

pub put-Uniform : (bs : Bytes) → Uniform (λ w. ok (put bs w))
put-Uniform bs = record {
  replay = λ w buf result len e.
      let same : put bs w ≡ result = ground arith in
      record {
        out = bs;
        appended = ap (λ (t : Writer). t.buf) (sym same);
        replayed = ap (λ (t : Writer). ok (rebuf t (buf ++ bs))) same;
      };
}

pub bind-Uniform : (f g : Writer → Written) → Uniform f → Uniform g → Uniform (λ w. f w >>= g)
bind-Uniform f g uf ug = record {
  replay = λ w buf result len e.
      let (mid, p, q) = >>=-eq-ok (f w) g e in
      let one : Replay f w buf mid = uf.replay w buf mid len p in
      let two : Replay g mid (buf ++ one.out) result =
        ug.replay mid (buf ++ one.out) result
          (omega
            (arith, ap length one.appended, length-append w.buf one.out, length-append buf one.out))
          q in
      record {
        out = one.out ++ two.out;
        appended =
            two.appended
            ∙ ap (λ (t : Bytes). t ++ two.out) one.appended
            ∙ append_assoc w.buf one.out two.out;
        replayed =
            ap (λ (r : Written). r >>= g) one.replayed
            ∙ two.replayed
            ∙ ap (λ (b : Bytes). ok (rebuf result b)) (append_assoc buf one.out two.out);
      };
}

-- A step by `put` in front.
pub put-bind-Uniform : (bs : Bytes) (g : Writer → Written) → Uniform g → Uniform (λ w. g (put bs w))
put-bind-Uniform bs g ug = bind-Uniform (λ w. ok (put bs w)) g (put-Uniform bs) ug

remember-rebuf :
    (suffix : Bytes) (w : Writer) (buf : Bytes)
    → length w.buf ≡ length buf
    → remember suffix (rebuf w buf) ≡ rebuf (remember suffix w) buf
unfolding remember
remember-rebuf suffix w buf len = ground arith

remember-Uniform : (suffix : Bytes) → Uniform (λ w. ok (remember suffix w))
unfolding remember
remember-Uniform suffix = record {
  replay = λ w buf result len e. record {
    out = [];
    appended = ground (arith, append-nil w.buf);
    replayed = ground (arith, append-nil buf);
  };
}

pub Replay-same :
    {g : Writer → Written} {w : Writer} {buf : Bytes} {result : Writer} (f : Writer → Written)
    → f w ≡ g w
    → f (rebuf w buf) ≡ g (rebuf w buf)
    → Replay g w buf result
    → Replay f w buf result
Replay-same f here there r = record {
  out = r.out;
  appended = r.appended;
  replayed = there ∙ r.replayed;
}

-- What `write_labels` does with a label whose suffix is not remembered.
fresh_label : Bytes → ℕ → Bytes → List Bytes → Writer → Written
fresh_label name offset label labels w =
    if is_empty label
    then err empty_label
    else if ltb 63 (length label)
    then err WriteError.label_too_long
    else write_labels name (offset + length label + 1) labels
        (write_bytes label (write_u8 (length label) (remember (drop offset name) w)))

fresh_label-Uniform :
    (name : Bytes) (offset : ℕ) (label : Bytes) (labels : List Bytes)
    → Uniform (write_labels name (offset + length label + 1) labels)
    → Uniform (fresh_label name offset label labels)
unfolding fresh_label
fresh_label-Uniform name offset label labels tail = record {
  replay = λ w buf result len e. elim (Bool-cases (is_empty label)) [
    | inl p ↦ absurd (ground arith)
    | inr p ↦ elim (Bool-cases (ltb 63 (length label))) [
      | inl q ↦ absurd (ground arith)
      | inr q ↦ Replay-same (fresh_label name offset label labels) (rw (p, q)) (rw (p, q)) (
          (bind-Uniform (λ v. ok (remember (drop offset name) v))
              (λ v.
                write_labels name (offset + length label + 1) labels
                  (write_bytes label (write_u8 (length label) v)))
              (remember-Uniform (drop offset name))
              (put-bind-Uniform _ _ (put-bind-Uniform label _ tail))).replay
            w buf result len (rw (p, q) at e))
    ]
  ];
}

module _ (name : Bytes) (offset : ℕ) (label : Bytes) (labels : List Bytes) (w : Writer) where
  missed :
      find_name (drop offset name) w.name_offsets ≡ none
      → write_labels name offset (label ∷ labels) w ≡ fresh_label name offset label labels w
  unfolding write_labels fresh_label
  missed miss = rw (miss, write_labels) refl

  found :
      (ptr : ℕ)
      → find_name (drop offset name) w.name_offsets ≡ some ptr
      → write_labels name offset (label ∷ labels) w
        ≡ ok (write_u16 (bit_or 0b1100_0000_0000_0000 ptr) w)
  unfolding write_labels
  found ptr hit = rw (hit, write_labels) refl

pub write_labels-Uniform :
    (name : Bytes) (labels : List Bytes) (offset : ℕ) → Uniform (write_labels name offset labels)
write_labels-Uniform name [] offset = unfold write_labels in put-Uniform (0 ∷ [])
write_labels-Uniform name (label ∷ labels) offset =
    let tail : Uniform (write_labels name (offset + length label + 1) labels) =
      write_labels-Uniform name labels (offset + length label + 1) in
    record {
      replay = λ w buf result len e.
          elim (Option-cases (find_name (drop offset name) w.name_offsets)) [
            | inl miss ↦
                Replay-same _ (missed name offset label labels w miss)
                  (missed name offset label labels (rebuf w buf) miss)
                  ((fresh_label-Uniform name offset label labels tail).replay w buf result len
                    (sym (missed name offset label labels w miss) ∙ e))
            | inr (ptr, hit) ↦
                Replay-same _ (found name offset label labels w ptr hit)
                  (found name offset label labels (rebuf w buf) ptr hit)
                  ((put-Uniform _).replay w buf result len
                    (sym (found name offset label labels w ptr hit) ∙ e))
          ];
    }

pub write_name-Uniform : (name : Bytes) → Uniform (write_name name)
unfolding write_name
write_name-Uniform name = record {
  replay = λ w buf result len e. elim (Bool-cases (is_empty (trim_end_dots name))) [
    | inl p ↦
        Replay-same (write_name name) (rw p) (rw p)
          ((put-Uniform (0 ∷ [])).replay w buf result len (rw p at e))
    | inr p ↦ Replay-same (write_name name) (rw p) (rw p) (
        (write_labels-Uniform (trim_end_dots name) (split_dots (trim_end_dots name)) 0).replay w buf
          result len (rw p at e))
  ];
}
