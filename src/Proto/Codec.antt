-- ===== src/Proto/Codec.antt =====
-- What it is for a `write` and a `parse` of crates/dnser-proto to undo one another, inside a message:
-- behind whatever was written before, and before whatever is written later.
pub mod Words
pub mod Names
use dnser.Base.{
  ℕ, ◌+◌, ◌≤◌, arith, length-append, ◌≡◌, refl, sym, ap, subst, ◌∙◌, List, [], ◌∷◌, ◌++◌, length,
  ok, ◌>>=◌, append_assoc, append-nil,
}
use dnser.Base.Bytes.{Bytes}
use dnser.Proto.Errors.{WriteError}
use dnser.Proto.Reader.{Reader, Parsed}
use dnser.Proto.Writer.{Writer, Written, pos, put}
use dnser.Proto.Writer.Offsets.{IsRight}

-- The reader at position `p` of what a writer holds, with `later` behind it.
abbrev pub reader_at : Bytes → Bytes → ℕ → Reader
reader_at buf later p = record { buf = buf ++ later; pos = p }

-- `write` succeeds at `w` and appends at most `n` bytes to it, and `parse` reads `x` back from what
-- it appended.
pub record RoundTrip (A : Type 0) (write : Writer → Written) (parse : Reader → Parsed A) (x : A)
    (n : ℕ) (w : Writer) : Type 0 where
  pub result : Writer
  pub out : Bytes
  pub run : write w ≡ ok result
  pub appended : result.buf ≡ w.buf ++ out
  pub small : length out ≤ n
  pub right : IsRight result
  pub back :
      (later : Bytes)
      → parse (reader_at result.buf later (pos w)) ≡ ok (x, reader_at result.buf later (pos result))

-- From every writer whose remembered names are right.
abbrev pub Codes : (A : Type 0) → (Writer → Written) → (Reader → Parsed A) → A → ℕ → Type 0
Codes A write parse x n = (w : Writer) → IsRight w → RoundTrip A write parse x n w

module _ {A B : Type 0} where
  -- Two codecs in a row.
  pub Codes-bind :
      (write₁ write₂ : Writer → Written) (parse₁ : Reader → Parsed A)
      (parse₂ : A × Reader → Parsed B) (x : A) (y : B) (n m : ℕ)
      → Codes A write₁ parse₁ x n
      → Codes B write₂ (λ r. parse₂ (x, r)) y m
      → Codes B (λ w. write₁ w >>= write₂) (λ r. parse₁ r >>= parse₂) y (n + m)
  Codes-bind write₁ write₂ parse₁ parse₂ x y n m first second w h =
      let one : RoundTrip A write₁ parse₁ x n w = first w h in
      let two : RoundTrip B write₂ (λ r. parse₂ (x, r)) y m one.result =
        second one.result one.right in
      record {
        result = two.result;
        out = one.out ++ two.out;
        run = rw one.run two.run;
        appended =
            two.appended
            ∙ ap (λ (t : Bytes). t ++ two.out) one.appended
            ∙ append_assoc w.buf one.out two.out;
        small = omega (arith, one.small, two.small, length-append one.out two.out);
        right = two.right;
        back = λ later.
            let moved : (b : Bytes)
                → b ≡ one.result.buf ++ two.out
                → parse₁ (reader_at b later (pos w)) ≡ ok (x, reader_at b later (pos one.result)) =
              λ b e.
                subst
                  (λ t.
                    parse₁ (record { buf = t; pos = pos w })
                    ≡ ok (x, record { buf = t; pos = pos one.result }))
                  (sym (append_assoc one.result.buf two.out later)
                    ∙ ap (λ (t : Bytes). t ++ later) (sym e))
                  (one.back (two.out ++ later)) in
            rw (moved two.result.buf two.appended) (two.back later);
      }

  -- The value that is returned at the end.
  pub Codes-map :
      (write : Writer → Written) (parse : Reader → Parsed A) (f : A → B) (x : A) (n : ℕ)
      → Codes A write parse x n
      → Codes B write (λ r. parse r >>= λ p. ok (f p.0, p.1)) (f x) n
  Codes-map write parse f x n codes w h =
      let one : RoundTrip A write parse x n w = codes w h in
      record {
        result = one.result;
        out = one.out;
        run = one.run;
        appended = one.appended;
        small = one.small;
        right = one.right;
        back = λ later. rw (one.back later);
      }

pub RoundTrip-widen :
    {A : Type 0} {write : Writer → Written} {parse : Reader → Parsed A} {x : A} {n m : ℕ}
    {w : Writer}
    → n ≤ m
    → RoundTrip A write parse x n w
    → RoundTrip A write parse x m w
RoundTrip-widen h t = record {
  result = t.result;
  out = t.out;
  run = t.run;
  appended = t.appended;
  small = omega (arith, t.small);
  right = t.right;
  back = t.back;
}

module _ {A : Type 0} {write : Writer → Written} {x : A} {n : ℕ} where
  -- `parse'` need only agree with a `parse` that reads `x` back.
  pub Codes-parse :
      (parse parse' : Reader → Parsed A)
      → ((r : Reader) → parse' r ≡ parse r)
      → Codes A write parse x n
      → Codes A write parse' x n
  Codes-parse parse parse' same codes w h =
      let t : RoundTrip A write parse x n w = codes w h in
      record {
        result = t.result;
        out = t.out;
        run = t.run;
        appended = t.appended;
        small = t.small;
        right = t.right;
        back = λ later. same _ ∙ t.back later;
      }

-- The end of a `do` block: nothing more is written or read.
pub Codes-return :
    {A : Type 0} (parse : Reader → Parsed A) (x : A)
    → ((r : Reader) → parse r ≡ ok (x, r))
    → Codes A (λ w. ok w) parse x 0
Codes-return parse x same w h = record {
  result = w;
  out = [];
  run = refl;
  appended = sym (append-nil w.buf);
  small = omega arith;
  right = h;
  back = λ later. same _;
}
