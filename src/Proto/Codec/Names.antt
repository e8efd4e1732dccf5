-- ===== src/Proto/Codec/Names.antt =====
-- `write_name` and `read_name` undo one another.
use dnser.Base.{arith, ◌≡◌, subst, List, ◌++◌}
use dnser.Base.Bytes.{Bytes}
use dnser.Proto.Codec.{Codes, RoundTrip, RoundTrip-widen}
use dnser.Proto.Name.{IsName, join_dots}
use dnser.Proto.Name.Read.{read_name-NameAt}
use dnser.Proto.Name.Stable.{NameAt-append}
use dnser.Proto.Reader.{read_name}
use dnser.Proto.Writer.{Writer, write_name, pos}
use dnser.Proto.Writer.Names.{wrote_name, WroteName}
use dnser.Proto.Writer.Offsets.{IsRight, wire_size, wire_size-le}

-- From a writer whose remembered names lie at their offsets, a name of valid labels, with 253 bytes
-- of text at most, is written in at most the bytes of its uncompressed form; `read_name`, at the
-- position where it was written, returns its text and stops where the writer stopped, whatever is
-- written later. The remembered names still lie at their offsets. All of this also where the name
-- ends in a compression pointer.
pub name-RoundTrip :
    (labels : List Bytes)
    → IsName labels
    → (w : Writer) → IsRight w
    → RoundTrip Bytes
        (write_name (join_dots labels))
        read_name
        (join_dots labels)
        (wire_size labels)
        w
name-RoundTrip labels valid w h =
    let n : WroteName labels w = wrote_name labels w valid.labels_valid h in
    record {
      result = n.result;
      out = n.out;
      run = n.run;
      appended = n.appended;
      small = n.small;
      right = n.right;
      back = λ later.
          read_name-NameAt (n.result.buf ++ later) (pos w) (NameAt-append later n.there) valid
            n.few;
    }

-- The text of a valid name.
pub record IsNameText (name : Bytes) : Type 0 where
  pub labels : List Bytes
  pub text : join_dots labels ≡ name
  pub valid : IsName labels

-- A name takes 255 bytes at most.
pub text_round_trip :
    (name : Bytes) → IsNameText name → Codes Bytes (write_name name) read_name name 255
text_round_trip name h =
    subst (λ (t : Bytes). Codes Bytes (write_name t) read_name t 255) h.text
      (λ w r.
        RoundTrip-widen (omega (arith, wire_size-le h.labels, h.valid.fits))
          (name-RoundTrip h.labels h.valid w r))
