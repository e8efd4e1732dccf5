-- ===== src/Proto/Codec/Words.antt =====
-- The fixed-size fields and byte strings are read back.
use dnser.Base.{
  ℕ, ◌+◌, ◌%◌, ◌≡◌, refl, sym, subst, [], ◌∷◌, ◌++◌, length, ok, append_assoc, arith, drop,
  drop-append, take-append, length-append, some, get_elem?_of_drop,
}
use dnser.Base.Bytes.{
  Bytes, be16, be32, IsU16, IsU32, slice, slice_of_drop, from_be_bytes-be16, from_be_bytes-be32,
  IsByte,
}
use dnser.Proto.Codec.{Codes, RoundTrip, reader_at}
use dnser.Proto.Reader.{Reader, Parsed, read_u8, read_u16, read_u32, read_bytes}
use dnser.Proto.Writer.{Writer, put, pos, write_u8, write_u16, write_u32, write_bytes}
use dnser.Proto.Writer.Offsets.{IsRight, put-IsRight}

-- What was put is ahead of the reader.
pub ahead_of_put :
    (bs later : Bytes) (w : Writer) → drop (pos w) ((w.buf ++ bs) ++ later) ≡ bs ++ later
ahead_of_put bs later w = rw append_assoc (drop-append w.buf (bs ++ later) (pos w) refl)

slice_of_put :
    (bs later : Bytes) (w : Writer) (n : ℕ)
    → n ≡ length bs
    → slice ((w.buf ++ bs) ++ later) (pos w) n ≡ some bs
slice_of_put bs later w n e =
    slice_of_drop _ (pos w) n bs later (ahead_of_put bs later w) e
      (omega (arith, length-append (w.buf ++ bs) later, length-append w.buf bs))

-- A `put` is undone by a method that returns `x` from those bytes and moves past them.
put-RoundTrip :
    {A : Type 0} (bs : Bytes) (parse : Reader → Parsed A) (x : A) (w : Writer)
    → IsRight w
    → ((later : Bytes)
        → parse (reader_at (w.buf ++ bs) later (pos w))
          ≡ ok (x, reader_at (w.buf ++ bs) later (pos w + length bs)))
    → RoundTrip A (λ v. ok (put bs v)) parse x (length bs) w
put-RoundTrip {A} bs parse x w h back = record {
  result = put bs w;
  out = bs;
  run = refl;
  appended = refl;
  small = omega arith;
  right = put-IsRight bs w h;
  back = λ later.
      subst
        (λ p.
          parse (reader_at (w.buf ++ bs) later (pos w)) ≡ ok (x, reader_at (w.buf ++ bs) later p))
        (sym (length-append w.buf bs)) (back later);
}

pub u8_round_trip : (v : ℕ) → IsByte v → Codes ℕ (λ w. ok (write_u8 v w)) read_u8 v 1
unfolding read_u8
u8_round_trip v small w h =
    let byte : v % 256 ≡ v = omega arith in
    put-RoundTrip ((v % 256) ∷ []) read_u8 v w h
      (λ later. rw (get_elem?_of_drop (pos w) _ (ahead_of_put ((v % 256) ∷ []) later w), byte))

pub u16_round_trip : (v : ℕ) → IsU16 v → Codes ℕ (λ w. ok (write_u16 v w)) read_u16 v 2
unfolding read_u16
u16_round_trip v small w h =
    put-RoundTrip (be16 v) read_u16 v w h
      (λ later. rw (slice_of_put (be16 v) later w 2 refl, from_be_bytes-be16 v small))

pub u32_round_trip : (v : ℕ) → IsU32 v → Codes ℕ (λ w. ok (write_u32 v w)) read_u32 v 4
unfolding read_u32
u32_round_trip v small w h =
    put-RoundTrip (be32 v) read_u32 v w h
      (λ later. rw (slice_of_put (be32 v) later w 4 refl, from_be_bytes-be32 v small))

pub bytes_round_trip :
    (bs : Bytes)
    → Codes Bytes (λ w. ok (write_bytes bs w)) (λ r. read_bytes r (length bs)) bs (length bs)
unfolding read_bytes
bytes_round_trip bs w h =
    put-RoundTrip bs (λ r. read_bytes r (length bs)) bs w h
      (λ later.
        rw (ahead_of_put bs later w, take-append bs later (length bs) refl)
          (ground (arith, length-append (w.buf ++ bs) later, length-append w.buf bs)))
