-- ===== src/Proto/Reader/Ahead.antt =====
-- What the reading methods return where the bytes ahead are known.
use dnser.Base.{
  ℕ, ◌+◌, ◌≤◌, ◌≡◌, refl, sym, ap, ◌∙◌, ◌∷◌, ◌++◌, length, drop, ok, arith, drop-drop, drop-append,
  take-append, length-append, length-drop, get_elem?_of_drop,
}
use dnser.Base.Bytes.{Bytes, be16, IsU16, slice_of_drop, from_be_bytes-be16}
use dnser.Proto.Reader.{Reader, read_u8, read_u16, read_bytes, advance}

module _ (r : Reader) where
  pub drop_advance :
      (xs ys : Bytes) → drop r.pos r.buf ≡ xs ++ ys → drop (r.pos + length xs) r.buf ≡ ys
  drop_advance xs ys e =
      sym (drop-drop r.pos (length xs) (r.pos + length xs) r.buf refl)
      ∙ ap (drop (length xs)) e
      ∙ drop-append xs ys (length xs) refl

  pub read_u8_ahead :
      (b : ℕ) (ys : Bytes) → drop r.pos r.buf ≡ b ∷ ys → read_u8 r ≡ ok (b, advance r 1)
  unfolding read_u8
  read_u8_ahead b ys e = rw (get_elem?_of_drop r.pos r.buf e)

  pub read_u16_ahead :
      (v : ℕ) (ys : Bytes)
      → IsU16 v
      → drop r.pos r.buf ≡ be16 v ++ ys
      → read_u16 r ≡ ok (v, advance r 2)
  unfolding read_u16
  read_u16_ahead v ys h e =
      rw (slice_of_drop r.buf r.pos 2 (be16 v) ys e refl inside, from_be_bytes-be16 v h)
    where
      inside : r.pos ≤ length r.buf
      inside = omega (arith, length-drop r.pos r.buf, ap length e)

  pub read_bytes_ahead :
      (xs ys : Bytes)
      → drop r.pos r.buf ≡ xs ++ ys
      → r.pos ≤ length r.buf
      → read_bytes r (length xs) ≡ ok (xs, advance r (length xs))
  unfolding read_bytes
  read_bytes_ahead xs ys e h =
      rw (e, take-append xs ys (length xs) refl)
        (ground (arith, length-drop r.pos r.buf, ap length e, length-append xs ys))
