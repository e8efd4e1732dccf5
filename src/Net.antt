-- ===== src/Net.antt =====
-- crates/dnser-net/src/framing.rs. The stream is the bytes that are still to come before the peer
-- closes it; `read_exact` either takes its bytes or finds the end. Other I/O errors are not modelled.
use dnser.Base.{
  ℕ, ◌+◌, ◌*◌, ◌^◌, ◌<◌, ◌≡◌, refl, ap, sym, ◌∙◌, Option, none, some, [], ◌∷◌, ◌++◌, length, take,
  drop, ltb, leb, ◌==◌, if◌then◌else◌, arith, take-append, drop-append, length-append, length-drop,
  le→ltb,
}
use dnser.Base.Bytes.{Bytes, be16, from_be_bytes, from_be_bytes-be16}

-- `read_exact`: `none` is `UnexpectedEof`.
unfoldable pub read_exact : ℕ → Bytes → Option (Bytes × Bytes)
read_exact n stream = if ltb (length stream) n then none else some (take n stream, drop n stream)

-- The body once its length is known; `Ok(None)` is `none`.
unfoldable pub read_body : ℕ → Bytes → Option (Bytes × Bytes)
read_body len stream = if len == 0 then none else read_exact len stream

unfoldable pub read_framed : Bytes → Option (Bytes × Bytes)
read_framed stream = elim (read_exact 2 stream) [
  | none ↦ none
  | some (len_buf, rest) ↦ read_body (from_be_bytes len_buf) rest
]

-- The bytes that are written; `none` is the error `InvalidData`.
unfoldable pub write_framed : Bytes → Option Bytes
write_framed msg = if leb (2 ^ 16) (length msg) then none else some (be16 (length msg) ++ msg)

read_exact-append :
    (xs ys : Bytes) (n : ℕ) → n ≡ length xs → read_exact n (xs ++ ys) ≡ some (xs, ys)
unfolding read_exact
read_exact-append xs ys n e =
    rw
      (
        le→ltb (length (xs ++ ys)) n (omega (arith, length-append xs ys)),
        take-append xs ys n e,
        drop-append xs ys n e,
      )
      refl

read_framed_step :
    (stream len_buf rest : Bytes)
    → read_exact 2 stream ≡ some (len_buf, rest)
    → read_framed stream ≡ read_body (from_be_bytes len_buf) rest
unfolding read_framed
read_framed_step stream len_buf rest e =
    ap
      (λ (o : Option (Bytes × Bytes)). elim o [
        | none ↦ none
        | some (l, r) ↦ read_body (from_be_bytes l) r
      ])
      e

read_body-append :
    (msg later : Bytes)
    → read_body (length msg) (msg ++ later) ≡ (if length msg == 0 then none else some (msg, later))
unfolding read_body
read_body-append msg later = rw (read_exact-append msg later (length msg) refl) refl

write_framed_inv :
    (msg frame : Bytes)
    → write_framed msg ≡ some frame
    → (length msg < 2 ^ 16) × (frame ≡ be16 (length msg) ++ msg)
unfolding write_framed
write_framed_inv msg frame e = (ground arith, ground arith)

-- A message that is framed is read back whole, and what follows it stays on the stream; an empty
-- message is read as the end of the stream.
pub read_framed-write_framed :
    (msg frame later : Bytes)
    → write_framed msg ≡ some frame
    → read_framed (frame ++ later) ≡ (if length msg == 0 then none else some (msg, later))
read_framed-write_framed msg frame later e =
    let (small, whole) = write_framed_inv msg frame e in
    ap (λ (f : Bytes). read_framed (f ++ later)) whole
    ∙ read_framed_step _ (be16 (length msg)) (msg ++ later)
        (read_exact-append (be16 (length msg)) (msg ++ later) 2 refl)
    ∙ ap (λ (n : ℕ). read_body n (msg ++ later)) (from_be_bytes-be16 (length msg) small)
    ∙ read_body-append msg later

read_body_short : (n : ℕ) (rest : Bytes) → length rest < n → read_body n rest ≡ none
unfolding read_body read_exact
read_body_short n rest h = ground arith

-- A stream that ends inside the frame of a message is read as one that ends before it.
pub read_framed_cut :
    (msg frame cut : Bytes) (missing : ℕ) (lost : Bytes)
    → write_framed msg ≡ some frame
    → frame ≡ cut ++ missing ∷ lost
    → read_framed cut ≡ none
unfolding read_framed read_exact
read_framed_cut msg frame [] missing lost e h = refl
read_framed_cut msg frame (a ∷ []) missing lost e h = refl
read_framed_cut msg frame (a ∷ b ∷ rest) missing lost e h =
    let (small, whole) = write_framed_inv msg frame e in
    let size : length rest < length msg =
      omega (arith, ap length (sym whole ∙ h), length-append rest (missing ∷ lost)) in
    let first : a * 256 + b ≡ length msg = ground (arith, sym whole ∙ h, small) in
    read_framed_step (a ∷ b ∷ rest) (a ∷ b ∷ []) rest (read_exact-append (a ∷ b ∷ []) rest 2 refl)
    ∙ read_body_short (from_be_bytes (a ∷ b ∷ [])) rest (omega (arith, first, size))

-- A frame takes bytes of the stream.
pub read_framed-shorter :
    (stream body rest : Bytes)
    → read_framed stream ≡ some (body, rest)
    → length rest < length stream
unfolding read_framed read_body read_exact
read_framed-shorter stream body rest e =
    ground
      (arith, e, length-drop 2 stream, length-drop (from_be_bytes (take 2 stream)) (drop 2 stream))
