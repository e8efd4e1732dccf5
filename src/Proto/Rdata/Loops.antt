-- ===== src/Proto/Rdata/Loops.antt =====
-- The loops of TXT and OPT records read back what the writer's loops wrote.
use dnser.Base.{
  ℕ, zero, suc, ◌+◌, ◌-◌, ◌%◌, ◌^◌, ◌≤◌, ◌<◌, ◌≡◌, sym, ap, ◌∙◌, List, [], ◌∷◌, ◌++◌, length, drop,
  ok, All, arith, append_assoc, append-nil, length-append, le→ltb, le→leb, ==-pos,
}
use dnser.Base.Bytes.{Bytes, be16, IsU16}
use dnser.Proto.Rdata.{EdnsOption, txt_loop, opt_loop, write_chunks, write_options}
use dnser.Proto.Reader.{Reader, advance}
use dnser.Proto.Reader.Ahead.{drop_advance, read_u8_ahead, read_u16_ahead, read_bytes_ahead}
use dnser.Proto.Writer.{Writer, put}

-- What goes over the wire.
abbrev pub chunks_bytes : List Bytes → Bytes
chunks_bytes [] = []
chunks_bytes (chunk ∷ chunks) = (length chunk ∷ chunk) ++ chunks_bytes chunks

abbrev pub IsChunk : Bytes → Type 0
IsChunk chunk = length chunk ≤ 255

put-nil : (w : Writer) → put [] w ≡ w
put-nil w = ap (λ (b : Bytes). record w { buf = b }) (append-nil w.buf)

pub write_chunks-bytes :
    (chunks : List Bytes) (w : Writer)
    → All IsChunk chunks
    → write_chunks chunks w ≡ ok (put (chunks_bytes chunks) w)
unfolding write_chunks
write_chunks-bytes [] w h = ap ok (sym (put-nil w))
write_chunks-bytes (chunk ∷ chunks) w (h, hs) =
    let byte : length chunk % 256 ≡ length chunk = omega arith in
    rw (le→ltb 255 (length chunk) h, byte)
      (write_chunks-bytes chunks _ hs
        ∙ ap (λ (b : Bytes). ok (record w { buf = b })) (simp append_assoc))

-- One round of the loop over a TXT record.
txt_round :
    (fuel : ℕ) (r : Reader) (remaining : ℕ) (acc : List Bytes) (chunk rest : Bytes)
    → drop r.pos r.buf ≡ length chunk ∷ (chunk ++ rest)
    → r.pos + 1 + length chunk ≤ length r.buf
    → 1 + length chunk ≤ remaining
    → txt_loop (suc fuel) r remaining acc
      ≡ txt_loop fuel
          (record r { pos = r.pos + 1 + length chunk })
          (remaining - (1 + length chunk))
          (acc ++ chunk ∷ [])
unfolding txt_loop
txt_round fuel r remaining acc chunk rest e inside left =
    let next : drop (r.pos + 1) r.buf ≡ chunk ++ rest =
      drop_advance r (length chunk ∷ []) (chunk ++ rest) e in
    rw (
      ==-pos remaining (omega arith),
      txt_loop,
      read_u8_ahead r (length chunk) (chunk ++ rest) e,
      le→leb (1 + length chunk) remaining left,
      read_bytes_ahead (advance r 1) chunk rest next (omega arith),
    )

-- The loop takes the chunks that fill what remains, and stops behind them.
pub txt_loop-chunks :
    (chunks : List Bytes) (fuel remaining : ℕ) (acc : List Bytes) (r : Reader) (later : Bytes)
    → remaining ≡ length (chunks_bytes chunks)
    → remaining < fuel
    → drop r.pos r.buf ≡ chunks_bytes chunks ++ later
    → r.pos + remaining ≤ length r.buf
    → txt_loop fuel r remaining acc ≡ ok (acc ++ chunks, advance r remaining)
txt_loop-chunks chunks zero remaining acc r later all enough e inside = absurd (omega arith)
txt_loop-chunks [] (suc fuel) zero acc r later all enough e inside =
    unfold txt_loop in ground (arith, append-nil acc)
txt_loop-chunks [] (suc fuel) (suc remaining) acc r later all enough e inside = absurd (omega arith)
txt_loop-chunks (chunk ∷ chunks) (suc fuel) remaining acc r later all enough e inside =
    let rest : Bytes = chunks_bytes chunks ++ later in
    let r' : Reader = record r { pos = r.pos + 1 + length chunk } in
    let size : length ((length chunk ∷ chunk) ++ chunks_bytes chunks)
        ≡ suc (length chunk) + length (chunks_bytes chunks) =
      length-append (length chunk ∷ chunk) (chunks_bytes chunks) in
    let e' : drop r.pos r.buf ≡ length chunk ∷ (chunk ++ rest) =
      e ∙ append_assoc (length chunk ∷ chunk) (chunks_bytes chunks) later in
    let next : drop r'.pos r.buf ≡ rest =
      ap (λ (n : ℕ). drop n r.buf) (omega arith) ∙ drop_advance r (length chunk ∷ chunk) rest e' in
    txt_round fuel r remaining acc chunk rest e' (omega arith) (omega arith)
    ∙ txt_loop-chunks chunks fuel (remaining - (1 + length chunk)) (acc ++ chunk ∷ []) r' later
        (omega arith) (omega arith) next (omega arith)
    ∙ ground (arith, append_assoc acc (chunk ∷ []) chunks)

abbrev pub options_bytes : List EdnsOption → Bytes
options_bytes [] = []
options_bytes (option ∷ options) =
    (be16 option.code ++ be16 (length option.payload) ++ option.payload) ++ options_bytes options

pub record IsOption (option : EdnsOption) : Type 0 where
  pub code_fits : IsU16 option.code
  pub length_fits : IsU16 (length option.payload)

pub write_options-bytes :
    (options : List EdnsOption) (w : Writer)
    → All IsOption options
    → write_options options w ≡ put (options_bytes options) w
unfolding write_options
write_options-bytes [] w h = sym (put-nil w)
write_options-bytes (option ∷ options) w (h, hs) =
    let size : length option.payload % 2 ^ 16 ≡ length option.payload =
      omega (arith, h.length_fits) in
    rw size (
      write_options-bytes options _ hs
      ∙ ap (λ (b : Bytes). record w { buf = b }) (simp append_assoc))

-- One round of the loop over an OPT record.
opt_round :
    (fuel : ℕ) (r : Reader) (remaining : ℕ) (acc : List EdnsOption) (option : EdnsOption)
    (rest : Bytes)
    → IsOption option
    → drop r.pos r.buf
      ≡ be16 option.code ++ (be16 (length option.payload) ++ (option.payload ++ rest))
    → r.pos + 4 + length option.payload ≤ length r.buf
    → 4 + length option.payload ≤ remaining
    → opt_loop (suc fuel) r remaining acc
      ≡ opt_loop fuel
          (record r { pos = r.pos + 2 + 2 + length option.payload })
          (remaining - (4 + length option.payload))
          (acc ++ option ∷ [])
unfolding opt_loop
opt_round fuel r remaining acc option rest h e inside left =
    let n : ℕ = length option.payload in
    let at_len : drop (r.pos + 2) r.buf ≡ be16 n ++ (option.payload ++ rest) =
      drop_advance r (be16 option.code) (be16 n ++ (option.payload ++ rest)) e in
    let at_payload : drop (r.pos + 2 + 2) r.buf ≡ option.payload ++ rest =
      drop_advance (advance r 2) (be16 n) (option.payload ++ rest) at_len in
    rw (
      ==-pos remaining (omega arith),
      opt_loop,
      read_u16_ahead r option.code (be16 n ++ (option.payload ++ rest)) h.code_fits e,
      read_u16_ahead (advance r 2) n (option.payload ++ rest) h.length_fits at_len,
      le→leb (4 + n) remaining left,
      read_bytes_ahead (advance (advance r 2) 2) option.payload rest at_payload (omega arith),
    )

-- The loop takes the options that fill what remains, and stops behind them.
pub opt_loop-options :
    (options : List EdnsOption) (fuel remaining : ℕ) (acc : List EdnsOption) (r : Reader)
    (later : Bytes)
    → All IsOption options
    → remaining ≡ length (options_bytes options)
    → remaining < fuel
    → drop r.pos r.buf ≡ options_bytes options ++ later
    → r.pos + remaining ≤ length r.buf
    → opt_loop fuel r remaining acc ≡ ok (acc ++ options, advance r remaining)
opt_loop-options options zero remaining acc r later valid all enough e inside = absurd (omega arith)
opt_loop-options [] (suc fuel) zero acc r later valid all enough e inside =
    unfold opt_loop in ground (arith, append-nil acc)
opt_loop-options [] (suc fuel) (suc remaining) acc r later valid all enough e inside =
    absurd (omega arith)
opt_loop-options (option ∷ options) (suc fuel) remaining acc r later (h, hs) all enough e inside =
    let n : ℕ = length option.payload in
    let first : Bytes = be16 option.code ++ be16 n ++ option.payload in
    let rest : Bytes = options_bytes options ++ later in
    let r' : Reader = record r { pos = r.pos + 2 + 2 + n } in
    let size : length (first ++ options_bytes options)
        ≡ length first + length (options_bytes options) =
      length-append first (options_bytes options) in
    let e' : drop r.pos r.buf ≡ first ++ rest =
      e ∙ append_assoc first (options_bytes options) later in
    let next : drop r'.pos r.buf ≡ rest =
      ap (λ (k : ℕ). drop k r.buf) (omega arith) ∙ drop_advance r first rest e' in
    opt_round fuel r remaining acc option rest h e' (omega arith) (omega arith)
    ∙ opt_loop-options options fuel (remaining - (4 + n)) (acc ++ option ∷ []) r' later hs
        (omega arith) (omega arith) next (omega arith)
    ∙ ground (arith, append_assoc acc (option ∷ []) options)
