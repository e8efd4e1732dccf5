-- ===== src/Proto/Record/Backfill.antt =====
-- The length of a record, which `write` reserves and fills in behind the data.
use dnser.Base.{
  ℕ, ◌+◌, ◌-◌, ◌/◌, ◌%◌, ◌^◌, ◌≡◌, refl, sym, ap, ◌∙◌, [], ◌∷◌, ◌++◌, length, ok, ◌>>=◌, arith, set,
  set-append, append_assoc, length-append, >>=-eq-ok,
}
use dnser.Base.Bytes.{Bytes, be16, IsU16}
use dnser.Proto.Rdata
use dnser.Proto.Rdata.{RData}
use dnser.Proto.Rdata.Uniform.{write-Uniform}
use dnser.Proto.Writer.{Writer, Written, pos, write_u16, reserve_u16, backfill_u16}
use dnser.Proto.Writer.Uniform.{Replay, rebuf, Uniform}

-- The end of `write`: the length is reserved, the data is written, the length is filled in.
unfoldable pub write_data : RData → Writer → Written
write_data rdata w = do
  let (rdlen_pos, w₅) = reserve_u16 w
  w₆ ← Rdata.write rdata w₅
  ok (backfill_u16 rdlen_pos ((pos w₆ - pos w₅) % 2 ^ 16) w₆)

backfill-reserved :
    (front out : Bytes) (n : ℕ) (w : Writer)
    → w.buf ≡ (front ++ be16 0) ++ out
    → backfill_u16 (length front) n w ≡ rebuf w ((front ++ be16 n) ++ out)
unfolding backfill_u16
backfill-reserved front out n w e =
    let hi : ℕ = n / 256 % 256 in
    let lo : ℕ = n % 256 in
    let whole : w.buf ≡ front ++ 0 ∷ 0 ∷ out = e ∙ append_assoc front (be16 0) out in
    let first : set w.buf (length front) hi ≡ front ++ hi ∷ 0 ∷ out =
      ap (λ (b : Bytes). set b (length front) hi) whole
      ∙ set-append front 0 hi (0 ∷ out) (length front) refl in
    let second : set (front ++ hi ∷ 0 ∷ out) (length front + 1) lo ≡ front ++ hi ∷ lo ∷ out =
      ap (λ (b : Bytes). set b (length front + 1) lo) (sym (append_assoc front (hi ∷ []) (0 ∷ out)))
      ∙ set-append (front ++ hi ∷ []) 0 lo out (length front + 1)
          (sym (length-append front (hi ∷ [])))
      ∙ append_assoc front (hi ∷ []) (lo ∷ out) in
    ap (λ (b : Bytes). rebuf w b)
      (ap (λ (b : Bytes). set b (length front + 1) lo) first
        ∙ second
        ∙ sym (append_assoc front (be16 n) out))

-- If a record's data, written behind a length of zero, takes `n` bytes, `n` below 2 ^ 16, then writing
-- it so and filling the length in afterwards leaves what writing `n` and then the data leaves.
pub backfill_is_direct :
    (rdata : RData) (w result : Writer) (n : ℕ)
    → Rdata.write rdata (write_u16 0 w) ≡ ok result
    → pos result ≡ pos w + 2 + n
    → IsU16 n
    → write_data rdata w ≡ Rdata.write rdata (write_u16 n w)
unfolding write_data
backfill_is_direct rdata w result n run size fits =
    let w₅ : Writer = write_u16 0 w in
    let there : Replay (Rdata.write rdata) w₅ (w.buf ++ be16 n) result =
      (write-Uniform rdata).replay w₅ (w.buf ++ be16 n) result
        (omega (arith, length-append w.buf (be16 0), length-append w.buf (be16 n))) run in
    let length_is_n : (pos result - pos w₅) % 2 ^ 16 ≡ n =
      omega (arith, length-append w.buf (be16 0)) in
    rw (run, length_is_n)
      (ap ok (backfill-reserved w.buf there.out n result there.appended) ∙ sym there.replayed)

-- The data takes as many bytes behind its length as behind zeros.
pub direct_length :
    (rdata : RData) (w result result' : Writer) (n : ℕ)
    → Rdata.write rdata (write_u16 0 w) ≡ ok result
    → pos result ≡ pos w + 2 + n
    → Rdata.write rdata (write_u16 n w) ≡ ok result'
    → pos result' ≡ pos w + 2 + n
direct_length rdata w result result' n run size run' =
    let there : Replay (Rdata.write rdata) (write_u16 0 w) (w.buf ++ be16 n) result =
      (write-Uniform rdata).replay (write_u16 0 w) (w.buf ++ be16 n) result
        (omega (arith, length-append w.buf (be16 0), length-append w.buf (be16 n))) run in
    let same : ◌≡◌ {A = Written} (ok result') (ok (rebuf result ((w.buf ++ be16 n) ++ there.out))) =
      sym run' ∙ there.replayed in
    let buffer : result'.buf ≡ (w.buf ++ be16 n) ++ there.out = ground (arith, same) in
    omega (
      arith,
      ap length buffer,
      ap length there.appended,
      length-append (w.buf ++ be16 n) there.out,
      length-append (w.buf ++ be16 0) there.out,
      length-append w.buf (be16 n),
      length-append w.buf (be16 0),
    )

-- So `write_data` too appends the same bytes over every buffer of the same length.
pub write_data-Uniform : (rdata : RData) → Uniform (write_data rdata)
unfolding write_data
write_data-Uniform rdata = record {
  replay = λ w buf result len e.
      let (w₆, p, q) = >>=-eq-ok (Rdata.write rdata (write_u16 0 w)) _ e in
      let there : Replay (Rdata.write rdata) (write_u16 0 w) (buf ++ be16 0) w₆ =
        (write-Uniform rdata).replay (write_u16 0 w) (buf ++ be16 0) w₆
          (omega (arith, len, length-append w.buf (be16 0), length-append buf (be16 0))) p in
      let n : ℕ = (pos w₆ - pos (write_u16 0 w)) % 2 ^ 16 in
      let here : backfill_u16 (pos w) n w₆ ≡ rebuf w₆ ((w.buf ++ be16 n) ++ there.out) =
        backfill-reserved w.buf there.out n w₆ there.appended in
      let end : result ≡ rebuf w₆ ((w.buf ++ be16 n) ++ there.out) = ground (arith, q, here) in
      let w₇ : Writer = rebuf w₆ ((buf ++ be16 0) ++ there.out) in
      let n_same : (pos w₇ - pos (write_u16 0 (rebuf w buf))) % 2 ^ 16 ≡ n = omega (
        arith,
        ap length there.appended,
        length-append (w.buf ++ be16 0) there.out,
        length-append (buf ++ be16 0) there.out,
      ) in
      record {
        out = be16 n ++ there.out;
        appended = ap (λ (t : Writer). t.buf) end ∙ append_assoc w.buf (be16 n) there.out;
        replayed =
            ap
              (λ (r : Written). r >>= λ w'. ok (
                backfill_u16 (length buf) ((pos w' - pos (write_u16 0 (rebuf w buf))) % 2 ^ 16) w'))
              there.replayed
            ∙ ap (λ (k : ℕ). ok (backfill_u16 (length buf) k w₇)) n_same
            ∙ ap ok (backfill-reserved buf there.out n w₇ refl)
            ∙ ap (λ (b : Bytes). ok (rebuf w₆ b)) (append_assoc buf (be16 n) there.out)
            ∙ ap (λ (t : Writer). ok (rebuf t (buf ++ (be16 n ++ there.out)))) (sym end);
      };
}
