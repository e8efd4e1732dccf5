-- ===== src/Proto/Reader/Safety.antt =====
-- Bounds: a method of the reader that succeeds leaves the buffer alone, does not go back, and stays
-- inside the buffer. So `r.pos() - start` in rdata.rs does not underflow.
use dnser.Base.{
  ℕ, zero, suc, ◌+◌, ◌≤◌, ◌<◌, ◌≡◌, true, false, length, arith, ok, >>=-eq-ok, get_elem?,
  length-take, length-drop, take, drop, Option-cases, inl, inr, get_elem?_bounds,
}
use dnser.Base.Bytes.{Bytes, slice, slice_bounds}
use dnser.Proto.Utf8.{from_utf8_cases}
use dnser.Proto.Reader.{
  Reader, NameState, continue_with, break_with, max_name_len, name_fuel, follow_pointer,
  start_state, take_label, on_byte, name_round, name_loop, proceed, read_name, read_u8, read_u16,
  read_u32, read_bytes,
}

pub record Advances (r r' : Reader) : Type 0 where
  pub same_buf : r'.buf ≡ r.buf
  pub forward : r.pos ≤ r'.pos
  pub within : r'.pos ≤ length r.buf

pub Advances-trans : {r s t : Reader} → Advances r s → Advances s t → Advances r t
Advances-trans h k = ground arith

pub read_u8-Advances : (r : Reader) {b : ℕ} {r' : Reader} → read_u8 r ≡ ok (b, r') → Advances r r'
unfolding read_u8
read_u8-Advances r {b} {r'} e = elim (Option-cases (get_elem? r.buf r.pos)) [
  | inl p ↦ absurd (ground arith)
  | inr (x, p) ↦ ground (arith, get_elem?_bounds r.pos r.buf p)
]

pub read_u16-Advances : (r : Reader) {v : ℕ} {r' : Reader} → read_u16 r ≡ ok (v, r') → Advances r r'
unfolding read_u16
read_u16-Advances r e = elim (Option-cases (slice r.buf r.pos 2)) [
  | inl p ↦ absurd (ground arith)
  | inr (x, p) ↦ ground (arith, slice_bounds r.buf r.pos 2 p)
]

pub read_u32-Advances : (r : Reader) {v : ℕ} {r' : Reader} → read_u32 r ≡ ok (v, r') → Advances r r'
unfolding read_u32
read_u32-Advances r e = elim (Option-cases (slice r.buf r.pos 4)) [
  | inl p ↦ absurd (ground arith)
  | inr (x, p) ↦ ground (arith, slice_bounds r.buf r.pos 4 p)
]

-- A `read_bytes` that succeeds returns as many bytes as it was asked for.
pub read_bytes-Advances :
    (r : Reader) (n : ℕ) {bs : Bytes} {r' : Reader}
    → read_bytes r n ≡ ok (bs, r')
    → Advances r r' × (r'.pos ≡ r.pos + n) × (length bs ≡ n)
unfolding read_bytes
read_bytes-Advances r n e =
    ground (arith, length-take n (drop r.pos r.buf), length-drop r.pos r.buf)

-- The loop of `read_name` that began at `start`: what it will leave as the position lies ahead.
record IsName (buf : Bytes) (start : ℕ) (s : NameState) : Type 0 where
  short : length s.name ≤ max_name_len
  ahead : s.jumped ≡ false → start ≤ s.pos
  left : s.jumped ≡ true → (start < s.resume) × (s.resume ≤ length buf)

module _ (buf : Bytes) (start : ℕ) {s s' : NameState} (h : IsName buf start s) where
  take_label-IsName : (len : ℕ) → take_label buf s len ≡ ok (continue_with s') → IsName buf start s'
  unfolding take_label
  take_label-IsName len e =
      ground (arith, from_utf8_cases (take len (drop (s.pos + 1) buf)), h.ahead, h.left)

  follow_pointer-IsName :
      (byte : ℕ) → follow_pointer buf s byte ≡ ok (continue_with s') → IsName buf start s'
  unfolding follow_pointer
  follow_pointer-IsName byte e = elim (Option-cases (get_elem? buf (s.pos + 1))) [
    | inl p ↦ absurd (ground arith)
    | inr (b, p) ↦ ground (arith, get_elem?_bounds (s.pos + 1) buf p, h.ahead, h.left)
  ]

  name_round-IsName : name_round buf s ≡ ok (continue_with s') → IsName buf start s'
  unfolding name_round on_byte
  name_round-IsName e = elim (Option-cases (get_elem? buf s.pos)) [
    | inl p ↦ absurd (ground arith)
    | inr (b, p) ↦ ground (arith, take_label-IsName b, follow_pointer-IsName b)
  ]

  name_round_leaves :
      name_round buf s ≡ ok (break_with s')
      → (start < s'.resume) × (s'.resume ≤ length buf) × (length s'.name ≤ max_name_len)
  unfolding name_round on_byte take_label follow_pointer
  name_round_leaves e = elim (Option-cases (get_elem? buf s.pos)) [
    | inl p ↦ absurd (ground arith)
    | inr (b, p) ↦ ground (
      arith,
      get_elem?_bounds s.pos buf p,
      h.ahead,
      h.left,
      from_utf8_cases (take b (drop (s.pos + 1) buf)),
    )
  ]

name_loop_leaves :
    (fuel : ℕ) (buf : Bytes) (start : ℕ) (s s' : NameState)
    → IsName buf start s
    → name_loop fuel buf s ≡ ok s'
    → (start < s'.resume) × (s'.resume ≤ length buf) × (length s'.name ≤ max_name_len)
unfolding name_loop
name_loop_leaves zero buf start s s' h e = absurd (ground arith)
name_loop_leaves (suc fuel) buf start s s' h e =
    let (flow, p, q) = >>=-eq-ok (name_round buf s) (proceed (name_loop fuel buf)) e in
    (elim flow
        as (λ f.
          name_round buf s ≡ ok f
          → proceed (name_loop fuel buf) f ≡ ok s'
          → (start < s'.resume) × (s'.resume ≤ length buf) × (length s'.name ≤ max_name_len)) [
            | continue_with t ↦
                λ p' q'. name_loop_leaves fuel buf start t s' (name_round-IsName buf start h p') q'
            | break_with t ↦ λ p' q'. ground (arith, name_round_leaves buf start h p')
          ])
      p q

-- A name that `read_name` accepts has at most 253 bytes, and the position moves on inside the buffer,
-- also where the name was compressed.
pub read_name_bounds :
    (r : Reader) {name : Bytes} {r' : Reader}
    → read_name r ≡ ok (name, r')
    → Advances r r' × (r.pos < r'.pos) × (length name ≤ max_name_len)
unfolding read_name start_state
read_name_bounds r {name} {r'} e =
    let (s, p, q) = >>=-eq-ok (name_loop name_fuel r.buf (start_state r)) _ e in
    let first : IsName r.buf r.pos (start_state r) = record {
      short = omega arith;
      ahead = λ _. omega arith;
      left = λ j. absurd (ground arith);
    } in
    ground (arith, name_loop_leaves name_fuel r.buf r.pos (start_state r) s first p)
