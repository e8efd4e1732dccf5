-- ===== src/Proto/Reader/Termination.antt =====
-- The loop of `read_name` ends: every round follows one of at most 128 jumps or lengthens a name of
-- at most 253 bytes.
use dnser.Base.{
  ℕ, zero, suc, ◌+◌, ◌-◌, ◌≤◌, ◌<◌, ◌≡◌, ◌≢◌, [], ◌∷◌, length, arith, ok, stuck, >>=-ne-stuck,
  get_elem?, length-append, length-take, length-drop, take, drop, Option-cases, inl, inr,
}
use dnser.Base.Bytes.{Bytes}
use dnser.Proto.Utf8.{from_utf8_cases}
use dnser.Proto.Reader.{
  Reader, NameState, continue_with, break_with, max_jumps, max_name_len, name_fuel, follow_pointer,
  take_label, on_byte, name_round, name_loop, read_name, start_state, push_dot, read_u8, read_u16,
  read_u32, read_bytes,
}

-- The rounds that are left at most.
rounds_left : NameState → ℕ
rounds_left s = (max_jumps - s.jumps) + (max_name_len + 1 - length s.name)

pub length-push_dot : (name : Bytes) → length name ≤ length (push_dot name)
length-push_dot [] = omega arith
length-push_dot (b ∷ bs) = omega (arith, length-append {0} bs (b'.' ∷ []))

take_label_decreases :
    (buf : Bytes) (s s' : NameState) (len : ℕ)
    → 0 < len
    → take_label buf s len ≡ ok (continue_with s')
    → (s'.jumps ≡ s.jumps) × (length s.name < length s'.name) × (length s'.name ≤ max_name_len)
unfolding take_label
take_label_decreases buf s s' len h e = ground (
  arith,
  from_utf8_cases (take len (drop (s.pos + 1) buf)),
  length-take len (drop (s.pos + 1) buf),
  length-drop (s.pos + 1) buf,
  length-push_dot s.name,
  length-append (push_dot s.name) (take len (drop (s.pos + 1) buf)),
)

follow_pointer_decreases :
    (buf : Bytes) (s s' : NameState) (byte : ℕ)
    → follow_pointer buf s byte ≡ ok (continue_with s')
    → (s'.jumps ≡ s.jumps + 1) × (s'.name ≡ s.name)
unfolding follow_pointer
follow_pointer_decreases buf s s' byte e = ground arith

name_round_decreases :
    (buf : Bytes) (s s' : NameState)
    → name_round buf s ≡ ok (continue_with s')
    → rounds_left s' < rounds_left s
unfolding name_round on_byte rounds_left
name_round_decreases buf s s' e = elim (Option-cases (get_elem? buf s.pos)) [
  | inl p ↦ absurd (ground arith)
  | inr (byte, p) ↦
      ground (arith, follow_pointer_decreases buf s s' byte, take_label_decreases buf s s' byte)
]

take_label-ne-stuck : (buf : Bytes) (s : NameState) (len : ℕ) → take_label buf s len ≢ stuck
unfolding take_label
take_label-ne-stuck buf s len = ground (arith, from_utf8_cases (take len (drop (s.pos + 1) buf)))

follow_pointer-ne-stuck : (buf : Bytes) (s : NameState) (b : ℕ) → follow_pointer buf s b ≢ stuck
unfolding follow_pointer
follow_pointer-ne-stuck buf s b = ground arith

name_round-ne-stuck : (buf : Bytes) (s : NameState) → name_round buf s ≢ stuck
unfolding name_round on_byte
name_round-ne-stuck buf s = elim (Option-cases (get_elem? buf s.pos)) [
  | inl p ↦ ground arith
  | inr (b, p) ↦ ground (arith, follow_pointer-ne-stuck buf s b, take_label-ne-stuck buf s b)
]

name_loop-ne-stuck :
    (fuel : ℕ) (buf : Bytes) (s : NameState) → rounds_left s < fuel → name_loop fuel buf s ≢ stuck
unfolding name_loop
name_loop-ne-stuck zero buf s h = absurd (omega arith)
name_loop-ne-stuck (suc fuel) buf s h =
    >>=-ne-stuck (name_round buf s) _ (name_round-ne-stuck buf s) (elim [
      | continue_with s' ↦
          λ e. name_loop-ne-stuck fuel buf s' (omega (arith, name_round_decreases buf s s' e))
      | break_with s' ↦ λ e. λ p. cc
    ])

-- On every buffer and from every position, compression loops included, `read_name` ends with a name
-- or an error: its fuel never runs out.
pub read_name-ne-stuck : (r : Reader) → read_name r ≢ stuck
unfolding read_name rounds_left start_state
read_name-ne-stuck r =
    ground (arith, name_loop-ne-stuck name_fuel r.buf (start_state r) (omega arith))

pub read_u8-ne-stuck : (r : Reader) → read_u8 r ≢ stuck
unfolding read_u8
read_u8-ne-stuck r = ground arith

pub read_u16-ne-stuck : (r : Reader) → read_u16 r ≢ stuck
unfolding read_u16
read_u16-ne-stuck r = ground arith

pub read_u32-ne-stuck : (r : Reader) → read_u32 r ≢ stuck
unfolding read_u32
read_u32-ne-stuck r = ground arith

pub read_bytes-ne-stuck : (r : Reader) (n : ℕ) → read_bytes r n ≢ stuck
unfolding read_bytes
read_bytes-ne-stuck r n = ground arith
