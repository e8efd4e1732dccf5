-- ===== src/Proto/Reader.antt =====
-- crates/dnser-proto/src/reader.rs. A method takes the reader and returns its value with the reader
-- after it; an error drops the reader, as `?` does in every caller. A `String` is its UTF-8 bytes.
pub mod Termination
pub mod Safety
pub mod Ahead
use dnser.Base.{
  ℕ, zero, suc, ◌+◌, ◌*◌, ◌^◌, ◌≡◌, refl, Bool, true, false, ◌&&◌, Option, none, some, List, [],
  ◌∷◌, ◌++◌, length, get_elem?, take, drop, ltb, leb, ◌==◌, if◌then◌else◌, Result, ok, err, stuck,
  ◌>>=◌, map_err, bit_and, bit_or, is_empty,
}
use dnser.Base.Bytes.{Bytes, slice, from_be_bytes}
use dnser.Proto.Errors.{
  ParseError, unexpected_eof, invalid_pointer, pointer_loop, name_too_long, invalid_utf8,
}
use dnser.Proto.Utf8.{from_utf8}

pub record Reader : Type 0 where
  pub buf : Bytes
  pub pos : ℕ

-- What a parsing method returns.
abbrev pub Parsed {ℓ} : Type ℓ → Type ℓ
Parsed A = Result ParseError (A × Reader)

-- `.ok_or(ParseError::UnexpectedEof)`
abbrev pub or_eof {ℓ} : {A : Type ℓ} → Option A → Result ParseError A
or_eof none = err unexpected_eof
or_eof (some x) = ok x

unfoldable pub new : Bytes → Reader
new buf = record { buf = buf; pos = 0 }

abbrev pub advance : Reader → ℕ → Reader
advance r n = record r { pos = r.pos + n }

unfoldable pub read_u8 : Reader → Parsed ℕ
read_u8 r = do b ← or_eof (get_elem? r.buf r.pos); ok (b, advance r 1)

unfoldable pub read_u16 : Reader → Parsed ℕ
read_u16 r = do s ← or_eof (slice r.buf r.pos 2); ok (from_be_bytes s, advance r 2)

unfoldable pub read_u32 : Reader → Parsed ℕ
read_u32 r = do s ← or_eof (slice r.buf r.pos 4); ok (from_be_bytes s, advance r 4)

unfoldable pub read_bytes : Reader → ℕ → Parsed Bytes
read_bytes r n =
    if ltb (length r.buf) (r.pos + n)
    then err unexpected_eof
    else ok (take n (drop r.pos r.buf), advance r n)

abbrev pub max_jumps : ℕ
max_jumps = 128

abbrev pub max_name_len : ℕ
max_name_len = 253

-- The variables of the loop of `read_name`; `resume` is `self.pos`.
pub record NameState : Type 0 where
  pub name : Bytes
  pub pos : ℕ
  pub jumped : Bool
  pub jumps : ℕ
  pub resume : ℕ

-- `if !jumped { self.pos = p }`
abbrev pub leave_at : NameState → ℕ → ℕ
leave_at s p = if s.jumped then s.resume else p

-- `Continue` goes round the loop again, `Break` leaves it.
pub data Flow : Type 0 where
  continue_with : NameState → Flow
  break_with : NameState → Flow

-- The branch of a compression pointer; `byte` is its first byte.
unfoldable pub follow_pointer : Bytes → NameState → ℕ → Result ParseError Flow
follow_pointer buf s byte = do
  low ← or_eof (get_elem? buf (s.pos + 1))
  let offset = bit_or (bit_and byte 0b0011_1111 * 2 ^ 8) low
  if leb (length buf) offset
      then err invalid_pointer
      else ok (
          continue_with (record s {
            pos = offset;
            jumped = true;
            jumps = s.jumps + 1;
            resume = leave_at s (s.pos + 2);
          }))

-- The name with a dot pushed, unless it is empty.
abbrev pub push_dot : Bytes → Bytes
push_dot name = if is_empty name then name else name ++ (b'.' ∷ [])

-- The branch of a label of `len` bytes.
unfoldable pub take_label : Bytes → NameState → ℕ → Result ParseError Flow
take_label buf s len =
    if ltb 63 len
    then err ParseError.label_too_long
    else if ltb (length buf) (s.pos + 1 + len)
    then err unexpected_eof
    else do
      label ← map_err invalid_utf8 (from_utf8 (take len (drop (s.pos + 1) buf)))
      let name = push_dot s.name ++ label
      if ltb max_name_len (length name)
          then err name_too_long
          else ok (continue_with (record s { name = name; pos = s.pos + 1 + len }))

-- The loop's body once `byte` is read.
unfoldable pub on_byte : Bytes → NameState → ℕ → Result ParseError Flow
unfolding follow_pointer take_label
on_byte buf s byte =
    if byte == 0
    then ok (break_with (record s { resume = leave_at s (s.pos + 1) }))
    else if bit_and byte 0b1100_0000 == 0b1100_0000
    then follow_pointer buf s byte
    else take_label buf s byte

-- One round of the loop.
unfoldable pub name_round : Bytes → NameState → Result ParseError Flow
unfolding on_byte
name_round buf s =
    if leb max_jumps s.jumps
    then err pointer_loop
    else do byte ← or_eof (get_elem? buf s.pos); on_byte buf s byte

-- Round again, or out of the loop.
abbrev pub proceed : (NameState → Result ParseError NameState) → Flow → Result ParseError NameState
proceed again (continue_with s) = again s
proceed again (break_with s) = ok s

-- `loop { … }` on fuel.
unfoldable pub name_loop : ℕ → Bytes → NameState → Result ParseError NameState
name_loop zero buf s = stuck
name_loop (suc fuel) buf s = name_round buf s >>= proceed (name_loop fuel buf)

-- Every round makes a jump or a longer name, so the bounds on both bound the rounds.
abbrev pub name_fuel : ℕ
name_fuel = max_jumps + (max_name_len + 1) + 1

unfoldable pub start_state : Reader → NameState
start_state r = record { name = []; pos = r.pos; jumped = false; jumps = 0; resume = r.pos }

unfoldable pub read_name : Reader → Parsed Bytes
read_name r = do
  s ← name_loop name_fuel r.buf (start_state r)
  ok (s.name, record r { pos = s.resume })

-- 3 www 7 example 0 at 0, a pointer to offset 4 at 13, and a label before a pointer at 15.
abbrev sample : Bytes
sample =
    3 ∷ b'w' ∷ b'w' ∷ b'w' ∷ 2 ∷ b'a' ∷ b'b' ∷ 0 ∷ 0xC0 ∷ 4 ∷ 1 ∷ b'x' ∷ 0xC0 ∷ 0 ∷ 0xC0 ∷ 14 ∷ []

read_name_plain :
    read_name (record { buf = sample; pos = 0 })
    ≡ ok (b'w' ∷ b'w' ∷ b'w' ∷ b'.' ∷ b'a' ∷ b'b' ∷ [], record { buf = sample; pos = 8 })
unfolding read_name name_loop name_round start_state slice from_utf8
read_name_plain = refl

read_name_compressed :
    read_name (record { buf = sample; pos = 10 })
    ≡ ok (
      b'x' ∷ b'.' ∷ b'w' ∷ b'w' ∷ b'w' ∷ b'.' ∷ b'a' ∷ b'b' ∷ [],
      record { buf = sample; pos = 14 },
    )
unfolding read_name name_loop name_round start_state slice from_utf8
read_name_compressed = refl

-- A pointer to itself runs into the bound on jumps.
read_name_looping : read_name (record { buf = sample; pos = 14 }) ≡ err pointer_loop
unfolding read_name name_loop name_round start_state slice from_utf8
read_name_looping = refl
