-- ===== src/Resolver.antt =====
-- crates/dnser-resolver/src/lib.rs: the table of the queries in flight, the datagrams that come in, and
-- the validation of a response; Resolver/Query is `query` and `resolve` over them. `Tx` is the sending
-- half of a oneshot channel; a random number is an argument.
pub mod InFlight
pub mod Validation
pub mod Query
pub mod Patch
pub mod Answers
pub mod Holders
pub mod Table
use dnser.Base.{
  ℕ, zero, suc, ◌+◌, ◌%◌, ◌^◌, Bool, true, false, ◌&&◌, not, Option, none, some, List, [], ◌∷◌,
  length, ltb, ◌==◌, if◌then◌else◌, Result, ok, err, stuck, ◌>>=◌, map_err, get_elem?, take,
}
use dnser.Base.Bytes.{Bytes, str_eq, from_be_bytes}
use dnser.Proto.Codes.{record_type_code}
use dnser.Proto.Errors.{ParseError, WriteError}
use dnser.Proto.Header.{is_response}
use dnser.Proto.Message
use dnser.Proto.Message.{Message}
use dnser.Proto.Question.{Question}

pub data ResolveError : Type 0 where
  write_failed : WriteError → ResolveError
  parse_failed : ParseError → ResolveError
  io timeout no_upstreams all_failed invalid_response id_space_exhausted : ResolveError

abbrev pub random_id_attempts : ℕ
random_id_attempts = 16

module _ {Tx : Type 0} where
  unfoldable pub is_taken : ℕ → List (ℕ × Tx) → Bool
  is_taken id [] = false
  is_taken id ((k, tx) ∷ rest) = if k == id then true else is_taken id rest

  -- The loop over the random ids.
  unfoldable pub try_random : List ℕ → List (ℕ × Tx) → Option ℕ
  try_random [] in_flight = none
  try_random (id ∷ ids) in_flight =
      let rest = try_random ids in_flight in if is_taken id in_flight then rest else some id

  -- The scan: `n` offsets are left, from `offset` on.
  unfoldable pub scan : ℕ → ℕ → ℕ → List (ℕ × Tx) → Option ℕ
  scan zero start offset in_flight = none
  scan (suc n) start offset in_flight =
      let id = (start + offset) % 2 ^ 16 in
      let rest = scan n start (offset + 1) in_flight in
      if is_taken id in_flight then rest else some id

  unfoldable pub find_id : List ℕ → ℕ → List (ℕ × Tx) → Option ℕ
  find_id randoms start in_flight = elim (try_random (take random_id_attempts randoms) in_flight) [
    | some id ↦ some id
    | none ↦ scan (2 ^ 16) start 0 in_flight
  ]

  unfoldable pub allocate_and_insert :
      List ℕ → ℕ → Tx → List (ℕ × Tx) → Result ResolveError (ℕ × List (ℕ × Tx))
  allocate_and_insert randoms start tx in_flight = elim (find_id randoms start in_flight) [
    | some id ↦ ok (id, (id, tx) ∷ in_flight)
    | none ↦ err id_space_exhausted
  ]

  -- `map.remove(&id)`
  unfoldable pub remove_id : ℕ → List (ℕ × Tx) → Option Tx × List (ℕ × Tx)
  remove_id id [] = (none, [])
  remove_id id ((k, tx) ∷ rest) =
      let (found, rest') = remove_id id rest in
      if k == id then (some tx, rest) else (found, (k, tx) ∷ rest')

  -- The body of `recv_loop` for a datagram: to whom it is sent, and the table afterwards.
  unfoldable pub receive : Bytes → List (ℕ × Tx) → Option Tx × List (ℕ × Tx)
  receive datagram in_flight =
      if ltb (length datagram) 12
      then (none, in_flight)
      else remove_id (from_be_bytes (take 2 datagram)) in_flight

-- The derived `==` of questions and of their lists
unfoldable pub same_question : Question → Question → Bool
same_question a b =
    str_eq a.name b.name
    && record_type_code a.qtype == record_type_code b.qtype
    && a.qclass.code == b.qclass.code

unfoldable pub same_questions : List Question → List Question → Bool
same_questions [] [] = true
same_questions [] (b ∷ bs) = false
same_questions (a ∷ as') [] = false
same_questions (a ∷ as') (b ∷ bs) = same_question a b && same_questions as' bs

unfoldable pub parse_validated_response : Bytes → Message → ℕ → Result ResolveError Message
parse_validated_response bytes query original_id = do
  msg ← map_err parse_failed (Message.parse bytes)
  if is_response msg.header && same_questions msg.questions query.questions
      then ok (record msg { header = record msg.header { id = original_id } })
      else err invalid_response
