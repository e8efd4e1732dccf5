-- ===== src/Resolver/Validation.antt =====
-- What a validated response is.
use dnser.Base.{ℕ, ◌≡◌, true, ◌&&◌, ok, arith, >>=-eq-ok, map_err, Bool-cases, inl, inr}
use dnser.Base.Bytes.{Bytes}
use dnser.Proto.Header.{is_response}
use dnser.Proto.Message
use dnser.Proto.Message.{Message}
use dnser.Resolver.{parse_validated_response, same_questions, parse_failed}

-- A response that is accepted has the id of the client's query; but for the id it is what the bytes
-- parse as, a response, and its questions are found equal to those of the query.
pub validated_response :
    (bytes : Bytes) (query m : Message) (original_id : ℕ)
    → parse_validated_response bytes query original_id ≡ ok m
    → (m.header.id ≡ original_id)
      × (same_questions m.questions query.questions ≡ true)
      × (parsed : Message) × (Message.parse bytes ≡ ok parsed)
      × (is_response parsed.header ≡ true)
      × (m ≡ record parsed { header = record parsed.header { id = original_id } })
unfolding parse_validated_response
validated_response bytes query m original_id e =
    let (parsed, p, q) = >>=-eq-ok (map_err parse_failed (Message.parse bytes)) _ e in
    elim (Bool-cases
      (is_response parsed.header && same_questions parsed.questions query.questions)) [
        | inl good ↦ (
          ground (arith, q, good),
          ground (arith, q, good),
          parsed,
          ground (arith, p),
          ground (arith, good),
          ground (arith, q, good),
        )
        | inr bad ↦ absurd (ground (arith, q, bad))
      ]
