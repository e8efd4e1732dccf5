-- ===== src/Server/Tcp/Pipeline.antt =====
-- What a connection does with the queries of a stream.
use dnser.Base.{
  ℕ, zero, suc, ◌+◌, ◌<◌, ◌≡◌, ◌≢◌, refl, ap, ◌∙◌, Option, none, some, List, [], ◌∷◌, ◌++◌, Result,
  ok, err, stuck, ◌>>=◌, map_err, arith, >>=-ne-stuck, Option-cases, inl, inr, length, ◌==◌, false,
  append_assoc, >>=-eq-ok,
}
use dnser.Base.Bytes
use dnser.Base.Bytes.{Bytes}
use dnser.Cache.{Cache, Shard}
use dnser.Cache.Keys.{HashCall}
use dnser.Net.{read_framed, write_framed, read_framed-write_framed, read_framed-shorter}
use dnser.Proto.Errors.{ParseError}
use dnser.Proto.Header
use dnser.Proto.Reader
use dnser.Proto.Message
use dnser.Proto.Message.{Message, to_bytes}
use dnser.Proto.Message.Termination.{message-ne-stuck}
use dnser.Proto.Message.Total.{to_bytes-ne-stuck}
use dnser.Server.Tcp.{after, frame_of, turn, handle_conn}
use dnser.Server.Worker.{QueryError, write_error}

frame_of-ne-stuck : (response : Message) → frame_of response ≢ stuck
unfolding frame_of
frame_of-ne-stuck response =
    >>=-ne-stuck (map_err write_error (to_bytes response)) _
      (ground (arith, to_bytes-ne-stuck response)) λ bytes _. ground arith

module _ (iter : Shard → Shard) (hash_one : List HashCall → ℕ) {E : Type 0}
    (resolve : ℕ → Message → Result E Message) (meanwhile : ℕ → Cache → Cache)
    (clock : ℕ → ℕ × ℕ) where
  pub served_step :
      (fuel round : ℕ) (stream body rest frame : Bytes) (query : Message) (c : Cache)
      → read_framed stream ≡ some (body, rest)
      → Message.parse body ≡ ok query
      → frame_of (turn iter hash_one resolve meanwhile clock round query c).0 ≡ ok frame
      → handle_conn iter hash_one resolve meanwhile clock (suc fuel) round stream c
        ≡ after frame (
            handle_conn iter hash_one resolve meanwhile clock fuel
              (round + 1)
              rest
              (turn iter hash_one resolve meanwhile clock round query c).1)
  unfolding handle_conn
  served_step fuel round stream body rest frame query c e p f = rw (e, p, f, handle_conn) refl

  -- With fuel for one round more than the stream has bytes, a connection ends, whatever is sent on it:
  -- each round takes the bytes of a frame.
  pub handle_conn-ne-stuck :
      (fuel round : ℕ) (stream : Bytes) (c : Cache)
      → length stream < fuel
      → (handle_conn iter hash_one resolve meanwhile clock fuel round stream c).outcome ≢ stuck
  unfolding handle_conn
  handle_conn-ne-stuck zero round stream c h = absurd (omega arith)
  handle_conn-ne-stuck (suc fuel) round stream c h = elim (Option-cases (read_framed stream)) [
    | inl over ↦ ground (arith, over)
    | inr ((body, rest), e) ↦
        (elim (Message.parse body) as (λ r. Message.parse body ≡ r → Ends) [
          | err x ↦ λ p. rw (e, p, handle_conn) (ground arith)
          | stuck ↦ λ p. absurd (message-ne-stuck body p)
          | ok query ↦ λ p.
              let (response, c') = turn iter hash_one resolve meanwhile clock round query c in
              (elim (frame_of response) as (λ r. frame_of response ≡ r → Ends) [
                | err x ↦ λ f. rw (e, p, f, handle_conn) (ground arith)
                | stuck ↦ λ f. absurd (frame_of-ne-stuck response f)
                | ok frame ↦ λ f. rw (served_step fuel round stream body rest frame query c e p f) (
                    handle_conn-ne-stuck fuel (round + 1) rest c'
                      (omega (arith, h, read_framed-shorter stream body rest e)))
              ])
                refl
        ])
          refl
  ]
    where
      Ends : Type 0
      Ends =
          (handle_conn iter hash_one resolve meanwhile clock (suc fuel) round stream c).outcome
          ≢ stuck

-- The frames of the messages of a client, one after the other.
abbrev glue : Option Bytes → Option Bytes → Option Bytes
glue none later = none
glue (some frame) none = none
glue (some frame) (some later) = some (frame ++ later)

unfoldable pub stream_of : List Bytes → Option Bytes
stream_of [] = some []
stream_of (body ∷ bodies) = glue (write_framed body) (stream_of bodies)

unfoldable pub parse_all : List Bytes → Result ParseError (List Message)
parse_all [] = ok []
parse_all (body ∷ bodies) = do
  query ← Message.parse body
  queries ← parse_all bodies
  ok (query ∷ queries)

unfoldable pub send_all : List Message → Result QueryError Bytes
send_all [] = ok []
send_all (response ∷ responses) = do
  frame ← frame_of response
  later ← send_all responses
  ok (frame ++ later)

stream_of-cons :
    (body : Bytes) (bodies : List Bytes) (stream : Bytes)
    → stream_of (body ∷ bodies) ≡ some stream
    → (frame later : Bytes) × (write_framed body ≡ some frame)
      × (stream_of bodies ≡ some later)
      × (stream ≡ frame ++ later)
unfolding stream_of
stream_of-cons body bodies stream e = elim (Option-cases (write_framed body)) [
  | inl long ↦ absurd (ground (arith, e, long))
  | inr (frame, p) ↦ elim (Option-cases (stream_of bodies)) [
    | inl long ↦ absurd (ground (arith, e, p, long))
    | inr (later, q) ↦ (frame, later, p, q, ground (arith, e, p, q))
  ]
]

-- No message is empty.
pub parse-nonempty :
    (body : Bytes) (query : Message) → Message.parse body ≡ ok query → (length body == 0) ≡ false
unfolding Message.parse Message.parse_body Header.parse Reader.read_u16 Reader.new Bytes.slice
parse-nonempty [] query e = absurd (ground arith)
parse-nonempty (b ∷ bs) query e = ground arith

module _ (iter : Shard → Shard) (hash_one : List HashCall → ℕ) {E : Type 0}
    (resolve : ℕ → Message → Result E Message) (meanwhile : ℕ → Cache → Cache)
    (clock : ℕ → ℕ × ℕ) where
  -- The queries answered one by one, from query number `round` on.
  unfoldable pub serve_all : ℕ → List Message → Cache → List Message × Cache
  serve_all round [] c = ([], c)
  serve_all round (query ∷ queries) c =
      let (response, c') = turn iter hash_one resolve meanwhile clock round query c in
      let (responses, last) = serve_all (round + 1) queries c' in (response ∷ responses, last)

  connection_over :
      (fuel round : ℕ) (cut : Bytes) (c : Cache)
      → read_framed cut ≡ none
      → handle_conn iter hash_one resolve meanwhile clock (suc fuel) round cut c
        ≡ (record { written = []; outcome = ok tt; cache = c })
  unfolding handle_conn
  connection_over fuel round cut c over = rw (over, handle_conn) refl

  -- Queries that are sent in frames one behind the other, however many before the first answer, are
  -- answered in their order, each with the cache that the one before left and other tasks have
  -- changed since, if every response can be framed; what the peer sends of a further frame before
  -- it closes or falls silent changes nothing.
  pub handle_conn_pipelined :
      (fuel round : ℕ) (bodies : List Bytes) (stream cut out : Bytes) (queries : List Message)
      (c : Cache)
      → stream_of bodies ≡ some stream
      → parse_all bodies ≡ ok queries
      → send_all (serve_all round queries c).0 ≡ ok out
      → read_framed cut ≡ none
      → length (stream ++ cut) < fuel
      → handle_conn iter hash_one resolve meanwhile clock fuel round (stream ++ cut) c
        ≡ (record { written = out; outcome = ok tt; cache = (serve_all round queries c).1 })
  unfolding parse_all send_all serve_all stream_of
  handle_conn_pipelined zero round bodies stream cut out queries c s p r over enough =
      absurd (omega arith)
  handle_conn_pipelined (suc fuel) round [] stream cut out [] c s p r over enough =
      let none_sent : stream ≡ [] = ground (arith, s) in
      ap
        (λ (front : Bytes).
          handle_conn iter hash_one resolve meanwhile clock (suc fuel) round (front ++ cut) c)
        none_sent
      ∙ connection_over fuel round cut c over
      ∙ ap (λ (o : Bytes). record { written = o; outcome = ok tt; cache = c }) {y = out}
          (ground (arith, r))
  handle_conn_pipelined (suc fuel) round [] stream cut out (query ∷ queries) c s p r over enough =
      absurd (ground (arith, p))
  handle_conn_pipelined (suc fuel) round (body ∷ bodies) stream cut out [] c s p r over enough =
      let (query, p₁, p') = >>=-eq-ok (Message.parse body) _ p in
      let (queries, p₂, p₃) = >>=-eq-ok (parse_all bodies) _ p' in absurd (ground (arith, p₃))
  handle_conn_pipelined (suc fuel) round (body ∷ bodies) stream cut out (query ∷ queries) c s p r
        over enough =
      let (frame, later, w, s', whole) = stream_of-cons body bodies stream s in
      let (query', p₁, p') = >>=-eq-ok (Message.parse body) _ p in
      let (queries', p₂, p₃) = >>=-eq-ok (parse_all bodies) _ p' in
      let parsed : Message.parse body ≡ ok query = ground (arith, p₁, p₃) in
      let (response, c') = turn iter hash_one resolve meanwhile clock round query c in
      let (answer, r₁, r') = >>=-eq-ok (frame_of response) _ r in
      let (rest, r₂, r₃) = >>=-eq-ok (send_all (serve_all (round + 1) queries c').0) _ r' in
      let joined : stream ++ cut ≡ frame ++ (later ++ cut) =
        ap (λ (front : Bytes). front ++ cut) whole ∙ append_assoc frame later cut in
      let read : read_framed (frame ++ (later ++ cut)) ≡ some (body, later ++ cut) =
        read_framed-write_framed body frame (later ++ cut) w
        ∙ rw (parse-nonempty body query parsed) refl in
      ap
        (λ (bytes : Bytes).
          handle_conn iter hash_one resolve meanwhile clock (suc fuel) round bytes c)
        joined
      ∙ served_step iter hash_one resolve meanwhile clock fuel round _ body (later ++ cut) answer
          query c read parsed r₁
      ∙ ap (after answer) (
          handle_conn_pipelined fuel (round + 1) bodies later cut rest queries c' s'
            (ground (arith, p₂, p₃)) r₂ over
            (omega
              (arith, enough, read_framed-shorter _ body (later ++ cut) read, ap length joined)))
      ∙ ap
          (λ (o : Bytes). record {
            written = o;
            outcome = ok tt;
            cache = (serve_all (round + 1) queries c').1;
          })
          {y = out} (ground (arith, r₃))
