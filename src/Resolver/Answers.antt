-- ===== src/Resolver/Answers.antt =====
-- What `resolve` returns.
use dnser.Base.{
  ℕ, ◌≡◌, refl, true, List, [], ◌∷◌, ok, err, stuck, arith, >>=-eq-ok, map_err, Bool-cases, inl,
  inr, ◌⊎◌, ◌≢◌, >>=-ne-stuck, take,
}
use dnser.Base.Bytes.{Bytes}
use dnser.Proto.Header.{is_response, is_truncated}
use dnser.Proto.Message.{Message, to_bytes, max_udp_size}
use dnser.Proto.Message.Termination.{message-ne-stuck}
use dnser.Resolver.{
  parse_validated_response, same_questions, ResolveError, allocate_and_insert, write_failed,
}
use dnser.Resolver.Query.{
  Upstream, Wait, answered, sender_dropped, timed_out, Connection, finish, tcp_query, exchange,
  patch, query_upstream, first_ok, resolve,
}
use dnser.Resolver.Validation.{validated_response}

-- A message that answers a query.
pub record IsAnswer (query m : Message) : Type 0 where
  pub same_id : m.header.id ≡ query.header.id
  pub response : is_response m.header ≡ true
  pub questions : same_questions m.questions query.questions ≡ true

parse_validated_response-IsAnswer :
    (bytes : Bytes) (query m : Message)
    → parse_validated_response bytes query query.header.id ≡ ok m
    → IsAnswer query m
unfolding is_response
parse_validated_response-IsAnswer bytes query m e =
    let (same_id, questions, parsed, p, response, whole) =
      validated_response bytes query m query.header.id e in
    record { same_id = same_id; response = ground (arith, response, whole); questions = questions }

tcp_query-IsAnswer :
    (connection : Connection) (query m : Message)
    → tcp_query connection query ≡ ok m
    → IsAnswer query m
unfolding tcp_query
tcp_query-IsAnswer connection query m e =
    let (sent, p, q) = >>=-eq-ok (map_err write_failed (to_bytes query)) _ e in
    let (body, r, s) = >>=-eq-ok (exchange connection sent) _ q in
    parse_validated_response-IsAnswer body query m s

finish-IsAnswer :
    (connection : Connection) (query m : Message) (wait : Wait)
    → finish connection query wait ≡ ok m
    → IsAnswer query m
unfolding finish
finish-IsAnswer connection query m (answered bytes) e =
    let (msg, p, q) =
      >>=-eq-ok (parse_validated_response (take max_udp_size bytes) query query.header.id) _ e in
    elim (Bool-cases (is_truncated msg.header)) [
      | inl cut ↦ tcp_query-IsAnswer connection query m (ground (arith, cut, q))
      | inr whole ↦
          parse_validated_response-IsAnswer (take max_udp_size bytes) query m
            (ground (arith, p, q, whole))
    ]
finish-IsAnswer connection query m sender_dropped e = absurd (ground arith)
finish-IsAnswer connection query m timed_out e = absurd (ground arith)

query_upstream-IsAnswer :
    (query m : Message) (u : Upstream) → query_upstream query u ≡ ok m → IsAnswer query m
unfolding query_upstream
query_upstream-IsAnswer query m u e =
    let (sent, p, q) = >>=-eq-ok (map_err write_failed (to_bytes query)) _ e in
    let (registered, r, s) =
      >>=-eq-ok (allocate_and_insert u.randoms u.start u.tx u.in_flight) _ q in
    elim (Bool-cases (u.send (patch registered.0 sent))) [
      | inl is_sent ↦ finish-IsAnswer u.connection query m u.wait (ground (arith, is_sent, s))
      | inr unsent ↦ absurd (ground (arith, unsent, s))
    ]

first_ok-IsAnswer :
    (query m : Message) (us : List Upstream) → first_ok query us ≡ ok m → IsAnswer query m
unfolding first_ok
first_ok-IsAnswer query m [] e = absurd (ground arith)
first_ok-IsAnswer query m (u ∷ us) e =
    (elim (query_upstream query u) as (λ r. query_upstream query u ≡ r → IsAnswer query m) [
      | ok msg ↦ λ p. query_upstream-IsAnswer query m u (ground (arith, p, e))
      | err x ↦ λ p. first_ok-IsAnswer query m us (ground (arith, p, e))
      | stuck ↦ λ p. absurd (ground (arith, p, e))
    ])
      refl

-- Whatever the upstreams and the network do, a message that `resolve` returns is a response with the
-- query's id and its questions.
pub resolve-IsAnswer :
    (us : List Upstream) (query m : Message) → resolve us query ≡ ok m → IsAnswer query m
unfolding resolve
resolve-IsAnswer [] query m e = absurd (ground arith)
resolve-IsAnswer (u ∷ us) query m e = first_ok-IsAnswer query m (u ∷ us) e

parse_validated_response-ne-stuck :
    (bytes : Bytes) (query : Message) (id : ℕ) → parse_validated_response bytes query id ≢ stuck
unfolding parse_validated_response
parse_validated_response-ne-stuck bytes query id = ground (arith, message-ne-stuck bytes)

exchange-ne-stuck : (connection : Connection) (sent : Bytes) → exchange connection sent ≢ stuck
unfolding exchange
exchange-ne-stuck connection sent = ground arith

tcp_query-ne-stuck :
    (connection : Connection) (query : Message) (sent : Bytes)
    → to_bytes query ≡ ok sent
    → tcp_query connection query ≢ stuck
unfolding tcp_query
tcp_query-ne-stuck connection query sent e = rw e (
    >>=-ne-stuck (exchange connection sent) _ (exchange-ne-stuck connection sent)
      λ body _. parse_validated_response-ne-stuck body query query.header.id)

finish-ne-stuck :
    (connection : Connection) (query : Message) (sent : Bytes)
    → to_bytes query ≡ ok sent
    → (wait : Wait) → finish connection query wait ≢ stuck
unfolding finish
finish-ne-stuck connection query sent e (answered bytes) =
    >>=-ne-stuck (parse_validated_response (take max_udp_size bytes) query query.header.id) _
      (parse_validated_response-ne-stuck (take max_udp_size bytes) query query.header.id)
      λ msg _. ground (arith, tcp_query-ne-stuck connection query sent e)
finish-ne-stuck connection query sent e sender_dropped = ground arith
finish-ne-stuck connection query sent e timed_out = ground arith

allocate-ne-stuck : (u : Upstream) → allocate_and_insert u.randoms u.start u.tx u.in_flight ≢ stuck
unfolding allocate_and_insert
allocate-ne-stuck u = ground arith

query_upstream-ne-stuck :
    (query : Message) (sent : Bytes) (u : Upstream)
    → to_bytes query ≡ ok sent
    → query_upstream query u ≢ stuck
unfolding query_upstream
query_upstream-ne-stuck query sent u e = rw e (
    >>=-ne-stuck (allocate_and_insert u.randoms u.start u.tx u.in_flight) _ (allocate-ne-stuck u)
      λ registered _. ground (arith, finish-ne-stuck u.connection query sent e u.wait))

-- Some upstream answers the query.
abbrev pub SomeAnswers : Message → List Upstream → Type 0
SomeAnswers query [] = ⊥
SomeAnswers query (u ∷ us) =
    ((m : Message) × (query_upstream query u ≡ ok m)) ⊎ SomeAnswers query us

serialised :
    (query m : Message) (u : Upstream)
    → query_upstream query u ≡ ok m
    → (sent : Bytes) × (to_bytes query ≡ ok sent)
unfolding query_upstream
serialised query m u e =
    let (sent, p, q) = >>=-eq-ok (map_err write_failed (to_bytes query)) _ e in
    (sent, ground (arith, p))

SomeAnswers-serialised :
    (query : Message) (us : List Upstream)
    → SomeAnswers query us
    → (sent : Bytes) × (to_bytes query ≡ ok sent)
SomeAnswers-serialised query [] h = absurd h
SomeAnswers-serialised query (u ∷ us) (inl (m, e)) = serialised query m u e
SomeAnswers-serialised query (u ∷ us) (inr h) = SomeAnswers-serialised query us h

first_ok_succeeds :
    (query : Message) (sent : Bytes) (us : List Upstream)
    → to_bytes query ≡ ok sent
    → SomeAnswers query us
    → (m : Message) × (first_ok query us ≡ ok m)
unfolding first_ok
first_ok_succeeds query sent [] e h = absurd h
first_ok_succeeds query sent (u ∷ us) e h =
    (elim (query_upstream query u)
        as (λ r. query_upstream query u ≡ r → (m : Message) × (first_ok query (u ∷ us) ≡ ok m)) [
          | ok msg ↦ λ p. (msg, ground (arith, p))
          | err x ↦ λ p.
              let (m, q) = first_ok_succeeds query sent us e (later query u us x p h) in
              (m, ground (arith, p, q))
          | stuck ↦ λ p. absurd (query_upstream-ne-stuck query sent u e p)
        ])
      refl
  where
    later :
        (query : Message) (u : Upstream) (us : List Upstream) (x : ResolveError)
        → query_upstream query u ≡ err x
        → SomeAnswers query (u ∷ us)
        → SomeAnswers query us
    later query u us x p (inl (m, e)) = absurd (ground (arith, p, e))
    later query u us x p (inr h) = h

-- If one upstream answers a query, in whatever order they complete, and whatever the others and the
-- network do, then `resolve` returns an answer to it.
pub resolve_succeeds :
    (us : List Upstream) (query : Message)
    → SomeAnswers query us
    → (m : Message) × (resolve us query ≡ ok m) × IsAnswer query m
unfolding resolve
resolve_succeeds [] query h = absurd h
resolve_succeeds (u ∷ us) query h =
    let (sent, e) = SomeAnswers-serialised query (u ∷ us) h in
    let (m, p) = first_ok_succeeds query sent (u ∷ us) e h in
    (m, p, first_ok-IsAnswer query m (u ∷ us) p)
