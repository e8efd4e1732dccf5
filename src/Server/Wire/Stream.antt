-- ===== src/Server/Wire/Stream.antt =====
-- What a TCP client sees: the stream that handle_conn of crates/dnser-server/src/tcp.rs writes,
-- frame by frame.
use dnser.Base.{
  ℕ, zero, suc, ◌+◌, ◌≡◌, refl, sym, subst, none, some, List, [], ◌∷◌, ◌++◌, take, drop, All, ok,
  err, stuck, map_err, arith, Option-cases, inl, inr, >>=-eq-ok,
}
use dnser.Base.Bytes.{Bytes, IsByte, from_be_bytes}
use dnser.Cache.{Cache, Shard}
use dnser.Cache.Keys.{HashCall}
use dnser.Net.{read_exact, read_body, read_framed, write_framed}
use dnser.Proto.Message
use dnser.Proto.Message.{Message, to_bytes}
use dnser.Resolver.Query.{Upstream, resolve}
use dnser.Server.Served.{Run, serve, served-IsReply}
use dnser.Server.Sound.{IsReply}
use dnser.Server.Tcp.{Conn, frame_of, turn, handle_conn}
use dnser.Server.Tcp.Pipeline.{stream_of, served_step}
use dnser.Server.Wire.{IsWireReply, to_bytes-IsWireReply}
use dnser.Server.Worker.{write_error}

-- The messages whose frames a stream starts with, `count` at most.
unfoldable pub bodies_of : ℕ → Bytes → List Bytes
bodies_of zero stream = []
bodies_of (suc count) stream = elim (read_framed stream) [
  | none ↦ []
  | some (body, rest) ↦ body ∷ bodies_of count rest
]

-- Reply number `n` is one to query number `n`; the last queries may have none.
abbrev pub InOrder : List Bytes → List Bytes → Type 0
InOrder queries [] = Unit
InOrder [] (reply ∷ replies) = ⊥
InOrder (query ∷ queries) (reply ∷ replies) = IsWireReply query reply × InOrder queries replies

All-take : (n : ℕ) (xs : Bytes) → All IsByte xs → All IsByte (take n xs)
All-take zero xs h = tt
All-take (suc n) [] h = tt
All-take (suc n) (x ∷ xs) (h, hs) = (h, All-take n xs hs)

All-drop : (n : ℕ) (xs : Bytes) → All IsByte xs → All IsByte (drop n xs)
All-drop zero xs h = h
All-drop (suc n) [] h = tt
All-drop (suc n) (x ∷ xs) (h, hs) = All-drop n xs hs

All-read_exact :
    (n : ℕ) (stream body rest : Bytes)
    → All IsByte stream
    → read_exact n stream ≡ some (body, rest)
    → All IsByte body × All IsByte rest
unfolding read_exact
All-read_exact n stream body rest h e =
    let taken : take n stream ≡ body = ground (arith, e) in
    let left : drop n stream ≡ rest = ground (arith, e) in
    (subst (All IsByte) taken (All-take n stream h), subst (All IsByte) left (All-drop n stream h))

All-read_framed :
    (stream body rest : Bytes)
    → All IsByte stream
    → read_framed stream ≡ some (body, rest)
    → All IsByte body × All IsByte rest
unfolding read_framed read_body
All-read_framed stream body rest h e = elim (Option-cases (read_exact 2 stream)) [
  | inl short ↦ absurd (ground (arith, short, e))
  | inr ((len_buf, later), p) ↦
      All-read_exact (from_be_bytes len_buf) later body rest
        (All-read_exact 2 stream len_buf later h p).1 (ground (arith, p, e))
]

frame_of-stream_of :
    (response : Message) (frame : Bytes)
    → frame_of response ≡ ok frame
    → (bytes : Bytes) × (to_bytes response ≡ ok bytes) × (write_framed bytes ≡ some frame)
unfolding frame_of
frame_of-stream_of response frame e =
    let (bytes, p, q) = >>=-eq-ok (map_err write_error (to_bytes response)) _ e in
    (
      bytes,
      ground (arith, p),
      elim (Option-cases (write_framed bytes)) [
        | inl long ↦ absurd (ground (arith, long, q))
        | inr (f, w) ↦ ground (arith, w, q)
      ],
    )

stream_of_step :
    (reply frame later : Bytes) (replies : List Bytes)
    → write_framed reply ≡ some frame
    → stream_of replies ≡ some later
    → stream_of (reply ∷ replies) ≡ some (frame ++ later)
unfolding stream_of
stream_of_step reply frame later replies p q = rw (p, q) refl

bodies_of_step :
    (count : ℕ) (stream body rest : Bytes)
    → read_framed stream ≡ some (body, rest)
    → bodies_of (suc count) stream ≡ body ∷ bodies_of count rest
unfolding bodies_of
bodies_of_step count stream body rest e = rw (e, bodies_of) refl

module _ (iter : Shard → Shard) (hash_one : List HashCall → ℕ) (capacity cap : ℕ)
    (us : ℕ → List Upstream) (meanwhile : ℕ → Cache → Cache) (clock : ℕ → ℕ × ℕ)
    (served_on : (n : ℕ) (c : Cache)
      → Run iter hash_one capacity cap c
      → Run iter hash_one capacity cap (meanwhile n c)) where
  -- What was written is frames of replies.
  abbrev Replied : ℕ → Bytes → Bytes → Type 0
  Replied count stream written =
      (replies : List Bytes) × (stream_of replies ≡ some written)
      × InOrder (bodies_of count stream) replies

  nothing_written : (count : ℕ) (stream : Bytes) → Replied count stream []
  unfolding stream_of
  nothing_written count stream = ([], refl, tt)

  -- Whatever queries were served before, whatever the upstreams do, for each query of the
  -- connection anew, and whatever other queries and rounds of the reaper come between two of its
  -- queries: of a stream of bytes, whole or cut, well-formed or not, what a connection writes is
  -- frames of messages, one behind the other, the n-th of which starts with the first two bytes,
  -- the id, of the n-th message framed on the stream, and has the bit of a response set.
  pub handle_conn-InOrder :
      (fuel round : ℕ) (stream : Bytes) {c : Cache}
      → Run iter hash_one capacity cap c
      → All IsByte stream
      → Replied fuel stream
          (handle_conn iter hash_one
            (λ n. resolve (us n))
            meanwhile
            clock
            fuel
            round
            stream
            c).written
  unfolding handle_conn bodies_of
  handle_conn-InOrder zero round stream {c} run octets = nothing_written zero stream
  handle_conn-InOrder (suc fuel) round stream {c} run octets =
      elim (Option-cases (read_framed stream)) [
        | inl over ↦ silent (ground (arith, over))
        | inr ((body, rest), e) ↦
            let (body_octets, rest_octets) = All-read_framed stream body rest octets e in
            (elim (Message.parse body) as (λ r. Message.parse body ≡ r → Goal) [
              | err x ↦ λ p. silent (ground (arith, e, p))
              | stuck ↦ λ p. silent (ground (arith, e, p))
              | ok query ↦ λ p.
                  let (response, c') =
                    turn iter hash_one (λ n. resolve (us n)) meanwhile clock round query c in
                  (elim (frame_of response) as (λ r. frame_of response ≡ r → Goal) [
                    | err x ↦ λ f. silent (ground (arith, e, p, f))
                    | stuck ↦ λ f. silent (ground (arith, e, p, f))
                    | ok frame ↦ λ f.
                        let (replies, s, order) =
                          handle_conn-InOrder fuel (round + 1) rest
                            (serve (us round) (clock round).0 (clock round).1 query
                              (served_on round c run))
                            rest_octets in
                        let (bytes, written, w) = frame_of-stream_of response frame f in
                        let r : IsReply query response =
                          served-IsReply iter hash_one capacity cap (us round) (clock round).0
                            (clock round).1 query (served_on round c run) in
                        subst (λ (conn : Conn). Replied (suc fuel) stream conn.written)
                          (sym (
                            served_step iter hash_one (λ n. resolve (us n)) meanwhile clock fuel
                              round stream body rest frame query c e p f))
                          (
                            bytes ∷ replies,
                            stream_of_step bytes frame _ replies w s,
                            subst (λ (queries : List Bytes). InOrder queries (bytes ∷ replies))
                                (sym (bodies_of_step fuel stream body rest e))
                                (
                                  to_bytes-IsWireReply body bytes query response body_octets p
                                      r.same_id r.response written,
                                  order,
                                ),
                          )
                  ])
                    refl
            ])
              refl
      ]
    where
      Goal : Type 0
      Goal =
          Replied (suc fuel) stream
            (handle_conn iter hash_one (λ n. resolve (us n)) meanwhile clock (suc fuel) round stream
              c).written

      silent :
          (handle_conn iter hash_one
              (λ n. resolve (us n))
              meanwhile
              clock
              (suc fuel)
              round
              stream
              c).written
            ≡ []
          → Goal
      silent w = subst (Replied (suc fuel) stream) (sym w) (nothing_written (suc fuel) stream)
