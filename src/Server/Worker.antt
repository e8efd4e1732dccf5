-- ===== src/Server/Worker.antt =====
-- handle_query of crates/dnser-server/src/worker.rs: what is sent for a datagram, and the cache
-- afterwards. The socket's own errors are not modelled.
use dnser.Base.{
  ℕ, ◌≤◌, ◌≡◌, refl, ltb, if◌then◌else◌, Result, ok, err, stuck, ◌>>=◌, map_err, length, List,
  arith, >>=-eq-ok, ◌⊎◌, inl, inr, Bool-cases,
}
use dnser.Base.Bytes.{Bytes}
use dnser.Cache.{Cache, Shard}
use dnser.Cache.Keys.{HashCall}
use dnser.Proto.Errors.{ParseError, WriteError}
use dnser.Proto.Message
use dnser.Proto.Message.{Message, to_bytes}
use dnser.Server.Handler.{process_query, query_udp_limit, build_truncated}

pub data QueryError : Type 0 where
  parse_error : ParseError → QueryError
  write_error : WriteError → QueryError
  io : QueryError

-- The datagram for a response, or the truncated one where it is over the limit.
unfoldable pub reply_bytes : Message → Message → Result QueryError Bytes
reply_bytes query response = do
  bytes ← map_err write_error (to_bytes response)
  if ltb (query_udp_limit query) (length bytes)
      then map_err write_error (to_bytes (build_truncated query))
      else ok bytes

module _ (iter : Shard → Shard) (hash_one : List HashCall → ℕ) {E : Type 0}
    (resolve : Message → Result E Message) where
  unfoldable pub handle_query : ℕ → ℕ → Bytes → Cache → Result QueryError Bytes × Cache
  handle_query now later datagram cache = elim (Message.parse datagram) [
    | err e ↦ (err (parse_error e), cache)
    | stuck ↦ (stuck, cache)
    | ok query ↦
        let (response, cache') = process_query iter hash_one resolve now later query cache in
        (reply_bytes query response, cache')
  ]

  reply_bytes-fits :
      (query response : Message) (bytes : Bytes)
      → reply_bytes query response ≡ ok bytes
      → (length bytes ≤ query_udp_limit query) ⊎ (to_bytes (build_truncated query) ≡ ok bytes)
  unfolding reply_bytes
  reply_bytes-fits query response bytes e =
      let (whole, p, q) = >>=-eq-ok (map_err write_error (to_bytes response)) _ e in
      elim (Bool-cases (ltb (query_udp_limit query) (length whole))) [
        | inl over ↦ inr (ground (arith, q))
        | inr fits ↦ inl (ground (arith, q))
      ]

  -- What is sent for a datagram answers a query that the datagram parses as: it is no longer than
  -- that query's limit for UDP, or it is the truncated reply to that query.
  pub handle_query-fits :
      (now later : ℕ) (datagram bytes : Bytes) (cache : Cache)
      → (handle_query now later datagram cache).0 ≡ ok bytes
      → (query : Message) × (Message.parse datagram ≡ ok query)
        × ((length bytes ≤ query_udp_limit query) ⊎ (to_bytes (build_truncated query) ≡ ok bytes))
  unfolding handle_query
  handle_query-fits now later datagram bytes cache e =
      (elim (Message.parse datagram)
          as (λ r.
            Message.parse datagram ≡ r
            → (query : Message) × (Message.parse datagram ≡ ok query)
              × ((length bytes ≤ query_udp_limit query)
                  ⊎ (to_bytes (build_truncated query) ≡ ok bytes))) [
                    | ok query ↦ λ p. (
                      query,
                      p,
                      reply_bytes-fits query
                          (process_query iter hash_one resolve now later query cache).0 bytes
                          (ground (arith, p, e)),
                    )
                    | err x ↦ λ p. absurd (ground (arith, p, e))
                    | stuck ↦ λ p. absurd (ground (arith, p, e))
                  ])
        refl
