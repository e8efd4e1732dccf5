-- ===== src/Server/Tcp.antt =====
-- handle_conn of crates/dnser-server/src/tcp.rs: one connection, its queries served in the order in
-- which they come. The stream is what the peer sends before it closes or is silent for the idle
-- timeout: both end the connection in the same way. For query number `n`, `resolve n` is what the
-- resolver returns, `meanwhile n` what the other tasks have done to the shared cache since the
-- query before, and the clock the times at which it is looked up and its answer is there.
pub mod Pipeline
use dnser.Base.{
  ℕ, zero, suc, ◌+◌, ◌≤◌, ◌<◌, ◌≡◌, ◌≢◌, refl, Option, none, some, List, [], ◌∷◌, ◌++◌, Result, ok,
  err, stuck, ◌>>=◌, map_err, arith,
}
use dnser.Base.Bytes.{Bytes}
use dnser.Cache.{Cache, Shard}
use dnser.Cache.Keys.{HashCall}
use dnser.Net.{read_framed, write_framed}
use dnser.Proto.Message
use dnser.Proto.Message.{Message, to_bytes}
use dnser.Server.Handler.{process_query}
use dnser.Server.Worker.{QueryError, parse_error, write_error, io}

-- What has been written when a connection ends, how it ends, and the cache then.
pub record Conn : Type 0 where
  pub written : Bytes
  pub outcome : Result QueryError (Unit {0})
  pub cache : Cache

abbrev framed : Option Bytes → Result QueryError Bytes
framed none = err io
framed (some frame) = ok frame

-- `to_bytes` and `write_framed` of a response
unfoldable pub frame_of : Message → Result QueryError Bytes
frame_of response = do bytes ← map_err write_error (to_bytes response); framed (write_framed bytes)

abbrev ended : Result QueryError (Unit {0}) → Cache → Conn
ended outcome cache = record { written = []; outcome = outcome; cache = cache }

abbrev pub after : Bytes → Conn → Conn
after frame conn = record conn { written = frame ++ conn.written }

module _ (iter : Shard → Shard) (hash_one : List HashCall → ℕ) {E : Type 0}
    (resolve : ℕ → Message → Result E Message) (meanwhile : ℕ → Cache → Cache)
    (clock : ℕ → ℕ × ℕ) where
  -- Query number `round`.
  abbrev pub turn : ℕ → Message → Cache → Message × Cache
  turn round query cache =
      process_query iter hash_one (resolve round) (clock round).0 (clock round).1 query
        (meanwhile round cache)

  -- The loop, on fuel: the queries left at most.
  unfoldable pub handle_conn : ℕ → ℕ → Bytes → Cache → Conn
  handle_conn zero round stream cache = ended stuck cache
  handle_conn (suc fuel) round stream cache = elim (read_framed stream) [
    | none ↦ ended (ok tt) cache
    | some (body, rest) ↦ elim (Message.parse body) [
      | err e ↦ ended (err (parse_error e)) cache
      | stuck ↦ ended stuck cache
      | ok query ↦
          let (response, cache') = turn round query cache in
          elim (frame_of response) [
            | err e ↦ ended (err e) cache'
            | stuck ↦ ended stuck cache'
            | ok frame ↦ after frame (handle_conn fuel (round + 1) rest cache')
          ]
    ]
  ]
