-- ===== src/Resolver/Query.antt =====
-- One query to one upstream, its fallback to TCP (src/tcp.rs), and `resolve` over the upstreams. What
-- the network does is an argument: `Wait` for the reply by UDP, `Connection` for TCP.
use dnser.Base.{
  ℕ, ◌/◌, ◌%◌, ◌^◌, Bool, Option, none, some, List, [], ◌∷◌, set, get_elem?, take, if◌then◌else◌,
  Result, ok, err, stuck, ◌>>=◌, map_err, bit_or,
}
use dnser.Base.Bytes.{Bytes}
use dnser.Net.{read_framed, write_framed}
use dnser.Proto.Header.{rd, is_truncated}
use dnser.Proto.Message.{Message, to_bytes, max_udp_size}
use dnser.Resolver.{
  ResolveError, write_failed, io, timeout, no_upstreams, all_failed, invalid_response,
  allocate_and_insert, parse_validated_response,
}

-- The byte of the flags that RD is in; a serialised message has 12 bytes at least.
abbrev pub set_rd : Option ℕ → Bytes → Bytes
set_rd none bytes = bytes
set_rd (some b) bytes = set bytes 2 (bit_or b (rd / 2 ^ 8 % 256))

-- The id and RD are written over the serialised query.
unfoldable pub patch : ℕ → Bytes → Bytes
patch id bytes =
    let with_id = set (set bytes 0 (id / 256 % 256)) 1 (id % 256) in
    set_rd (get_elem? with_id 2) with_id

-- How the wait for the channel ends: with the datagram that came, or `timed_out`, the error of
-- `timeout`.
pub data Wait : Type 0 where
  answered : Bytes → Wait
  sender_dropped timed_out : Wait

-- How a connection goes: `stream` is what the upstream sends before it closes.
pub data Connection : Type 0 where
  too_slow refused broken : Connection
  stream : Bytes → Connection

-- The body that `exchange` reads, once the query is written.
abbrev read_reply : Option (Bytes × Bytes) → Result ResolveError Bytes
read_reply none = err invalid_response
read_reply (some (body, _)) = ok body

-- `write_framed` and `read_framed`: a message too long is an I/O error.
abbrev pub over_stream : Option Bytes → Bytes → Result ResolveError Bytes
over_stream none bytes = err io
over_stream (some _) bytes = read_reply (read_framed bytes)

unfoldable pub exchange : Connection → Bytes → Result ResolveError Bytes
exchange too_slow sent = err timeout
exchange refused sent = err io
exchange broken sent = err io
exchange (stream bytes) sent = over_stream (write_framed sent) bytes

unfoldable pub tcp_query : Connection → Message → Result ResolveError Message
tcp_query connection query = do
  sent ← map_err write_failed (to_bytes query)
  body ← exchange connection sent
  parse_validated_response body query query.header.id

-- The `match` on the end of the wait; what `recv_loop` received is cut to its buffer.
unfoldable pub finish : Connection → Message → Wait → Result ResolveError Message
finish connection query (answered bytes) = do
  msg ← parse_validated_response (take max_udp_size bytes) query query.header.id
  if is_truncated msg.header then tcp_query connection query else ok msg
finish connection query sender_dropped = err all_failed
finish connection query timed_out = err timeout

-- What one upstream and its socket do for a query: the table of the queries in flight and the random
-- numbers when it is registered, whether `socket.send` sends a datagram, and what comes back.
pub record Upstream : Type 0 where
  pub in_flight : List (ℕ × ℕ)
  pub randoms : List ℕ
  pub start : ℕ
  pub tx : ℕ
  pub send : Bytes → Bool
  pub wait : Wait
  pub connection : Connection

-- `UpstreamSocket::query`
unfoldable pub query_upstream : Message → Upstream → Result ResolveError Message
query_upstream query u = do
  sent ← map_err write_failed (to_bytes query)
  registered ← allocate_and_insert u.randoms u.start u.tx u.in_flight
  if u.send (patch registered.0 sent) then finish u.connection query u.wait else err io

-- `while let Some(result) = futs.next().await`: the upstreams in the order in which they complete.
unfoldable pub first_ok : Message → List Upstream → Result ResolveError Message
first_ok query [] = err all_failed
first_ok query (u ∷ us) = elim (query_upstream query u) [
  | ok msg ↦ ok msg
  | err e ↦ first_ok query us
  | stuck ↦ stuck
]

unfoldable pub resolve : List Upstream → Message → Result ResolveError Message
resolve [] query = err no_upstreams
resolve (u ∷ us) query = first_ok query (u ∷ us)
