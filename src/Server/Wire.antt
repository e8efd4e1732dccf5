-- ===== src/Server/Wire.antt =====
-- What a client sees on the wire: the bytes sent for the bytes received, by handle_query of
-- crates/dnser-server/src/worker.rs and handle_conn of crates/dnser-server/src/tcp.rs.
pub mod Stream
use mathlib.Core.Path.{ap₂}
use dnser.Base.{
  ℕ, zero, suc, ◌+◌, ◌*◌, ◌/◌, ◌%◌, ◌≤◌, ◌<◌, ◌≡◌, refl, ap, sym, subst, ◌∙◌, Bool, true, false,
  Option, none, some, List, [], ◌∷◌, ◌++◌, length, take, get_elem?, All, ok, err, stuck, ◌>>=◌,
  map_err, arith, Bool-cases, Option-cases, inl, inr, >>=-eq-ok, ==_iff, ltb, ◌⊎◌,
}
use dnser.Base.Bits.{bit}
use dnser.Base.Bytes
use dnser.Base.Bytes.{Bytes, IsByte}
use dnser.Cache.{Cache, Shard}
use dnser.Cache.Keys.{HashCall}
use dnser.Proto.Header
use dnser.Proto.Header.{Header, is_response}
use dnser.Proto.Header.Replies.{flag_test, reply_to_lem}
use dnser.Proto.Message
use dnser.Proto.Message.{Message, to_bytes}
use dnser.Proto.Message.Uniform.{header_bytes, to_bytes-Framed}
use dnser.Proto.Message.Parts.{parse-Parts}
use dnser.Proto.Reader
use dnser.Proto.Reader.{Reader}
use dnser.Resolver.Query.{Upstream, resolve}
use dnser.Server.Handler.{process_query, query_udp_limit, build_truncated}
use dnser.Server.Served.{Run, served-IsReply}
use dnser.Server.Sound.{IsReply}
use dnser.Server.Worker.{QueryError, write_error, reply_bytes, handle_query, handle_query-fits}

-- A message that starts with the id of the query, and has the bit of a response set.
pub record IsWireReply (query reply : Bytes) : Type 0 where
  pub whole : 12 ≤ length reply
  pub same_id : take 2 reply ≡ take 2 query
  pub response : (flags : ℕ) × (get_elem? reply 2 ≡ some flags) × (128 ≤ flags)

-- The id of a header that is parsed is its first two bytes.
header-id :
    (datagram : Bytes) (h : Header) (r : Reader)
    → Header.parse (Reader.new datagram) ≡ ok (h, r)
    → (a b : ℕ) × (rest : Bytes) × (datagram ≡ a ∷ b ∷ rest) × (h.id ≡ a * 256 + b)
unfolding Header.parse Reader.read_u16 Reader.new Bytes.slice
header-id [] h r e = absurd (ground arith)
header-id (a ∷ []) h r e = absurd (ground arith)
header-id (a ∷ b ∷ rest) h r e = (a, b, rest, refl, ground arith)

header_bytes-IsWireReply :
    (a b : ℕ) (rest body : Bytes) (h : Header)
    → IsByte a
    → IsByte b
    → h.id ≡ a * 256 + b
    → bit h.flags 15 ≡ 1
    → IsWireReply (a ∷ b ∷ rest) (header_bytes h ++ body)
header_bytes-IsWireReply a b rest body h p q id digit = record {
  whole = omega arith;
  same_id =
      let high : h.id / 256 % 256 ≡ a = omega (arith, id) in
      let low : h.id % 256 ≡ b = omega (arith, id) in ap₂ (λ (x y : ℕ). x ∷ y ∷ []) high low;
  response = (h.flags / 256 % 256, refl, omega (arith, digit));
}

to_bytes-IsWireReply :
    (datagram bytes : Bytes) (query m : Message)
    → All IsByte datagram
    → Message.parse datagram ≡ ok query
    → m.header.id ≡ query.header.id
    → is_response m.header ≡ true
    → to_bytes m ≡ ok bytes
    → IsWireReply datagram bytes
unfolding is_response
to_bytes-IsWireReply datagram bytes query m octets p same response e =
    let (a, b, rest, start, id) =
      header-id datagram query.header _ (parse-Parts datagram query p).header in
    let framed = to_bytes-Framed m bytes e in
    let digit : bit m.header.flags 15 ≡ 1 = ground (arith, response, flag_test m.header.flags 15) in
    let (first, (second, _)) = subst (All IsByte) start octets in
    subst (λ (d : Bytes). IsWireReply d bytes) (sym start)
      (subst (IsWireReply (a ∷ b ∷ rest)) (sym framed.whole)
        (header_bytes-IsWireReply a b rest framed.body m.header first second (same ∙ id) digit))

build_truncated_header :
    (query : Message)
    → ((build_truncated query).header.id ≡ query.header.id)
      × (is_response (build_truncated query).header ≡ true)
unfolding build_truncated
build_truncated_header query = let h = reply_to_lem query.header Header.tc in (h.0, h.3)

reply_bytes-cases :
    (query response : Message) (bytes : Bytes)
    → reply_bytes query response ≡ ok bytes
    → (to_bytes response ≡ ok bytes) ⊎ (to_bytes (build_truncated query) ≡ ok bytes)
unfolding reply_bytes
reply_bytes-cases query response bytes e =
    let (whole, p, q) = >>=-eq-ok (map_err write_error (to_bytes response)) _ e in
    elim (Bool-cases (ltb (query_udp_limit query) (length whole))) [
      | inl over ↦ inr (ground (arith, q))
      | inr fits ↦ inl (ground (arith, p, q))
    ]

module _ (iter : Shard → Shard) (hash_one : List HashCall → ℕ) (capacity cap : ℕ)
    (us : List Upstream) where
  -- Whatever queries were served before, and whatever the upstreams, the network and the reaper do:
  -- what is sent for a datagram of bytes is a message that starts with the datagram's first two
  -- bytes, the id, and has the bit of a response set; it is no longer than the limit for UDP of the
  -- query that the datagram parses as, or it is the truncated reply to that query.
  pub handle_query-IsWireReply :
      {c : Cache} (now later : ℕ) (datagram bytes : Bytes)
      → Run iter hash_one capacity cap c
      → All IsByte datagram
      → (handle_query iter hash_one (resolve us) now later datagram c).0 ≡ ok bytes
      → IsWireReply datagram bytes
        × (query : Message) × (Message.parse datagram ≡ ok query)
        × ((length bytes ≤ query_udp_limit query) ⊎ (to_bytes (build_truncated query) ≡ ok bytes))
  unfolding handle_query
  handle_query-IsWireReply {c} now later datagram bytes run octets e =
      let (query, p, fits) =
        handle_query-fits iter hash_one (resolve us) now later datagram bytes c e in
      let reply : Message = (process_query iter hash_one (resolve us) now later query c).0 in
      let r : IsReply query reply =
        served-IsReply iter hash_one capacity cap us now later query run in
      let short = build_truncated_header query in
      let sent : reply_bytes query reply ≡ ok bytes = ground (arith, p, e) in
      (
        elim (reply_bytes-cases query reply bytes sent) [
          | inl written ↦
              to_bytes-IsWireReply datagram bytes query reply octets p r.same_id r.response written
          | inr written ↦
              to_bytes-IsWireReply datagram bytes query (build_truncated query) octets p short.0
                short.1 written
        ],
        query,
        p,
        fits,
      )
