-- ===== src/Testing/Fallback.antt =====
-- A resolver over a dual mock upstream: the truncated reply by UDP sends it to TCP.
use dnser.Base.{
  ℕ, suc, ◌≡◌, refl, ap, sym, ◌∙◌, Option, true, some, List, [], ◌∷◌, ◌≤◌, ◌++◌, length, ok, arith,
  append-nil, ◌<◌, ◌^◌,
}
use dnser.Base.Bytes.{Bytes, IsU16, be16}
use dnser.Net.{read_framed, write_framed, read_framed-write_framed}
use dnser.Proto.Header.{ra, tc, is_truncated, reply_to}
use dnser.Proto.Message
use dnser.Proto.Message.{Message, to_bytes, max_udp_size}
use dnser.Proto.Message.RoundTrip.{IsValid, message_round_trip}
use dnser.Resolver.{allocate_and_insert}
use dnser.Resolver.Patch.{asking}
use dnser.Resolver.Query.{
  Upstream, stream, patch, query_upstream, finish, tcp_query, exchange, over_stream,
}
use dnser.Server.Tcp.Pipeline.{parse-nonempty}
use dnser.Testing.Echo.{
  ra-IsExtra, tc-IsExtra, Mocked, mocked, asking-IsValid, accepted, responds-parse, reply_for,
  reply_for-is_truncated, mock_upstream, patched_parse, query_upstream-answered, mock_replies,
}
use dnser.Testing.Mocks.{bare_reply, echo, truncated}
use dnser.Testing.Peers.{buffer, udp_responder, tcp_responder}
use dnser.Testing.Datagrams.{take-whole}

-- A message that is framed comes off the stream whole.
read_first :
    (msg frame later : Bytes) (m : Message)
    → write_framed msg ≡ some frame
    → Message.parse msg ≡ ok m
    → read_framed (frame ++ later) ≡ some (msg, later)
read_first msg frame later m w p =
    read_framed-write_framed msg frame later w ∙ rw (parse-nonempty msg m p) refl

write_framed_short :
    (msg : Bytes) → length msg < 2 ^ 16 → (frame : Bytes) × (write_framed msg ≡ some frame)
unfolding write_framed
write_framed_short msg h = (be16 (length msg) ++ msg, ground (arith, h))

tcp_responder_step :
    (respond : Bytes → Option Bytes) (fuel : ℕ) (given body rest reply frame : Bytes)
    → read_framed given ≡ some (body, rest)
    → respond body ≡ some reply
    → write_framed reply ≡ some frame
    → tcp_responder respond (suc fuel) given ≡ frame ++ tcp_responder respond fuel rest
unfolding tcp_responder
tcp_responder_step respond fuel given body rest reply frame e p w = rw (e, p, w, tcp_responder) refl

over_stream_reads :
    (frame bytes body rest : Bytes)
    → read_framed bytes ≡ some (body, rest)
    → over_stream (some frame) bytes ≡ ok body
over_stream_reads frame bytes body rest e = ground (arith, e)

module _ (query : Message) (v : IsValid query) (sent frame : Bytes)
    (serialised : to_bytes query ≡ ok sent) (short : length sent ≤ buffer)
    (framed : write_framed sent ≡ some frame)
    (fits : (reply : Bytes)
      → to_bytes (bare_reply ra query) ≡ ok reply
      → length reply < 2 ^ 16) where
  sent_parse : Message.parse sent ≡ ok query
  sent_parse =
      let (bytes, p, back) = message_round_trip query v in
      let same : bytes ≡ sent = ground (arith, p, serialised) in
      ap Message.parse (sym (append-nil sent) ∙ ap (λ (b : Bytes). b ++ []) (sym same)) ∙ back []

  -- A query over a connection to a responder that echoes.
  tcp_echo :
      (fuel : ℕ)
      → tcp_query (stream (tcp_responder echo (suc fuel) frame)) query ≡ ok (bare_reply ra query)
  unfolding tcp_query exchange echo
  tcp_echo fuel =
      let m : Mocked ra query = mocked ra query ra-IsExtra v in
      let (back, w) = write_framed_short m.reply (fits m.reply (ground (arith, m.sent))) in
      let asked : read_framed frame ≡ some (sent, []) =
        ap read_framed (sym (append-nil frame))
        ∙ read_first sent frame [] query framed sent_parse in
      let echoed : echo sent ≡ some m.reply =
        responds-parse (bare_reply ra) sent query sent_parse ∙ m.sent in
      let later : Bytes = tcp_responder echo fuel [] in
      let answered_by : tcp_responder echo (suc fuel) frame ≡ back ++ later =
        tcp_responder_step echo fuel frame sent [] m.reply back asked echoed w in
      let body : over_stream (some frame) (tcp_responder echo (suc fuel) frame) ≡ ok m.reply =
        ap (over_stream (some frame)) answered_by
        ∙ over_stream_reads frame (back ++ later) m.reply later
            (read_first m.reply back later (bare_reply ra query) w m.read) in
      rw (serialised, framed, body)
        (accepted ra query query m.reply m.read refl ∙ unfold reply_to in refl)

  -- A resolver asks a dual mock upstream, whose reply by UDP is `mocks::truncated` and whose TCP
  -- side echoes: whatever is in flight, a valid query of 4096 bytes at most, whose reply by UDP has
  -- no more, as the buffers ask, and whose reply by TCP fits a frame, is sent again by TCP and
  -- answered by what the TCP side replies, and not by the truncated reply.
  pub dual_answers :
      (u : Upstream) (id : ℕ) (table : List (ℕ × ℕ)) (peer fuel : ℕ)
      → IsU16 id
      → ((reply : Bytes)
          → to_bytes (bare_reply tc (asking id query)) ≡ ok reply
          → length reply ≤ max_udp_size)
      → allocate_and_insert u.randoms u.start u.tx u.in_flight ≡ ok (id, table)
      → (reply : Bytes) × (udp_responder truncated ((patch id sent, peer) ∷ [])
          ≡ (reply, peer) ∷ [])
        × (query_upstream query (record (mock_upstream u reply) {
          connection = stream (tcp_responder echo (suc fuel) frame);
        })
            ≡ ok (bare_reply ra query))
  unfolding truncated finish
  dual_answers u id table peer fuel small holds registered =
      let m : Mocked tc (asking id query) =
        mocked tc (asking id query) tc-IsExtra (asking-IsValid id query small v) in
      let cut : is_truncated (reply_for tc id query).header ≡ true =
        reply_for-is_truncated tc id query ∙ unfold is_truncated in refl in
      let dual : Upstream = record u {
        connection = stream (tcp_responder echo (suc fuel) frame);
      } in
      (
        m.reply,
        mock_replies query v sent serialised dual id table small short registered tc truncated peer
            m
            (responds-parse (bare_reply tc) (patch id sent) (asking id query)
                (patched_parse query v sent serialised dual id table small short registered)
              ∙ m.sent),
        query_upstream-answered query v sent serialised dual id table small short registered m.reply
            ∙ rw
                (
                  finish,
                  take-whole max_udp_size m.reply (holds m.reply (ground (arith, m.sent))),
                  accepted tc (asking id query) query m.reply m.read refl,
                  cut,
                )
                (tcp_echo fuel),
      )
