-- ===== src/Testing/Peers.antt =====
-- crates/dnser-testing/src/lib.rs: the mock upstreams and the one-shot clients. A peer is a number;
-- what comes in is an argument, and what is sent the result. `none` of a responder is a panic,
-- which ends its task.
use dnser.Base.{
  ℕ, zero, suc, ◌+◌, Option, none, some, List, [], ◌∷◌, ◌++◌, take, is_empty, if◌then◌else◌, ok,
  err, stuck,
}
use dnser.Base.Bytes.{Bytes}
use dnser.Net.{read_framed, write_framed}
use dnser.Proto.Message
use dnser.Proto.Message.{Message, to_bytes}

-- `[0u8; 4096]`: what is longer is cut.
abbrev pub buffer : ℕ
buffer = 4096

module _ (respond : Bytes → Option Bytes) where
  -- `spawn_udp_responder`: the datagrams that it sends, and to whom.
  unfoldable pub udp_responder : List (Bytes × ℕ) → List (Bytes × ℕ)
  udp_responder [] = []
  udp_responder ((datagram, peer) ∷ later) =
      let sent = udp_responder later in
      elim (respond (take buffer datagram)) [
        | none ↦ []
        | some resp ↦ if is_empty resp then sent else (resp, peer) ∷ sent
      ]

  -- `spawn_udp_responder_counted`: the counter goes up before `respond` is called.
  unfoldable pub udp_responder_counted : ℕ → List (Bytes × ℕ) → List (Bytes × ℕ) × ℕ
  udp_responder_counted count [] = ([], count)
  udp_responder_counted count ((datagram, peer) ∷ later) =
      let (sent, total) = udp_responder_counted (count + 1) later in
      elim (respond (take buffer datagram)) [
        | none ↦ ([], count + 1)
        | some resp ↦ (if is_empty resp then sent else (resp, peer) ∷ sent, total)
      ]

  -- One connection of `spawn_tcp_responder`, on fuel: what is written on it.
  unfoldable pub tcp_responder : ℕ → Bytes → Bytes
  tcp_responder zero stream = []
  tcp_responder (suc fuel) stream = elim (read_framed stream) [
    | none ↦ []
    | some (body, rest) ↦ elim (respond body) [
      | none ↦ []
      | some resp ↦ elim (write_framed resp) [
        | none ↦ []
        | some frame ↦ frame ++ tcp_responder fuel rest
      ]
    ]
  ]

-- `spawn_dual_responder`: one handler for the datagrams, one for a connection.
unfoldable pub dual_responder :
    (Bytes → Option Bytes)
    → (Bytes → Option Bytes)
    → ℕ
    → List (Bytes × ℕ)
    → Bytes
    → List (Bytes × ℕ) × Bytes
dual_responder udp_respond tcp_respond fuel datagrams stream =
    (udp_responder udp_respond datagrams, tcp_responder tcp_respond fuel stream)

-- `parse(…).unwrap()`
abbrev parsed : Bytes → Option Message
parsed bytes = elim (Message.parse bytes) [ ok m ↦ some m | err e ↦ none | stuck ↦ none ]

-- `udp_query`: `server` is what comes back for a datagram.
unfoldable pub udp_query : (Bytes → Bytes) → Message → Option Message
udp_query server query = elim (to_bytes query) [
  | ok bytes ↦ parsed (take buffer (server bytes))
  | err e ↦ none
  | stuck ↦ none
]

abbrev read_message : Option (Bytes × Bytes) → Option Message
read_message none = none
read_message (some (body, rest)) = parsed body

abbrev over_connection : (Bytes → Bytes) → Option Bytes → Option Message
over_connection server none = none
over_connection server (some frame) = read_message (read_framed (server frame))

-- `tcp_query`: `server` is what is written for a stream.
unfoldable pub tcp_query : (Bytes → Bytes) → Message → Option Message
tcp_query server query = elim (to_bytes query) [
  | ok bytes ↦ over_connection server (write_framed bytes)
  | err e ↦ none
  | stuck ↦ none
]
