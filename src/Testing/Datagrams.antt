-- ===== src/Testing/Datagrams.antt =====
-- Datagrams of 4096 bytes at most, which the buffers of the mocks and of recv_loop of
-- crates/dnser-resolver/src/lib.rs hold whole.
use dnser.Base.{
  ℕ, zero, suc, ◌≤◌, ◌≡◌, refl, ap, ◌∙◌, false, Option, none, some, [], ◌∷◌, ◌==◌, set, length,
  take, arith,
}
use dnser.Base.Bytes.{Bytes}
use dnser.Cache.Shards.{length-set}
use dnser.Resolver.Query.{patch, set_rd}
use dnser.Testing.Peers.{buffer, udp_responder}

pub take-whole : (n : ℕ) (xs : Bytes) → length xs ≤ n → take n xs ≡ xs
take-whole zero [] h = refl
take-whole zero (x ∷ xs) h = absurd (omega arith)
take-whole (suc n) [] h = refl
take-whole (suc n) (x ∷ xs) h = ap (◌∷◌ x) (take-whole n xs (omega arith))

length-set_rd : (b : Option ℕ) (bytes : Bytes) → length (set_rd b bytes) ≡ length bytes
length-set_rd none bytes = refl
length-set_rd (some b) bytes = length-set bytes 2 _

pub length-patch : (id : ℕ) (sent : Bytes) → length (patch id sent) ≡ length sent
unfolding patch
length-patch id sent =
    length-set_rd _ (set (set sent 0 _) 1 _) ∙ length-set (set sent 0 _) 1 _ ∙ length-set sent 0 _

-- One datagram that the buffer holds, and its reply.
pub udp_responder_replies :
    (respond : Bytes → Option Bytes) (peer : ℕ) (datagram reply : Bytes)
    → length datagram ≤ buffer
    → respond datagram ≡ some reply
    → (length reply == 0) ≡ false
    → udp_responder respond ((datagram, peer) ∷ []) ≡ (reply, peer) ∷ []
unfolding udp_responder
udp_responder_replies respond peer datagram [] fits e some_bytes =
    absurd (ground (arith, some_bytes))
udp_responder_replies respond peer datagram (b ∷ bs) fits e some_bytes =
    rw (take-whole buffer datagram fits, e, udp_responder) refl
