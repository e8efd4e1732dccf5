-- ===== src/Tests/Table.antt =====
-- The theorems on the table of an upstream socket in crates/dnser-resolver, at concrete inputs.
use dnser.Base.{ℕ, ◌≡◌, ◌≢◌, ◌⊎◌, refl, Bool, true, false, some, [], ◌∷◌, arith, ok, inr}
use dnser.Base.Bytes.{Bytes}
use dnser.Resolver.{allocate_and_insert, find_id, try_random, is_taken, remove_id, receive}
use dnser.Resolver.Holders.{holder}
use dnser.Resolver.Table.{
  Phase, finished, waiting, delivered, sender_dropped, Table, update, on_datagram, send, register,
  datagram, empty, Reach, start, later,
}
use dnser.Resolver.Table.Owned.{IsFor}
use dnser.Resolver.Table.Owners.{delivered_to_owner}
use dnser.Resolver.Table.Race.{cancellation_drops_sender}
use dnser.Resolver.Table.Registered.{waiting_is_answered}
use dnser.Tests.Resolver.{datagram_for_nine}

-- A query may end in any phase, or while it waits.
abbrev in_any : Phase → Bool
in_any p = true

abbrev on_timeout : Phase → Bool
on_timeout (waiting id) = true
on_timeout _ = false

-- Query 0 waits with id 9.
abbrev one_waits : Table
one_waits = record empty { in_flight = (9, 0) ∷ []; phase = update empty.phase 0 (waiting 9) }

gives_nine : allocate_and_insert {Tx = ℕ} (9 ∷ []) 0 0 [] ≡ ok (9, (9, 0) ∷ [])
unfolding allocate_and_insert find_id try_random is_taken
gives_nine = refl

one_waits_reached : (may_end : Phase → Bool) → Reach may_end one_waits
one_waits_reached may_end = later start (register (9 ∷ []) 0 0 9 ((9, 0) ∷ []) refl gives_nine)

waiting_is_answered_example :
    (answer : Bytes) × ((send (on_datagram datagram_for_nine (send one_waits))).phase 0
      ≡ delivered 9 answer)
    × IsFor 9 answer
waiting_is_answered_example =
    waiting_is_answered in_any datagram_for_nine 0 9 (one_waits_reached in_any) refl (omega arith)
      refl

-- `recv_loop` has the datagram for query 0.
abbrev taken_out : Table
taken_out = on_datagram datagram_for_nine one_waits

told : (send taken_out).phase 0 ≡ delivered 9 datagram_for_nine
unfolding send on_datagram receive remove_id
told = refl

delivered_to_owner_example :
    IsFor 9 datagram_for_nine
    × ((taken_out.phase 0 ≡ delivered 9 datagram_for_nine)
        ⊎ ((taken_out.phase 0 ≡ waiting 9)
            × (taken_out.hand ≡ some (datagram_for_nine, 0))
            × (holder 9 (send taken_out).in_flight ≢ some 0)))
delivered_to_owner_example =
    delivered_to_owner in_any datagram_for_nine 0 9
      (later (one_waits_reached in_any) (datagram datagram_for_nine refl)) told

cancellation_drops_sender_example :
    (t : Table) × Reach on_timeout t × (t.phase 1 ≡ finished) × (t.phase 2 ≡ sender_dropped 8)
unfolding is_taken
cancellation_drops_sender_example =
    cancellation_drops_sender on_timeout 1 2 8 (inr refl) (one_waits_reached on_timeout)
      (omega arith) refl refl (omega arith) refl
