-- ===== src/Resolver/Table.antt =====
-- The queries of one upstream socket over its table of ids: `query`, `InFlightGuard`, `recv_loop`. Each
-- query is a task, known by its number. What happens under one lock is one step, and what happens
-- outside it another: `recv_loop` takes a sender out of the table and then sends, and a query stops
-- waiting and then drops its guard, with any steps of the others in between.
pub mod Owned
pub mod Owners
pub mod Registered
pub mod Race
use dnser.Base.{
  ℕ, ◌≡◌, Bool, true, false, Option, none, some, List, [], ◌∷◌, ◌==◌, if◌then◌else◌, ok,
}
use dnser.Base.Bytes.{Bytes}
use dnser.Resolver.{allocate_and_insert, remove_id, receive}

-- How far a query is, with its id: it waits, its answer is in the channel, the sender was dropped,
-- its wait is over and its guard still has the id.
pub data Phase : Type 0 where
  idle finished : Phase
  waiting sender_dropped ending : ℕ → Phase
  delivered : ℕ → Bytes → Phase

-- `hand` is the sender that `recv_loop` has taken out, with the datagram for it.
pub record Table : Type 0 where
  pub in_flight : List (ℕ × ℕ)
  pub hand : Option (Bytes × ℕ)
  pub phase : ℕ → Phase

abbrev pub update : (ℕ → Phase) → ℕ → Phase → ℕ → Phase
update phase i p j = if j == i then p else phase j

-- A receiver that still waits has the answer; one that is gone gets nothing.
abbrev pub deliver : Bytes → Phase → Phase
deliver bytes (waiting id) = delivered id bytes
deliver bytes p = p

-- A sender is dropped.
abbrev pub drop_sender : Phase → Phase
drop_sender (waiting id) = sender_dropped id
drop_sender p = p

abbrev pub at_holder : (Phase → Phase) → Option ℕ → (ℕ → Phase) → ℕ → Phase
at_holder f none phase = phase
at_holder f (some j) phase = update phase j (f (phase j))

abbrev pub with_datagram : Bytes → Option ℕ → Option (Bytes × ℕ)
with_datagram datagram none = none
with_datagram datagram (some tx) = some (datagram, tx)

-- `recv` of a datagram, and `map.remove(&id)`
unfoldable pub on_datagram : Bytes → Table → Table
on_datagram datagram s =
    let (tx, rest) = receive datagram s.in_flight in
    record s { in_flight = rest; hand = with_datagram datagram tx }

-- `tx.send`
unfoldable pub send : Table → Table
send s = elim s.hand [
  | none ↦ s
  | some (datagram, tx) ↦ record s {
    hand = none;
    phase = at_holder (deliver datagram) (some tx) s.phase;
  }
]

-- The id of a query that has not returned, whose guard is armed.
abbrev pub armed_id : Phase → Option ℕ
armed_id (waiting id) = some id
armed_id (delivered id _) = some id
armed_id (sender_dropped id) = some id
armed_id _ = none

-- Query `i` is to return with its guard armed, after a timeout, a failure to send or cancellation: its
-- receiver is dropped.
unfoldable pub stop_waiting : ℕ → Table → Table
stop_waiting i s = elim (armed_id (s.phase i)) [
  | none ↦ s
  | some id ↦ record s { phase = update s.phase i (ending id) }
]

-- `map.remove(&id)` in the guard of query `i`
abbrev pub release : ℕ → ℕ → Table → Table
release i id s =
    let (tx, rest) = remove_id id s.in_flight in
    record s { in_flight = rest; phase = update (at_holder drop_sender tx s.phase) i finished }

abbrev pub ending_id : Phase → Option ℕ
ending_id (ending id) = some id
ending_id _ = none

-- `drop` of the guard of query `i`
unfoldable pub drop_guard : ℕ → Table → Table
drop_guard i s = elim (ending_id (s.phase i)) [ none ↦ s | some id ↦ release i id s ]

-- Query `i` ends with its guard disarmed.
unfoldable pub disarm : ℕ → Table → Table
disarm i s = record s { phase = update s.phase i finished }

-- Whether a query has an answer or an error to take.
abbrev pub has_outcome : Phase → Bool
has_outcome (delivered id _) = true
has_outcome (sender_dropped id) = true
has_outcome _ = false

-- `may_end` tells in which phases a query may stop waiting with its guard armed: a timeout takes
-- one that waits, cancellation takes one in any phase. `recv_loop` receives once its hand is empty.
pub data Step (may_end : Phase → Bool) (s : Table) : Table → Type 0 where
  register :
      (randoms : List ℕ) (start i id : ℕ) (in_flight : List (ℕ × ℕ))
      → s.phase i ≡ idle
      → allocate_and_insert randoms start i s.in_flight ≡ ok (id, in_flight)
      → Step may_end s (record s { in_flight = in_flight; phase = update s.phase i (waiting id) })
  datagram : (bytes : Bytes) → s.hand ≡ none → Step may_end s (on_datagram bytes s)
  sending : Step may_end s (send s)
  take_outcome : (i : ℕ) → has_outcome (s.phase i) ≡ true → Step may_end s (disarm i s)
  stop : (i : ℕ) → may_end (s.phase i) ≡ true → Step may_end s (stop_waiting i s)
  drop : (i : ℕ) → Step may_end s (drop_guard i s)

abbrev pub empty : Table
empty = record { in_flight = []; hand = none; phase = λ i. idle }

pub data Reach (may_end : Phase → Bool) : Table → Type 0 where
  start : Reach may_end empty
  later : {s t : Table} → Reach may_end s → Step may_end s t → Reach may_end t
