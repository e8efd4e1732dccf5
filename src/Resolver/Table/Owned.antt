-- ===== src/Resolver/Table/Owned.antt =====
-- What holds of the table, of the hand of recv_loop and of the queries, and what a change of one
-- keeps of it.
use dnser.Base.{
  ap, ◌⊎◌, ℕ, ◌≡◌, ◌≢◌, ap, sym, ◌∙◌, false, Option, none, some, ◌∷◌, ◌==◌, arith, Bool-cases, inl,
  inr, ◌⊎◌, ◌≤◌, length, take,
}
use dnser.Base.Bytes.{Bytes, from_be_bytes}
use dnser.Resolver.{remove_id, is_taken}
use dnser.Resolver.Holders.{holder, Distinct, remove_id-Distinct, holder-removed, holder_other}
use dnser.Resolver.Table.{
  Phase, idle, finished, waiting, sender_dropped, ending, delivered, Table, update, deliver,
  drop_sender, empty,
}

-- The id of a query whose sender may be in the table.
abbrev pub claim : Phase → Option ℕ
claim (waiting id) = some id
claim (ending id) = some id
claim _ = none

-- A datagram that `recv_loop` does not skip, and its id.
pub record IsFor (id : ℕ) (bytes : Bytes) : Type 0 where
  pub begins : from_be_bytes (take 2 bytes) ≡ id
  pub long : 12 ≤ length bytes

-- An id is in the table once, and leads to a query that waits with it or is about to drop its
-- guard. The sender in the hand is that of a query that no id leads to any more; if the query still
-- waits, its id is the datagram's. So is the id of a query that has an answer.
pub record IsOwned (s : Table) : Type 0 where
  pub distinct : Distinct s.in_flight
  pub owned : (id j : ℕ) → holder id s.in_flight ≡ some j → claim (s.phase j) ≡ some id
  pub taken_out : (b : Bytes) (id j : ℕ) → s.hand ≡ some (b, j) → holder id s.in_flight ≢ some j
  pub registered : (b : Bytes) (j : ℕ) → s.hand ≡ some (b, j) → s.phase j ≢ idle
  pub in_hand : (b : Bytes) (id j : ℕ) → s.hand ≡ some (b, j) → s.phase j ≡ waiting id → IsFor id b
  pub answered : (b : Bytes) (id j : ℕ) → s.phase j ≡ delivered id b → IsFor id b

pub empty-IsOwned : IsOwned empty
unfolding remove_id
empty-IsOwned = record {
  distinct = tt;
  owned = λ id j e. absurd (ground arith);
  taken_out = λ b id j e. absurd (ground arith);
  registered = λ b j e. absurd (ground arith);
  in_hand = λ b id j e. absurd (ground arith);
  answered = λ b id j e. absurd (ground arith);
}

pub register-IsOwned :
    (s : Table) (i id : ℕ)
    → IsOwned s
    → s.phase i ≡ idle
    → is_taken id s.in_flight ≡ false
    → IsOwned
        (record s { in_flight = (id, i) ∷ s.in_flight; phase = update s.phase i (waiting id) })
unfolding remove_id
register-IsOwned s i id h fresh free = record {
  distinct = (free, h.distinct);
  owned = λ id' j e. ground (arith, e, fresh, h.owned id' j);
  taken_out = λ b id' j e. ground (arith, fresh, h.taken_out b id' j e, h.registered b j e);
  registered = λ b j e. ground (arith, h.registered b j e);
  in_hand = λ b id' j e w. h.in_hand b id' j e (ground (arith, w, fresh, h.registered b j e));
  answered = λ b id' j e. h.answered b id' j (ground (arith, e));
}

-- A change of phases after which nothing is claimed, waits or is answered that was not before; what is
-- claimed in the table stays so.
pub record Calms (s : Table) (phase : ℕ → Phase) : Type 0 where
  pub claims : (id j : ℕ) → holder id s.in_flight ≡ some j → claim (phase j) ≡ some id
  pub starts : (j : ℕ) → s.phase j ≢ idle → phase j ≢ idle
  pub waits : (id j : ℕ) → phase j ≡ waiting id → s.phase j ≡ waiting id
  pub answers : (b : Bytes) (id j : ℕ) → phase j ≡ delivered id b → s.phase j ≡ delivered id b

pub rephase-IsOwned :
    (s : Table) (phase : ℕ → Phase)
    → IsOwned s
    → Calms s phase
    → IsOwned (record s { phase = phase })
rephase-IsOwned s phase h c = record {
  distinct = h.distinct;
  owned = c.claims;
  taken_out = h.taken_out;
  registered = λ b j e. c.starts j (h.registered b j e);
  in_hand = λ b id j e w. h.in_hand b id j e (c.waits id j w);
  answered = λ b id j e. h.answered b id j (c.answers b id j e);
}

-- The table loses an id.
pub holder-of_rest :
    (s : Table) (id id' j : ℕ)
    → IsOwned s
    → holder id' (remove_id id s.in_flight).1 ≡ some j
    → (id' ≢ id) × (holder id' s.in_flight ≡ some j)
holder-of_rest s id id' j h e = elim (Bool-cases (id' == id)) [
  | inl same ↦ absurd (ground (arith, e, same, holder-removed id s.in_flight h.distinct))
  | inr other ↦
      let apart : id' ≢ id = ground (arith, other) in
      (apart, sym (holder_other id' id s.in_flight apart) ∙ e)
]

pub remove-IsOwned :
    (s : Table) (id : ℕ)
    → IsOwned s
    → IsOwned (record s { in_flight = (remove_id id s.in_flight).1 })
remove-IsOwned s id h = record {
  distinct = remove_id-Distinct id s.in_flight h.distinct;
  owned = λ id' j e. h.owned id' j (holder-of_rest s id id' j h e).1;
  taken_out = λ b id' j e f. h.taken_out b id' j e (holder-of_rest s id id' j h f).1;
  registered = h.registered;
  in_hand = h.in_hand;
  answered = h.answered;
}

-- `recv_loop` has taken out the sender of query `i`.
pub take-IsOwned :
    (s : Table) (bytes : Bytes) (i : ℕ)
    → IsOwned s
    → 12 ≤ length bytes
    → holder (from_be_bytes (take 2 bytes)) s.in_flight ≡ some i
    → IsOwned (record s {
      in_flight = (remove_id (from_be_bytes (take 2 bytes)) s.in_flight).1;
      hand = some (bytes, i);
    })
take-IsOwned s bytes i h long held =
    let k : ℕ = from_be_bytes (take 2 bytes) in
    let claimed : claim (s.phase i) ≡ some k = h.owned k i held in
    let rest : IsOwned (record s { in_flight = (remove_id k s.in_flight).1 }) =
      remove-IsOwned s k h in
    record {
      distinct = rest.distinct;
      owned = rest.owned;
      taken_out = λ b id j e f.
          let (other, there) = holder-of_rest s k id j h f in
          absurd (ground (arith, e, other, h.owned id j there, claimed));
      registered = λ b j e. ground (arith, e, claimed);
      in_hand = λ b id j e w. record {
        begins = ground (arith, e, w, claimed);
        long = ground (arith, e, long);
      };
      answered = h.answered;
    }

-- Only a query that waits is told.
pub delivers :
    (bytes : Bytes) (p : Phase) (b : Bytes) (id : ℕ)
    → deliver bytes p ≡ delivered id b
    → (p ≡ delivered id b) ⊎ ((p ≡ waiting id) × (bytes ≡ b))
delivers bytes idle b id e = inl e
delivers bytes finished b id e = inl e
delivers bytes (waiting k) b id e =
    let same : k ≡ id = ground (arith, e) in inr (ap waiting same, ground (arith, e))
delivers bytes (sender_dropped k) b id e = inl e
delivers bytes (ending k) b id e = inl e
delivers bytes (delivered k b') b id e = inl e

pub deliver-ne-waiting : (bytes : Bytes) (p : Phase) (k : ℕ) → deliver bytes p ≢ waiting k
deliver-ne-waiting bytes idle k = ground arith
deliver-ne-waiting bytes finished k = ground arith
deliver-ne-waiting bytes (waiting id) k = ground arith
deliver-ne-waiting bytes (sender_dropped id) k = ground arith
deliver-ne-waiting bytes (ending id) k = ground arith
deliver-ne-waiting bytes (delivered id b) k = ground arith

pub drop_sender-ne-waiting : (p : Phase) (k : ℕ) → drop_sender p ≢ waiting k
drop_sender-ne-waiting idle k = ground arith
drop_sender-ne-waiting finished k = ground arith
drop_sender-ne-waiting (waiting id) k = ground arith
drop_sender-ne-waiting (sender_dropped id) k = ground arith
drop_sender-ne-waiting (ending id) k = ground arith
drop_sender-ne-waiting (delivered id b) k = ground arith
