-- ===== src/Resolver/Table/Owners.antt =====
-- To whom a datagram goes, in every reachable state.
use dnser.Base.{
  ℕ, ◌≡◌, ◌≢◌, sym, subst, Bool, true, none, some, List, ◌==◌, arith, Bool-cases, Option-cases, inl,
  inr, ◌⊎◌, ltb, length, take,
}
use dnser.Base.Bytes.{Bytes, from_be_bytes}
use dnser.Resolver.{receive}
use dnser.Resolver.Holders.{holder}
use dnser.Resolver.InFlight.{allocated}
use dnser.Resolver.Table.{
  Phase, waiting, delivered, Table, update, deliver, on_datagram, send, armed_id, stop_waiting,
  release, ending_id, drop_guard, disarm, has_outcome, Step, register, datagram, sending,
  take_outcome, stop, drop, Reach, start, later,
}
use dnser.Resolver.Table.Owned.{
  IsFor, IsOwned, empty-IsOwned, register-IsOwned, rephase-IsOwned, remove-IsOwned, take-IsOwned,
  holder-of_rest, delivers,
}

on_datagram-IsOwned :
    (s : Table) (bytes : Bytes) → IsOwned s → s.hand ≡ none → IsOwned (on_datagram bytes s)
unfolding on_datagram receive
on_datagram-IsOwned s bytes h free = elim (Bool-cases (ltb (length bytes) 12)) [
  | inl short ↦ rw short (empty_handed s h)
  | inr long ↦
      let id : ℕ = from_be_bytes (take 2 bytes) in
      elim (Option-cases (holder id s.in_flight)) [
        | inl missing ↦ rw (long, missing) (empty_handed _ (remove-IsOwned s id h))
        | inr (i, held) ↦ rw (long, held) (take-IsOwned s bytes i h (ground (arith, long)) held)
      ]
]
  where
    empty_handed : (t : Table) → IsOwned t → IsOwned (record t { hand = none })
    empty_handed t k = record {
      distinct = k.distinct;
      owned = k.owned;
      taken_out = λ b id j e. absurd (ground (arith, e));
      registered = λ b j e. absurd (ground (arith, e));
      in_hand = λ b id j e. absurd (ground (arith, e));
      answered = k.answered;
    }

-- The query in the hand of `recv_loop` is told.
told-IsOwned :
    (s : Table) (bytes : Bytes) (i : ℕ)
    → IsOwned s
    → s.hand ≡ some (bytes, i)
    → IsOwned (record s { hand = none; phase = update s.phase i (deliver bytes (s.phase i)) })
told-IsOwned s bytes i h held = record {
  distinct = h.distinct;
  owned = λ id j e. ground (arith, e, h.owned id j e, held, h.taken_out bytes id i held);
  taken_out = λ b id j e. absurd (ground (arith, e));
  registered = λ b j e. absurd (ground (arith, e));
  in_hand = λ b id j e. absurd (ground (arith, e));
  answered = λ b id j e. elim (Bool-cases (j == i)) [
    | inr other ↦ h.answered b id j (ground (arith, e, other))
    | inl this ↦ told b id (ground (arith, e, this))
  ];
}
  where
    told : (b : Bytes) (id : ℕ) → deliver bytes (s.phase i) ≡ delivered id b → IsFor id b
    told b id e = elim (delivers bytes (s.phase i) b id e) [
      | inl before ↦ h.answered b id i before
      | inr (waits, same) ↦ subst (IsFor id) same (h.in_hand bytes id i held waits)
    ]

send-IsOwned : (s : Table) → IsOwned s → IsOwned (send s)
unfolding send
send-IsOwned s h = elim (Option-cases s.hand) [
  | inl free ↦ rw (free, send) h
  | inr ((bytes, i), held) ↦ rw (held, send) (told-IsOwned s bytes i h held)
]

stop_waiting-IsOwned : (s : Table) (i : ℕ) → IsOwned s → IsOwned (stop_waiting i s)
unfolding stop_waiting
stop_waiting-IsOwned s i h = elim (Option-cases (armed_id (s.phase i))) [
  | inl ended ↦ rw (ended, stop_waiting) h
  | inr (id, armed) ↦
      rw (armed, stop_waiting)
        (rephase-IsOwned s _ h (record {
          claims = λ id' j e. ground (arith, armed, h.owned id' j e);
          starts = λ j started. ground (arith, started);
          waits = λ id' j e. ground (arith, e);
          answers = λ b id' j e. ground (arith, e);
        }))
]

disarm-IsOwned :
    (s : Table) (i : ℕ) → IsOwned s → has_outcome (s.phase i) ≡ true → IsOwned (disarm i s)
unfolding disarm
disarm-IsOwned s i h told = rephase-IsOwned s _ h (record {
  claims = λ id j e. ground (arith, told, h.owned id j e);
  starts = λ j started. ground (arith, started);
  waits = λ id j e. ground (arith, e);
  answers = λ b id j e. ground (arith, e);
})

-- Whether the holder of an id hears of it, what others claim, wait for and were answered is the same.
release-IsOwned :
    (s : Table) (i id : ℕ) → IsOwned s → ending_id (s.phase i) ≡ some id → IsOwned (release i id s)
release-IsOwned s i id h last = elim (Option-cases (holder id s.in_flight)) [
  | inl missing ↦ rw missing (
      rephase-IsOwned _ _ (remove-IsOwned s id h) (record {
        claims = λ id' j e.
            let (other, there) = holder-of_rest s id id' j h e in
            ground (arith, last, other, h.owned id' j there);
        starts = λ j started. ground (arith, started);
        waits = λ id' j e. ground (arith, e);
        answers = λ b id' j e. ground (arith, e);
      }))
  | inr (k, held) ↦ rw held (
      rephase-IsOwned _ _ (remove-IsOwned s id h) (record {
        claims = λ id' j e.
            let (other, there) = holder-of_rest s id id' j h e in
            ground (arith, last, other, h.owned id' j there, h.owned id k held);
        starts = λ j started. ground (arith, started);
        waits = λ id' j e. ground (arith, e);
        answers = λ b id' j e. ground (arith, e);
      }))
]

drop_guard-IsOwned : (s : Table) (i : ℕ) → IsOwned s → IsOwned (drop_guard i s)
unfolding drop_guard
drop_guard-IsOwned s i h = elim (Option-cases (ending_id (s.phase i))) [
  | inl ended ↦ rw (ended, drop_guard) h
  | inr (id, last) ↦ rw (last, drop_guard) (release-IsOwned s i id h last)
]

Step-IsOwned : (may_end : Phase → Bool) {s t : Table} → IsOwned s → Step may_end s t → IsOwned t
Step-IsOwned may_end {s} h (register randoms first i id in_flight fresh e) =
    let (free, whole) = allocated randoms first id i s.in_flight in_flight e in
    subst
      (λ (xs : List (ℕ × ℕ)).
        IsOwned (record s { in_flight = xs; phase = update s.phase i (waiting id) }))
      (sym whole) (register-IsOwned s i id h fresh free)
Step-IsOwned may_end {s} h (datagram bytes free) = on_datagram-IsOwned s bytes h free
Step-IsOwned may_end {s} h sending = send-IsOwned s h
Step-IsOwned may_end {s} h (take_outcome i told) = disarm-IsOwned s i h told
Step-IsOwned may_end {s} h (stop i e) = stop_waiting-IsOwned s i h
Step-IsOwned may_end {s} h (drop i) = drop_guard-IsOwned s i h

pub Reach-IsOwned : (may_end : Phase → Bool) {s : Table} → Reach may_end s → IsOwned s
Reach-IsOwned may_end start = empty-IsOwned
Reach-IsOwned may_end (later run step) = Step-IsOwned may_end (Reach-IsOwned may_end run) step

-- In every reachable state, whatever ends queries early, and whatever runs between the removal of an id
-- and the sending of its datagram: an answer that a query has when `recv_loop` sends what it holds has
-- 12 bytes or more and begins with the query's id. If the query did not have it before, it waited, the
-- answer is what `recv_loop` held for it, and the id does not lead to the query any more.
pub delivered_to_owner :
    (may_end : Phase → Bool) {s : Table} (bytes : Bytes) (j id : ℕ)
    → Reach may_end s
    → (send s).phase j ≡ delivered id bytes
    → IsFor id bytes
      × ((s.phase j ≡ delivered id bytes)
          ⊎ ((s.phase j ≡ waiting id)
              × (s.hand ≡ some (bytes, j))
              × (holder id (send s).in_flight ≢ some j)))
unfolding send
delivered_to_owner may_end {s} bytes j id run e = (
  (send-IsOwned s h).answered bytes id j e,
  elim (Option-cases s.hand) [
    | inl free ↦ inl (ground (arith, e, free))
    | inr ((b, i), held) ↦ elim (Bool-cases (j == i)) [
      | inr other ↦ inl (ground (arith, e, held, other))
      | inl this ↦ elim (delivers b (s.phase j) bytes id (ground (arith, e, held, this))) [
        | inl before ↦ inl before
        | inr (waits, same) ↦
            let mine : s.hand ≡ some (bytes, j) = ground (arith, held, this, same) in
            inr (waits, mine, rw held (h.taken_out bytes id j mine))
      ]
    ]
  ],
)
  where
    h : IsOwned s
    h = Reach-IsOwned may_end run
