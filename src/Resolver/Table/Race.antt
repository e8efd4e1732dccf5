-- ===== src/Resolver/Table/Race.antt =====
-- A query that ends with its guard armed after `recv_loop` has removed its id.
use dnser.Base.{
  ℕ, ◌/◌, ◌%◌, ◌^◌, ◌<◌, ◌≡◌, ◌≢◌, refl, ap, subst, ◌∙◌, Bool, true, false, Option, none, some,
  List, [], ◌∷◌, arith, ok, ◌⊎◌, inl, inr, Option-cases,
}
use dnser.Base.Bytes.{Bytes}
use dnser.Resolver.{allocate_and_insert, remove_id, receive, is_taken, find_id, try_random}
use dnser.Resolver.Table.{
  Phase, idle, finished, waiting, delivered, sender_dropped, ending, Table, update, with_datagram,
  deliver, on_datagram, send, armed_id, stop_waiting, drop_guard, register, datagram, sending, stop,
  drop, Reach, later,
}

-- A header that begins with the id.
abbrev reply_header : ℕ → Bytes
reply_header id = id / 256 % 256 ∷ id % 256 ∷ 0 ∷ 0 ∷ 0 ∷ 0 ∷ 0 ∷ 0 ∷ 0 ∷ 0 ∷ 0 ∷ 0 ∷ []

receive-reply_header :
    (id i : ℕ) (xs : List (ℕ × ℕ))
    → id < 2 ^ 16
    → receive (reply_header id) ((id, i) ∷ xs) ≡ (some i, xs)
unfolding receive remove_id
receive-reply_header id i xs small = ground (arith, small)

on_datagram_step :
    (id i : ℕ) (s : Table) (xs : List (ℕ × ℕ))
    → id < 2 ^ 16
    → s.in_flight ≡ (id, i) ∷ xs
    → on_datagram (reply_header id) s
      ≡ record s { in_flight = xs; hand = some (reply_header id, i) }
unfolding on_datagram
on_datagram_step id i s xs small e =
    ap
      (λ (r : Option ℕ × List (ℕ × ℕ)). record s {
        in_flight = r.1;
        hand = with_datagram (reply_header id) r.0;
      })
      (ap (receive (reply_header id)) e ∙ receive-reply_header id i xs small)

allocates :
    (id i : ℕ) (xs : List (ℕ × ℕ))
    → is_taken id xs ≡ false
    → allocate_and_insert (id ∷ []) 0 i xs ≡ ok (id, (id, i) ∷ xs)
unfolding allocate_and_insert find_id try_random
allocates id i xs free = ground (arith, free)

-- Once the hand is empty, the table is as it was, and so are the queries that are still to be made.
send-idle :
    (s : Table)
    → ((send s).hand ≡ none)
      × ((send s).in_flight ≡ s.in_flight)
      × ((i : ℕ) → s.phase i ≡ idle → (send s).phase i ≡ idle)
unfolding send
send-idle s = elim (Option-cases s.hand) [
  | inl free ↦ rw (free, send) (free, refl, λ i e. e)
  | inr ((b, j), held) ↦ rw (held, send) (refl, refl, λ i e. ground (arith, e))
]

module _ (may_end : Phase → Bool) where
  -- One query is registered and its datagram comes, which frees its id; and then the query is to return
  -- with its guard armed.
  record Stale (s : Table) (i id : ℕ) : Type 0 where
    pub phase : ℕ → Phase
    pub hand : Option (Bytes × ℕ)
    pub reached : Reach may_end (record { in_flight = s.in_flight; hand = hand; phase = phase })
    pub armed : phase i ≡ ending id
    pub others : (j : ℕ) → i ≢ j → phase j ≡ s.phase j

  stops :
      (t : Table) (i id : ℕ)
      → Reach may_end t
      → armed_id (t.phase i) ≡ some id
      → may_end (t.phase i) ≡ true
      → Reach may_end (record t { phase = update t.phase i (ending id) })
  unfolding stop_waiting
  stops t i id run armed ends =
      subst (Reach may_end) (rw (armed, stop_waiting) refl) (later run (stop i ends))

  stale :
      (s : Table) (i id : ℕ)
      → ((b : Bytes) → may_end (delivered id b) ≡ true) ⊎ (may_end (waiting id) ≡ true)
      → Reach may_end s
      → s.hand ≡ none
      → s.phase i ≡ idle
      → id < 2 ^ 16
      → is_taken id s.in_flight ≡ false
      → Stale s i id
  stale s i id ends run empty_hand fresh small free =
      let b : Bytes = reply_header id in
      let waits : Table = record s {
        in_flight = (id, i) ∷ s.in_flight;
        phase = update s.phase i (waiting id);
      } in
      let there : Reach may_end waits = later run (
        register (id ∷ []) 0 i id ((id, i) ∷ s.in_flight) fresh
          (allocates id i s.in_flight free)) in
      let taken : Table = record waits { in_flight = s.in_flight; hand = some (b, i) } in
      let removed : Reach may_end taken =
        subst (Reach may_end) (on_datagram_step id i waits s.in_flight small refl)
          (later there (datagram b empty_hand)) in
      elim ends [
        | inl cancels ↦
            let told : Table = record taken {
              hand = none;
              phase = update waits.phase i (deliver b (waits.phase i));
            } in
            let has_answer : told.phase i ≡ delivered id b = ground arith in
            record {
              phase = update told.phase i (ending id);
              hand = none;
              reached =
                  stops told i id (unfold send in later removed sending) (ap armed_id has_answer)
                    (ap may_end has_answer ∙ cancels b);
              armed = ground arith;
              others = λ j apart. ground (arith, apart);
            }
        | inr times_out ↦
            let still_waits : taken.phase i ≡ waiting id = ground arith in
            record {
              phase = update waits.phase i (ending id);
              hand = some (b, i);
              reached =
                  stops taken i id removed (ap armed_id still_waits)
                    (ap may_end still_waits ∙ times_out);
              armed = ground arith;
              others = λ j apart. ground (arith, apart);
            }
      ]

  -- If a query may end early while it waits, as a timeout ends it, or once its answer is in the
  -- channel, as cancellation may, then from every reachable state in which two queries are about to
  -- be made and some id is free, the datagram for the first can be taken out of the table, the
  -- second be given the id, and the end of the first leave the second without its sender.
  pub cancellation_drops_sender :
      {s : Table} (i j id : ℕ)
      → ((b : Bytes) → may_end (delivered id b) ≡ true) ⊎ (may_end (waiting id) ≡ true)
      → Reach may_end s
      → i ≢ j
      → s.phase i ≡ idle
      → s.phase j ≡ idle
      → id < 2 ^ 16
      → is_taken id s.in_flight ≡ false
      → (t : Table) × Reach may_end t × (t.phase i ≡ finished) × (t.phase j ≡ sender_dropped id)
  unfolding drop_guard remove_id
  cancellation_drops_sender {s} i j id ends run apart fresh_i fresh_j small free =
      let (empty_hand, same, idles) = send-idle s in
      let st : Stale (send s) i id =
        stale (send s) i id ends (later run sending) empty_hand (idles i fresh_i) small
          (ap (is_taken id) same ∙ free) in
      let xs : List (ℕ × ℕ) = (send s).in_flight in
      let p : ℕ → Phase = update st.phase j (waiting id) in
      let t : Table = record { in_flight = (id, j) ∷ xs; hand = st.hand; phase = p } in
      let there : Reach may_end t = later st.reached (
        register (id ∷ []) 0 j id ((id, j) ∷ xs) (st.others j apart ∙ idles j fresh_j)
          (allocates id j xs (ap (is_taken id) same ∙ free))) in
      let last : p i ≡ ending id = ground (arith, apart, st.armed) in
      (drop_guard i t, later there (drop i), ground (arith, last), ground (arith, last, apart))
