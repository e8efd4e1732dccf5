-- ===== src/Resolver/InFlight.antt =====
-- The ids of the queries in flight.
use dnser.Base.{
  ℕ, zero, suc, ◌+◌, ◌-◌, ◌%◌, ◌^◌, ◌≤◌, ◌<◌, ◌≡◌, subst, true, false, none, some, List, [], ◌∷◌,
  ◌==◌, take, ok, err, arith, Bool-cases, inl, inr, length,
}
use dnser.Base.Bytes.{Bytes, from_be_bytes}
use dnser.Resolver.{
  id_space_exhausted, is_taken, try_random, scan, find_id, allocate_and_insert, random_id_attempts,
  receive, remove_id,
}

module _ {Tx : Type 0} where
  scan-is_taken :
      (n start offset k : ℕ) (in_flight : List (ℕ × Tx))
      → scan n start offset in_flight ≡ none
      → offset ≤ k
      → k < offset + n
      → is_taken ((start + k) % 2 ^ 16) in_flight ≡ true
  unfolding scan
  scan-is_taken zero start offset k in_flight e h₁ h₂ = absurd (omega arith)
  scan-is_taken (suc n) start offset k in_flight e h₁ h₂ =
      elim (Bool-cases (is_taken ((start + offset) % 2 ^ 16) in_flight)) [
        | inr free ↦ absurd (ground (arith, e, free))
        | inl taken ↦ elim (Bool-cases (k == offset)) [
          | inl here ↦
              subst (λ (j : ℕ). is_taken ((start + j) % 2 ^ 16) in_flight ≡ true)
                (ground (arith, here)) taken
          | inr further ↦
              scan-is_taken n start (offset + 1) k in_flight (ground (arith, e, taken))
                (ground (arith, further, h₁)) (omega (arith, h₂))
        ]
      ]

  -- With a random start below 2 ^ 16, allocation fails only where all 65536 ids are in flight.
  pub allocate_exhausted :
      (randoms : List ℕ) (start id : ℕ) (tx : Tx) (in_flight : List (ℕ × Tx))
      → start < 2 ^ 16
      → allocate_and_insert randoms start tx in_flight ≡ err id_space_exhausted
      → id < 2 ^ 16
      → is_taken id in_flight ≡ true
  unfolding allocate_and_insert find_id
  allocate_exhausted randoms start id tx in_flight small e h =
      let none_free : scan (2 ^ 16) start 0 in_flight ≡ none = ground (arith, e) in
      let k : ℕ = (id + 2 ^ 16 - start) % 2 ^ 16 in
      subst (λ (j : ℕ). is_taken j in_flight ≡ true) (omega (arith, h, small))
        (scan-is_taken (2 ^ 16) start 0 k in_flight none_free (omega arith) (omega arith))

  scan-free :
      (n start offset id : ℕ) (in_flight : List (ℕ × Tx))
      → scan n start offset in_flight ≡ some id
      → is_taken id in_flight ≡ false
  unfolding scan
  scan-free zero start offset id in_flight e = absurd (ground arith)
  scan-free (suc n) start offset id in_flight e =
      elim (Bool-cases (is_taken ((start + offset) % 2 ^ 16) in_flight)) [
        | inl taken ↦ scan-free n start (offset + 1) id in_flight (ground (arith, e, taken))
        | inr free ↦ subst (λ (j : ℕ). is_taken j in_flight ≡ false) (ground (arith, e, free)) free
      ]

  random-free :
      (randoms : List ℕ) (id : ℕ) (in_flight : List (ℕ × Tx))
      → try_random randoms in_flight ≡ some id
      → is_taken id in_flight ≡ false
  unfolding try_random
  random-free [] id in_flight e = absurd (ground arith)
  random-free (r ∷ rs) id in_flight e = elim (Bool-cases (is_taken r in_flight)) [
    | inl taken ↦ random-free rs id in_flight (ground (arith, e, taken))
    | inr free ↦ subst (λ (j : ℕ). is_taken j in_flight ≡ false) (ground (arith, e, free)) free
  ]

  pub allocated :
      (randoms : List ℕ) (start id : ℕ) (tx : Tx) (in_flight in_flight' : List (ℕ × Tx))
      → allocate_and_insert randoms start tx in_flight ≡ ok (id, in_flight')
      → (is_taken id in_flight ≡ false) × (in_flight' ≡ (id, tx) ∷ in_flight)
  unfolding allocate_and_insert find_id
  allocated randoms start id tx in_flight in_flight' e = (
    ground (
      arith,
      e,
      random-free (take random_id_attempts randoms) id in_flight,
      scan-free (2 ^ 16) start 0 id in_flight,
    ),
    ground (arith, e),
  )

  -- An id that is allocated was free, whatever the random numbers, and a datagram of 12 bytes or more
  -- that begins with that id is then handed to the query that allocated it, which leaves the table
  -- as it was.
  pub receive-allocate :
      (randoms : List ℕ) (start id : ℕ) (tx : Tx) (in_flight in_flight' : List (ℕ × Tx))
      (datagram : Bytes)
      → allocate_and_insert randoms start tx in_flight ≡ ok (id, in_flight')
      → from_be_bytes (take 2 datagram) ≡ id
      → 12 ≤ length datagram
      → (is_taken id in_flight ≡ false) × (receive datagram in_flight' ≡ (some tx, in_flight))
  unfolding receive remove_id
  receive-allocate randoms start id tx in_flight in_flight' datagram e begins long =
      let (free, whole) = allocated randoms start id tx in_flight in_flight' e in
      (free, ground (arith, whole, begins, long))
