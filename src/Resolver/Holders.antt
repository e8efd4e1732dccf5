-- ===== src/Resolver/Holders.antt =====
-- The table of ids as a map: who holds an id.
use dnser.Base.{
  ℕ, ◌≡◌, ◌≢◌, refl, false, Option, none, List, [], ◌∷◌, ◌==◌, arith, Bool-cases, inl, inr,
}
use dnser.Resolver.{is_taken, remove_id}

module _ {Tx : Type 0} where
  abbrev pub holder : ℕ → List (ℕ × Tx) → Option Tx
  holder id in_flight = (remove_id id in_flight).0

  -- Every id is there once.
  abbrev pub Distinct : List (ℕ × Tx) → Type 0
  Distinct [] = Unit
  Distinct ((k, tx) ∷ rest) = (is_taken k rest ≡ false) × Distinct rest

  pub holder_free : (id : ℕ) (xs : List (ℕ × Tx)) → is_taken id xs ≡ false → holder id xs ≡ none
  unfolding is_taken remove_id
  holder_free id [] h = refl
  holder_free id ((k, tx) ∷ rest) h = ground (arith, h, holder_free id rest)

  is_taken-remove_id :
      (k id : ℕ) (xs : List (ℕ × Tx))
      → is_taken k xs ≡ false
      → is_taken k (remove_id id xs).1 ≡ false
  unfolding is_taken remove_id
  is_taken-remove_id k id [] h = refl
  is_taken-remove_id k id ((k', tx) ∷ rest) h = ground (arith, h, is_taken-remove_id k id rest)

  pub remove_id-Distinct :
      (id : ℕ) (xs : List (ℕ × Tx)) → Distinct xs → Distinct (remove_id id xs).1
  unfolding remove_id
  remove_id-Distinct id [] h = tt
  remove_id-Distinct id ((k, tx) ∷ rest) (free, h) = elim (Bool-cases (k == id)) [
    | inl here ↦ rw here h
    | inr other ↦ rw other (is_taken-remove_id k id rest free, remove_id-Distinct id rest h)
  ]

  pub holder-removed :
      (id : ℕ) (xs : List (ℕ × Tx)) → Distinct xs → holder id (remove_id id xs).1 ≡ none
  unfolding remove_id
  holder-removed id [] h = refl
  holder-removed id ((k, tx) ∷ rest) (free, h) =
      ground (arith, holder-removed id rest h, holder_free id rest, free)

  pub holder_other :
      (id' id : ℕ) (xs : List (ℕ × Tx)) → id' ≢ id → holder id' (remove_id id xs).1 ≡ holder id' xs
  unfolding remove_id
  holder_other id' id [] h = refl
  holder_other id' id ((k, tx) ∷ rest) h = ground (arith, h, holder_other id' id rest h)
