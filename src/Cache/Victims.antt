-- ===== src/Cache/Victims.antt =====
-- Which entry `evict_one` removes, and what removing it leaves.
use dnser.Base.{
  ℕ, ◌+◌, ◌≡◌, ◌≢◌, refl, subst, true, false, Option, none, some, [], ◌∷◌, length, All, leb, arith,
  Bool-cases, inl, inr,
}
use dnser.Cache.{Shard, CacheEntry, remove, contains_key, victim}
use dnser.Cache.Keys.{CacheKey, same_key}

pub length-remove :
    (k : CacheKey) (s : Shard) → contains_key k s ≡ true → length (remove k s) + 1 ≡ length s
unfolding remove contains_key
length-remove k [] h = absurd (ground arith)
length-remove k ((k', e) ∷ rest) h = elim (Bool-cases (same_key k' k)) [
  | inl same ↦ ground arith
  | inr other ↦ ground (arith, length-remove k rest)
]

pub length-remove_missing :
    (k : CacheKey) (s : Shard) → contains_key k s ≡ false → length (remove k s) ≡ length s
unfolding remove contains_key
length-remove_missing k [] h = refl
length-remove_missing k ((k', e) ∷ rest) h = elim (Bool-cases (same_key k' k)) [
  | inl same ↦ absurd (ground arith)
  | inr other ↦ ground (arith, length-remove_missing k rest)
]

pub victim-contains_key :
    (now : ℕ) (whole : Shard) (first : Option CacheKey) (s : Shard) (k : CacheKey)
    → All (λ (e : CacheKey × CacheEntry). contains_key e.0 whole ≡ true) s
    → ((k₀ : CacheKey) → first ≡ some k₀ → contains_key k₀ whole ≡ true)
    → victim now first s ≡ some k
    → contains_key k whole ≡ true
unfolding victim
victim-contains_key now whole first [] k h hf e = hf k e
victim-contains_key now whole none ((k', entry) ∷ rest) k (h, hs) hf e =
    elim (Bool-cases (leb entry.expires_at now)) [
      | inl old ↦ ground arith
      | inr fresh ↦
          victim-contains_key now whole (some k') rest k hs
            (λ k₀ p. subst (λ t. contains_key t whole ≡ true) (ground arith) h) (ground arith)
    ]
victim-contains_key now whole (some k₁) ((k', entry) ∷ rest) k (h, hs) hf e =
    elim (Bool-cases (leb entry.expires_at now)) [
      | inl old ↦ ground arith
      | inr fresh ↦ victim-contains_key now whole (some k₁) rest k hs hf (ground arith)
    ]

victim-some : (now : ℕ) (k : CacheKey) (s : Shard) → victim now (some k) s ≢ none
unfolding victim
victim-some now k [] e = ground arith
victim-some now k ((k', entry) ∷ rest) e = ground (arith, victim-some now k rest)

pub victim-none : (now : ℕ) (s : Shard) → victim now none s ≡ none → s ≡ []
unfolding victim
victim-none now [] e = refl
victim-none now ((k', entry) ∷ rest) e = absurd (ground (arith, victim-some now k' rest))
