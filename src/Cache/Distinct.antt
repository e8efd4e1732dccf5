-- ===== src/Cache/Distinct.antt =====
-- A shard holds a key once, whatever is removed from it.
use dnser.Base.{
  ℕ, ◌≡◌, ◌↔◌, refl, subst, true, false, [], ◌∷◌, leb, arith, Bool-cases, inl, inr, if_both,
}
use dnser.Base.Bytes.{str_eq_iff}
use dnser.Cache.{Shard, remove, contains_key, retain}
use dnser.Cache.Keys.{CacheKey, same_key}

pub same_key_iff : (a b : CacheKey) → (same_key a b ≡ true) ↔ (a ≡ b)
unfolding same_key
same_key_iff a b = ground (arith, str_eq_iff a.name b.name)

-- A shard holds a key once.
abbrev pub Distinct : Shard → Type 0
Distinct [] = Unit
Distinct ((k, e) ∷ rest) = (contains_key k rest ≡ false) × Distinct rest

pub contains_key-remove :
    (key k : CacheKey) (s : Shard)
    → contains_key key s ≡ false
    → contains_key key (remove k s) ≡ false
unfolding contains_key remove
contains_key-remove key k [] h = refl
contains_key-remove key k ((k', e) ∷ rest) h = ground (arith, h, contains_key-remove key k rest)

pub remove-Distinct : (k : CacheKey) (s : Shard) → Distinct s → Distinct (remove k s)
unfolding remove
remove-Distinct k [] h = tt
remove-Distinct k ((k', e) ∷ rest) (free, h) =
    if_both Distinct (same_key k' k) h
      (contains_key-remove k' k rest free, remove-Distinct k rest h)

contains_key-retain :
    (key : CacheKey) (now : ℕ) (s : Shard)
    → contains_key key s ≡ false
    → contains_key key (retain now s) ≡ false
unfolding contains_key retain
contains_key-retain key now [] h = refl
contains_key-retain key now ((k', e) ∷ rest) h = ground (arith, h, contains_key-retain key now rest)

pub retain-Distinct : (now : ℕ) (s : Shard) → Distinct s → Distinct (retain now s)
unfolding retain
retain-Distinct now [] h = tt
retain-Distinct now ((k', e) ∷ rest) (free, h) =
    if_both Distinct (leb e.expires_at now) (retain-Distinct now rest h)
      (contains_key-retain k' now rest free, retain-Distinct now rest h)

pub removed : (key : CacheKey) (s : Shard) → Distinct s → contains_key key (remove key s) ≡ false
unfolding contains_key remove
removed key [] h = refl
removed key ((k, e) ∷ rest) (free, h) = elim (Bool-cases (same_key k key)) [
  | inl same ↦
      rw same
        (subst (λ (t : CacheKey). contains_key t rest ≡ false) ((same_key_iff k key).0 same) free)
  | inr other ↦ ground (arith, other, removed key rest h)
]
