-- ===== src/Base/Errors.antt =====
-- Rust's `Result`, with `?` as bind. `stuck` is no Rust value: a loop of the model ran out of fuel.
use mathlib.Core.Path.{◌≡◌, refl}
use mathlib.Core.Logic.{◌≢◌}
use native.Mathlib.Omega.{arith}

pub data Result {ℓ} (E : Type 0) (A : Type ℓ) : Type ℓ where
  ok : A → Result E A
  err : E → Result E A
  stuck : Result E A

infixl 5 ◌>>=◌
abbrev pub ◌>>=◌ {ℓ κ} :
    {E : Type 0} {A : Type ℓ} {B : Type κ} → Result E A → (A → Result E B) → Result E B
ok a >>= f = f a
err e >>= f = err e
stuck >>= f = stuck

-- `map_err`
abbrev pub map_err {ℓ} : {E F : Type 0} {A : Type ℓ} → (E → F) → Result E A → Result F A
map_err f (ok a) = ok a
map_err f (err e) = err (f e)
map_err f stuck = stuck

module _ {ℓ κ} {E : Type 0} {A : Type ℓ} {B : Type κ} where
  -- Both parts of a bind that succeeds do.
  pub >>=-eq-ok :
      (first : Result E A) (next : A → Result E B) {result : B}
      → (first >>= next) ≡ ok result
      → (value : A) × (first ≡ ok value) × (next value ≡ ok result)
  >>=-eq-ok (ok value) next run = (value, refl, run)
  >>=-eq-ok (err e) next run = absurd (ground arith)
  >>=-eq-ok stuck next run = absurd (ground arith)

  -- A bind of parts that do not get stuck does not get stuck.
  pub >>=-ne-stuck :
      (m : Result E A) (f : A → Result E B)
      → m ≢ stuck
      → ((a : A) → m ≡ ok a → f a ≢ stuck)
      → (m >>= f) ≢ stuck
  >>=-ne-stuck (ok a) f hm hf = hf a refl
  >>=-ne-stuck (err e) f hm hf = λ p. cc
  >>=-ne-stuck stuck f hm hf = absurd (hm refl)

pub >>=_assoc {ℓ κ ι} :
    {E : Type 0} {A : Type ℓ} {B : Type κ} {C : Type ι} (m : Result E A) (f : A → Result E B)
    (g : B → Result E C)
    → ((m >>= f) >>= g) ≡ (m >>= λ a. f a >>= g)
>>=_assoc (ok a) f g = refl
>>=_assoc (err e) f g = refl
>>=_assoc stuck f g = refl

pub ok-ne-stuck {ℓ} : {E : Type 0} {A : Type ℓ} (a : A) → ◌≡◌ {A = Result E A} (ok a) stuck → ⊥
ok-ne-stuck a p = ground arith
