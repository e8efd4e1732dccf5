-- ===== src/Cache/Threads/Sums.antt =====
-- Sums over the calls that are under way, and a call among the others.
use dnser.Base.{ℕ, ◌+◌, ◌≡◌, refl, List, [], ◌∷◌, ◌++◌, All, arith}
use dnser.Cache.Threads.{Task}

abbrev pub sum_of : (Task → ℕ) → List Task → ℕ
sum_of f [] = 0
sum_of f (t ∷ tasks) = f t + sum_of f tasks

pub sum_of-split :
    (f : Task → ℕ) (front : List Task) (t : Task) (back : List Task)
    → sum_of f (front ++ (t ∷ back)) ≡ f t + sum_of f (front ++ back)
sum_of-split f [] t back = refl
sum_of-split f (x ∷ front) t back = omega (arith, sum_of-split f front t back)

module _ {A : Type 0} (P : A → Type 0) where
  pub All-split :
      (front : List A) (x : A) (back : List A)
      → All P (front ++ (x ∷ back))
      → P x × All P (front ++ back)
  All-split [] x back (h, hs) = (h, hs)
  All-split (y ∷ front) x back (h, hs) =
      let (here, others) = All-split front x back hs in (here, (h, others))

  pub All-join :
      (front : List A) (x : A) (back : List A)
      → P x
      → All P (front ++ back)
      → All P (front ++ (x ∷ back))
  All-join [] x back h hs = (h, hs)
  All-join (y ∷ front) x back h (h', hs) = (h', All-join front x back h hs)
