-- ===== src/Prelude/Rising.antt =====
-- Insertion sort by a number that every item carries.
use Prim.Native.Nat.{ℕ, ◌≤◌}
use mathlib.Core.List.{List, [], ◌∷◌}
use native.Mathlib.Omega.{arith}
use crossfault.Prelude.Tests.{ltb}
use crossfault.Prelude.Sorting.{place, sort}

module _ {ℓ} {A : Type ℓ} (key : A → ℕ) where
  -- The keys rise, from a bound on.
  abbrev pub IsRising : ℕ → List A → Type 0
  IsRising b [] = Unit {0}
  IsRising b (x ∷ xs) = (b ≤ key x) × IsRising (key x) xs

  place-IsRising :
      (b : ℕ) (x : A) (ys : List A)
      → b ≤ key x
      → IsRising b ys
      → IsRising b (place (λ u v. ltb (key u) (key v)) x ys)
  unfolding place
  place-IsRising b x [] h r = (h, tt)
  place-IsRising b x (y ∷ ys) h r = ground (arith, place-IsRising (key y) x ys)

  pub sort-IsRising : (xs : List A) → IsRising 0 (sort (λ u v. ltb (key u) (key v)) xs)
  unfolding sort
  sort-IsRising [] = tt
  sort-IsRising (x ∷ xs) = place-IsRising 0 x _ (omega arith) (sort-IsRising xs)
