-- ===== src/Prelude/Sorting.antt =====
-- sort.Slice and sort.SliceStable: insertion sort by a strict order.
use Prim.Native.Nat.{ℕ, zero, suc, ◌+◌, ◌≤◌, ◌<◌}
use mathlib.Core.Path.{◌≡◌, refl}
use mathlib.Core.Bool.{Bool}
use mathlib.Core.List.{List, [], ◌∷◌, Perm}
use mathlib.Core.List.Perm
use mathlib.Core.Option.{some}
use native.Mathlib.Omega.{arith}
use crossfault.Prelude.Tests.{ltb, leb, if◌then◌else◌}
use crossfault.Prelude.Ids.{NodeId, contains}
use crossfault.Prelude.Lists.{length, get_elem?}

module _ {ℓ} {A : Type ℓ} (before : A → A → Bool) where
  -- Equal items keep their order: `x` stood in front of `ys`.
  unfoldable pub place : A → List A → List A
  place x [] = x ∷ []
  place x (y ∷ ys) = if before y x then y ∷ place x ys else x ∷ y ∷ ys

  unfoldable pub sort : List A → List A
  unfolding place
  sort [] = []
  sort (x ∷ xs) = place x (sort xs)

  pub place-perm : (x : A) (ys : List A) → Perm (place x ys) (x ∷ ys)
  unfolding place
  place-perm x [] = Perm.refl (x ∷ [])
  place-perm x (y ∷ ys) =
      let deeper = Perm.trans (Perm.cons y (place-perm x ys)) (Perm.swap x y ys) in
      ground (arith, deeper, Perm.refl (x ∷ y ∷ ys))

  pub sort-perm : (xs : List A) → Perm (sort xs) xs
  unfolding sort
  sort-perm [] = Perm.refl []
  sort-perm (x ∷ xs) = Perm.trans (place-perm x (sort xs)) (Perm.cons x (sort-perm xs))

-- How many items are at least `v`.
unfoldable pub count_ge : ℕ → List ℕ → ℕ
count_ge v [] = 0
count_ge v (x ∷ xs) = (if leb v x then 1 else 0) + count_ge v xs

abbrev pub above : ℕ → ℕ → Bool
above a b = ltb b a

place-count : (v x : ℕ) (ys : List ℕ) → count_ge v (place above x ys) ≡ count_ge v (x ∷ ys)
unfolding place count_ge
place-count v x [] = refl
place-count v x (y ∷ ys) = ground (arith, place-count v x ys)

pub sort-count : (v : ℕ) (xs : List ℕ) → count_ge v (sort above xs) ≡ count_ge v xs
unfolding sort count_ge
sort-count v [] = refl
sort-count v (x ∷ xs) = omega (arith, place-count v x (sort above xs), sort-count v xs)

-- Falling, with every item at most the bound.
abbrev pub IsFalling : ℕ → List ℕ → Type 0
IsFalling b [] = Unit {0}
IsFalling b (x ∷ xs) = (x ≤ b) × IsFalling x xs

place-IsFalling : (b x : ℕ) (ys : List ℕ) → x ≤ b → IsFalling b ys → IsFalling b (place above x ys)
unfolding place
place-IsFalling b x [] h f = (h, tt)
place-IsFalling b x (y ∷ ys) h f = ground (arith, place-IsFalling y x ys)

abbrev pub AllLe : ℕ → List ℕ → Type 0
AllLe b [] = Unit {0}
AllLe b (x ∷ xs) = (x ≤ b) × AllLe b xs

pub sort-IsFalling : (b : ℕ) (xs : List ℕ) → AllLe b xs → IsFalling b (sort above xs)
unfolding sort
sort-IsFalling b [] h = tt
sort-IsFalling b (x ∷ xs) h = place-IsFalling b x (sort above xs) h.0 (sort-IsFalling b xs h.1)

-- In a falling list at least `i + 1` items reach the item at index `i`, and at most `i` exceed it.
pub falling-count :
    (b i : ℕ) (xs : List ℕ) {c : ℕ}
    → IsFalling b xs
    → get_elem? xs i ≡ some c
    → (c ≤ b) × (i < count_ge c xs)
unfolding count_ge
falling-count b i [] f e = absurd (cc)
falling-count b zero (x ∷ xs) f e = ground arith
falling-count b (suc i) (x ∷ xs) {c} f e = ground (arith, falling-count x i xs {c = c} f.1 e)

count-none : (b v : ℕ) (xs : List ℕ) → IsFalling b xs → b < v → count_ge v xs ≡ 0
unfolding count_ge
count-none b v [] f h = refl
count-none b v (x ∷ xs) f h = ground (arith, count-none x v xs)

pub falling-count_above :
    (b i v : ℕ) (xs : List ℕ) {c : ℕ}
    → IsFalling b xs
    → get_elem? xs i ≡ some c
    → c < v
    → count_ge v xs ≤ i
unfolding count_ge
falling-count_above b i v [] f e h = absurd (cc)
falling-count_above b zero v (x ∷ xs) {c} f e h = ground (arith, count-none x v xs)
falling-count_above b (suc i) v (x ∷ xs) {c} f e h =
    ground (arith, falling-count_above x i v xs {c = c} f.1 e h)

module _ (before : NodeId → NodeId → Bool) where
  contains-place :
      (x : NodeId) (ys : List NodeId) (a : NodeId)
      → contains (place before x ys) a ≡ contains (x ∷ ys) a
  unfolding place contains
  contains-place x [] a = refl
  contains-place x (y ∷ ys) a = ground (arith, contains-place x ys a)

  pub contains-sort : (xs : List NodeId) (a : NodeId) → contains (sort before xs) a ≡ contains xs a
  unfolding sort contains
  contains-sort [] a = refl
  contains-sort (x ∷ xs) a = ground (arith, contains-place x (sort before xs) a, contains-sort xs a)

  place-length : (x : NodeId) (ys : List NodeId) → length (place before x ys) ≡ length ys + 1
  unfolding place
  place-length x [] = refl
  place-length x (y ∷ ys) = ground (arith, place-length x ys)

  pub length-sort : (xs : List NodeId) → length (sort before xs) ≡ length xs
  unfolding sort
  length-sort [] = refl
  length-sort (x ∷ xs) = omega (arith, place-length x (sort before xs), length-sort xs)

-- Some number bounds every item.
pub AllLe-sum : (xs : List ℕ) → (b : ℕ) × AllLe b xs
AllLe-sum [] = (0, tt)
AllLe-sum (x ∷ xs) =
    let (b, h) = AllLe-sum xs in (x + b, (omega arith, AllLe-mono b (x + b) xs (omega arith) h))
  where
    AllLe-mono : (b c : ℕ) (ys : List ℕ) → b ≤ c → AllLe b ys → AllLe c ys
    AllLe-mono b c [] h a = tt
    AllLe-mono b c (y ∷ ys) h a = (omega arith, AllLe-mono b c ys h a.1)

-- The item at index `i` of the list in falling order: more than `i` items reach it, and of any
-- greater value at most `i` items are left.
pub ranked :
    (xs : List ℕ) (i : ℕ) {c : ℕ}
    → get_elem? (sort above xs) i ≡ some c
    → (i < count_ge c xs) × ((v : ℕ) → c < v → count_ge v xs ≤ i)
ranked xs i {c} e =
    let (b, bounded) = AllLe-sum xs in
    let falls = sort-IsFalling b xs bounded in
    (
      omega (arith, sort-count c xs, falling-count b i (sort above xs) falls e),
      λ v h. omega (arith, sort-count v xs, falling-count_above b i v (sort above xs) falls e h),
    )
