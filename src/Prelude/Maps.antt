-- ===== src/Prelude/Maps.antt =====
-- Go maps as association lists with one pair for each key.
use Prim.Native.Nat.{◌+◌, ◌≤◌}
use mathlib.Core.Path.{◌≡◌, refl, subst}
use mathlib.Core.Logic.{ite, if_pos, if_neg, ◌≢◌}
use mathlib.Core.List.{List, [], ◌∷◌, map}
use mathlib.Core.Option.{Option, none, some}
use native.Mathlib.Omega.{arith}
use crossfault.Prelude.Ids.{NodeId, bytes_discrete}
use crossfault.Prelude.Lists.{length, All}

-- A type that serves as a key.
pub record Key (K : Type 0) : Type 0 where
  pub decide_eq : Discrete K

instance abbrev pub NodeId-Key : Key NodeId
NodeId-Key = record { decide_eq = bytes_discrete }

abbrev pub Map : Type 0 → Type 0 → Type 0
Map K V = List (K × V)

module _ {K V : Type 0} ⦃k : Key K⦄ where
  unfoldable pub lookup : K → Map K V → Option V
  lookup x [] = none
  lookup x ((y, v) ∷ m) = ite (k.decide_eq y x) (some v) (lookup x m)

  -- `m[x] = v`
  unfoldable pub insert : K → V → Map K V → Map K V
  insert x v [] = (x, v) ∷ []
  insert x v ((y, w) ∷ m) = ite (k.decide_eq y x) ((y, v) ∷ m) ((y, w) ∷ insert x v m)

  -- `delete(m, x)`
  unfoldable pub erase : K → Map K V → Map K V
  erase x [] = []
  erase x ((y, w) ∷ m) = ite (k.decide_eq y x) (erase x m) ((y, w) ∷ erase x m)

  -- `m[x]`, with the zero value for a missing key
  unfoldable pub get_or : K → V → Map K V → V
  get_or x d m = elim (lookup x m) [ none ↦ d | some v ↦ v ]

  pub lookup-insert :
      (x y : K) (v : V) (m : Map K V)
      → lookup y (insert x v m) ≡ ite (k.decide_eq x y) (some v) (lookup y m)
  unfolding lookup insert
  lookup-insert x y v [] = refl
  lookup-insert x y v ((z, w) ∷ m) = ground (arith, lookup-insert x y v m)

  pub lookup-insert_self : (x : K) (v : V) (m : Map K V) → lookup x (insert x v m) ≡ some v
  lookup-insert_self x v m = ground (arith, lookup-insert x x v m)

  pub lookup-insert_ne :
      (x y : K) (v : V) (m : Map K V) → x ≢ y → lookup y (insert x v m) ≡ lookup y m
  lookup-insert_ne x y v m h = ground (arith, lookup-insert x y v m)

  pub lookup-erase :
      (x y : K) (m : Map K V) → lookup y (erase x m) ≡ ite (k.decide_eq x y) none (lookup y m)
  unfolding lookup erase
  lookup-erase x y [] = ground arith
  lookup-erase x y ((z, w) ∷ m) = ground (arith, lookup-erase x y m)

  pub length-insert_le : (x : K) (v : V) (m : Map K V) → length (insert x v m) ≤ length m + 1
  unfolding insert
  length-insert_le x v [] = omega arith
  length-insert_le x v ((z, w) ∷ m) = ground (arith, length-insert_le x v m)

module _ {K V : Type 0} ⦃k : Key K⦄ (Q : K × V → Type 0) where
  -- What holds of every pair of a map holds of a value that is looked up, and survives a write of a
  -- pair of which it holds too.
  pub All-lookup : (x : K) (m : Map K V) {v : V} → All Q m → lookup x m ≡ some v → Q (x, v)
  unfolding lookup
  All-lookup x [] a h = absurd (cc)
  All-lookup x ((y, w) ∷ m) {v} a h = elim (k.decide_eq y x) [
    | yes p ↦ subst Q (ground arith) a.0
    | no p ↦ All-lookup x m a.1 (ground arith)
  ]

  pub All-insert : (x : K) (v : V) (m : Map K V) → All Q m → Q (x, v) → All Q (insert x v m)
  unfolding insert
  All-insert x v [] a q = (q, tt)
  All-insert x v ((y, w) ∷ m) a q = elim (k.decide_eq y x) [
    | yes p ↦ rw (if_pos _ p) (subst Q (ground arith) q, a.1)
    | no p ↦ rw (if_neg _ p) (a.0, All-insert x v m a.1 q)
  ]

abbrev pub keys {ℓ κ} : {K : Type ℓ} {V : Type κ} → List (K × V) → List K
keys = map (λ p. p.0)

module _ {K V : Type 0} ⦃k : Key K⦄ where
  pub length-insert_new :
      (x : K) (v : V) (m : Map K V) → lookup x m ≡ none → length (insert x v m) ≡ length m + 1
  unfolding insert lookup
  length-insert_new x v [] h = refl
  length-insert_new x v ((z, w) ∷ m) h = ground (arith, length-insert_new x v m)
