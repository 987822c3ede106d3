-- ===== src/Netmatrix/Asymmetry.antt =====
-- The list of one-way links, Asymmetries of internal/netmatrix/matrix.go.
use crossfault.Prelude.{
  ◌≡◌, refl, Bool, true, false, ◌&&◌, ◌||◌, List, [], ◌∷◌, ◌++◌, NodeId, NodeId-Key, same, contains,
  All, arith,
}
use crossfault.Netmatrix.View.{View, can_send, asymmetries_from, asymmetries_among, asymmetries}

abbrev pub OneWay : View → NodeId × NodeId → Type 0
OneWay v p = (can_send v p.0 p.1 ≡ true) × (can_send v p.1 p.0 ≡ false)

abbrev pub lists_pair : List (NodeId × NodeId) → NodeId → NodeId → Bool
lists_pair [] a b = false
lists_pair (p ∷ ps) a b = (same p.0 a && same p.1 b) || lists_pair ps a b

All-append :
    (v : View) (xs ys : List (NodeId × NodeId))
    → All (OneWay v) xs
    → All (OneWay v) ys
    → All (OneWay v) (xs ++ ys)
All-append v [] ys hx hy = hy
All-append v (x ∷ xs) ys hx hy = (hx.0, All-append v xs ys hx.1 hy)

lists_pair-append :
    (xs ys : List (NodeId × NodeId)) (a b : NodeId)
    → lists_pair (xs ++ ys) a b ≡ (lists_pair xs a b || lists_pair ys a b)
lists_pair-append [] ys a b = refl
lists_pair-append (x ∷ xs) ys a b = ground (arith, lists_pair-append xs ys a b)

asymmetries_from-OneWay :
    (v : View) (a : NodeId) (ms : List NodeId) → All (OneWay v) (asymmetries_from v a ms)
unfolding asymmetries_from
asymmetries_from-OneWay v a [] = tt
asymmetries_from-OneWay v a (b ∷ ms) = ground (arith, asymmetries_from-OneWay v a ms)

asymmetries_among-OneWay : (v : View) (ms : List NodeId) → All (OneWay v) (asymmetries_among v ms)
unfolding asymmetries_among
asymmetries_among-OneWay v [] = tt
asymmetries_among-OneWay v (a ∷ ms) =
    All-append v (asymmetries_from v a ms) (asymmetries_among v ms) (asymmetries_from-OneWay v a ms)
      (asymmetries_among-OneWay v ms)

asymmetries_from_complete :
    (v : View) (a b : NodeId) (ms : List NodeId)
    → contains ms b ≡ true
    → (OneWay v (a, b) → lists_pair (asymmetries_from v a ms) a b ≡ true)
      × (OneWay v (b, a) → lists_pair (asymmetries_from v a ms) b a ≡ true)
unfolding asymmetries_from contains
asymmetries_from_complete v a b [] m = absurd (cc)
asymmetries_from_complete v a b (x ∷ ms) m = (
  λ w. ground (arith, asymmetries_from_complete v a b ms),
  λ w. ground (arith, asymmetries_from_complete v a b ms),
)

asymmetries_among_complete :
    (v : View) (a b : NodeId) (ms : List NodeId)
    → contains ms a ≡ true
    → contains ms b ≡ true
    → OneWay v (a, b)
    → lists_pair (asymmetries_among v ms) a b ≡ true
unfolding asymmetries_among contains can_send
asymmetries_among_complete v a b [] ha hb w = absurd (cc)
asymmetries_among_complete v a b (m ∷ ms) ha hb w = ground (
  arith,
  lists_pair-append (asymmetries_from v m ms) (asymmetries_among v ms) a b,
  asymmetries_among_complete v a b ms,
  asymmetries_from_complete v a b ms,
  asymmetries_from_complete v b a ms,
)

-- Asymmetries lists links that work from the first node of the pair to the second and not back, and
-- lists every such link between two members.
pub asymmetries_exact :
    (v : View)
    → All (OneWay v) (asymmetries v)
      × ((a b : NodeId)
          → contains v.members a ≡ true
          → contains v.members b ≡ true
          → OneWay v (a, b)
          → lists_pair (asymmetries v) a b ≡ true)
unfolding asymmetries
asymmetries_exact v =
    (asymmetries_among-OneWay v v.members, λ a b. asymmetries_among_complete v a b v.members)
