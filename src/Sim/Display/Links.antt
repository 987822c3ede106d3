-- ===== src/Sim/Display/Links.antt =====
-- The links of a frame of internal/sim/snapshot.go.
use crossfault.Prelude.{
  ◌≡◌, refl, not, ◌&&◌, Option, none, some, List, [], ◌∷◌, ◌++◌, NodeId, same, same→eq, contains,
  if◌then◌else◌, arith,
}
use crossfault.Platform.{Platform}
use crossfault.Sim.Network.{Network}
use crossfault.Sim.Display.{LinkState, link_state, links_from, links_among}

-- The entry for a directed link, if the list has one.
abbrev pub find_link : List LinkState → NodeId → NodeId → Option LinkState
find_link [] a b = none
find_link (l ∷ ls) a b = if same l.from a && same l.to b then some l else find_link ls a b

find_link-append :
    (xs ys : List LinkState) (a b : NodeId)
    → find_link (xs ++ ys) a b
      ≡ (elim (find_link xs a b) [ none ↦ find_link ys a b | some l ↦ some l ])
find_link-append [] ys a b = refl
find_link-append (x ∷ xs) ys a b = ground (arith, find_link-append xs ys a b)

module _ (P : Platform) where
  find_link-links_from :
      (n : Network P) (from : NodeId) (tos : List NodeId) (a b : NodeId)
      → find_link (links_from P n from tos) a b ≡ (
          if same from a && (contains tos b && not (same a b))
          then some (link_state P n a b)
          else none)
  unfolding links_from contains link_state
  find_link-links_from n from [] a b = ground arith
  find_link-links_from n from (to ∷ tos) a b =
      ground (arith, find_link-links_from n from tos a b, same→eq from a, same→eq to b)

  -- The list has an entry for a directed link exactly if it leads from one of the sources to another
  -- node among the targets, and it is that link's state.
  pub find_link-links_among :
      (n : Network P) (froms tos : List NodeId) (a b : NodeId)
      → find_link (links_among P n froms tos) a b ≡ (
          if contains froms a && (contains tos b && not (same a b))
          then some (link_state P n a b)
          else none)
  unfolding links_among contains
  find_link-links_among n [] tos a b = refl
  find_link-links_among n (from ∷ froms) tos a b = ground (
    arith,
    find_link-append (links_from P n from tos) (links_among P n froms tos) a b,
    find_link-links_from n from tos a b,
    find_link-links_among n froms tos a b,
  )
