-- ===== src/Netmatrix/View.antt =====
-- internal/netmatrix/matrix.go: a node's view of who can reach whom, and every operation on it.
use crossfault.Prelude.{
  ℕ, ◌+◌, ◌/◌, Bool, true, false, ◌&&◌, ◌||◌, Option, none, some, List, [], ◌∷◌, ◌++◌, map, NodeId,
  NodeId-Key, Map, lookup, insert, get_or, same, bytes_lt, u64, length, leb, differ, if◌then◌else◌,
}
use crossfault.Prelude.Sorting.{sort}

pub record View : Type 0 where
  pub owner : NodeId
  pub members : List NodeId
  pub edges : Map NodeId (Map NodeId Bool)
  pub age : Map NodeId ℕ

-- NewView: the inner and the outer loop that fill the matrix.
unfoldable pub full_row : List NodeId → Map NodeId Bool → Map NodeId Bool
full_row [] row = row
full_row (to ∷ ms) row = full_row ms (insert to true row)

unfoldable pub full_rows :
    List NodeId → List NodeId → Map NodeId (Map NodeId Bool) → Map NodeId (Map NodeId Bool)
unfolding full_row
full_rows ms [] edges = edges
full_rows ms (from ∷ rest) edges = full_rows ms rest (insert from (full_row ms []) edges)

unfoldable pub new_view : NodeId → List NodeId → View
unfolding full_rows
new_view owner members =
    let sorted = sort bytes_lt members in
    record { owner = owner; members = sorted; edges = full_rows sorted sorted []; age = [] }

unfoldable pub set_edge : View → NodeId → NodeId → Bool → View
set_edge v from to up = record v {
  edges = insert from (insert to up (get_or from [] v.edges)) v.edges;
}

unfoldable pub observe_inbound : View → NodeId → View
unfolding set_edge
observe_inbound v from =
    let marked = set_edge v from v.owner true in record marked { age = insert from 0 marked.age }

unfoldable pub observe_silence : View → NodeId → View
unfolding set_edge
observe_silence v from = set_edge v from v.owner false

-- One round of the loop of Merge: the peer's own inbound edge from `from`, if it has one.
unfoldable pub merge_edge : View → View → NodeId → View
unfolding set_edge
merge_edge v peer from = elim (lookup from peer.edges) [
  | none ↦ v
  | some row ↦ elim (lookup peer.owner row) [ none ↦ v | some val ↦ set_edge v from peer.owner val ]
]

unfoldable pub merge_edges : View → View → List NodeId → View
unfolding merge_edge
merge_edges v peer [] = v
merge_edges v peer (from ∷ ms) = merge_edges (merge_edge v peer from) peer ms

unfoldable pub merge : View → View → View
unfolding merge_edges
merge v peer =
    let merged = merge_edges v peer v.members in
    record merged { age = insert peer.owner 0 merged.age }

unfoldable pub age_rows : NodeId → List NodeId → Map NodeId ℕ → Map NodeId ℕ
age_rows owner [] age = age
age_rows owner (id ∷ ms) age =
    age_rows owner ms (if same id owner then age else insert id (u64 (get_or id 0 age + 1)) age)

unfoldable pub tick_view : View → View
unfolding age_rows
tick_view v = record v { age = age_rows v.owner v.members v.age }

unfoldable pub can_send : View → NodeId → NodeId → Bool
can_send v from to =
    if same from to
    then true
    else elim (lookup from v.edges) [ none ↦ false | some row ↦ get_or to false row ]

unfoldable pub bidirectional : View → NodeId → NodeId → Bool
bidirectional v a b = can_send v a b && can_send v b a

unfoldable pub two_way : View → NodeId → List NodeId → List NodeId
two_way v id [] = []
two_way v id (m ∷ ms) =
    if same m id || bidirectional v id m then m ∷ two_way v id ms else two_way v id ms

unfoldable pub bidirectional_peers : View → NodeId → List NodeId
unfolding two_way
bidirectional_peers v id = two_way v id v.members

unfoldable pub view_quorum : View → ℕ
view_quorum v = length v.members / 2 + 1

unfoldable pub has_bidirectional_quorum : View → NodeId → Bool
unfolding bidirectional_peers view_quorum
has_bidirectional_quorum v id = leb (view_quorum v) (length (bidirectional_peers v id))

-- The loop of Relay; `none` is its `"", false`.
unfoldable pub find_via : View → NodeId → NodeId → List NodeId → Option NodeId
find_via v from to [] = none
find_via v from to (via ∷ ms) =
    let rest = find_via v from to ms in
    if same via from || same via to
    then rest
    else if can_send v from via && can_send v via to
    then some via
    else rest

unfoldable pub relay : View → NodeId → NodeId → Option NodeId
unfolding find_via
relay v from to = if can_send v from to then some to else find_via v from to v.members

-- The body of the inner loop of Asymmetries, over the members behind `a`.
unfoldable pub asymmetries_from : View → NodeId → List NodeId → List (NodeId × NodeId)
asymmetries_from v a [] = []
asymmetries_from v a (b ∷ ms) =
    let rest = asymmetries_from v a ms in
    let ab = can_send v a b in
    let ba = can_send v b a in if differ ab ba then (if ab then (a, b) else (b, a)) ∷ rest else rest

unfoldable pub asymmetries_among : View → List NodeId → List (NodeId × NodeId)
unfolding asymmetries_from
asymmetries_among v [] = []
asymmetries_among v (a ∷ ms) = asymmetries_from v a ms ++ asymmetries_among v ms

unfoldable pub asymmetries : View → List (NodeId × NodeId)
unfolding asymmetries_among
asymmetries v = asymmetries_among v v.members

unfoldable pub snapshot_view : View → List NodeId × List (List Bool)
snapshot_view v = (v.members, map (λ from. map (λ to. can_send v from to) v.members) v.members)
