-- ===== src/Netmatrix/Edges.antt =====
-- How the operations of internal/netmatrix/matrix.go change the edges of a view: ObserveInbound,
-- ObserveSilence and Merge touch only the edges that were observed first-hand.
use crossfault.Prelude.{
  ◌≡◌, refl, Bool, true, false, ◌&&◌, Option, none, some, List, [], ◌∷◌, NodeId, NodeId-Key, lookup,
  insert, get_or, lookup-insert, same, contains, if◌then◌else◌, arith,
}
use crossfault.Netmatrix.View.{
  View, set_edge, observe_inbound, observe_silence, merge_edge, merge_edges, merge, can_send,
}

-- The entry of a view's matrix, if it has one.
abbrev pub edge_of : View → NodeId → NodeId → Option Bool
edge_of v a b = elim (lookup a v.edges) [ none ↦ none | some row ↦ lookup b row ]

pub can_send-edge_of :
    (v : View) (a b : NodeId)
    → can_send v a b
      ≡ (if same a b then true else elim (edge_of v a b) [ none ↦ false | some up ↦ up ])
unfolding can_send get_or
can_send-edge_of v a b = ground arith

pub edge_of-set_edge :
    (v : View) (f t : NodeId) (up : Bool) (a b : NodeId)
    → edge_of (set_edge v f t up) a b ≡ (if same f a && same t b then some up else edge_of v a b)
unfolding set_edge get_or lookup
edge_of-set_edge v f t up a b = ground (
  arith,
  lookup-insert f a (insert t up (get_or f [] v.edges)) v.edges,
  lookup-insert t b up (get_or f [] v.edges),
)

-- What a view knows of an edge once a peer's own report of it is preferred.
abbrev pub preferring : Option Bool → Option Bool → Option Bool
preferring (some up) known = some up
preferring none known = known

merge_edge_lem :
    (v peer : View) (from a b : NodeId)
    → edge_of (merge_edge v peer from) a b ≡ (
        if same from a && same peer.owner b
        then preferring (edge_of peer a b) (edge_of v a b)
        else edge_of v a b)
unfolding merge_edge
merge_edge_lem v peer from a b = ground (
  arith,
  edge_of-set_edge v from peer.owner true a b,
  edge_of-set_edge v from peer.owner false a b,
)

merge_edges_lem :
    (v peer : View) (ms : List NodeId) (a b : NodeId)
    → edge_of (merge_edges v peer ms) a b ≡ (
        if contains ms a && same peer.owner b
        then preferring (edge_of peer a b) (edge_of v a b)
        else edge_of v a b)
unfolding merge_edges contains
merge_edges_lem v peer [] a b = refl
merge_edges_lem v peer (from ∷ ms) a b =
    ground
      (arith, merge_edges_lem (merge_edge v peer from) peer ms a b, merge_edge_lem v peer from a b)

-- Merge takes from a peer what it reports of its own inbound edges, and leaves every other edge as
-- it was: a peer's opinion of an edge between two other nodes changes nothing.
pub merge_lem :
    (v peer : View) (a b : NodeId)
    → edge_of (merge v peer) a b ≡ (
        if contains v.members a && same peer.owner b
        then preferring (edge_of peer a b) (edge_of v a b)
        else edge_of v a b)
unfolding merge
merge_lem v peer a b = merge_edges_lem v peer v.members a b

-- First-hand evidence, or its absence, decides the edge from the observed node to the owner, and no
-- other edge.
pub can_send-observe :
    (v : View) (from a b : NodeId)
    → (can_send (observe_inbound v from) a b
        ≡ (if same from a && same v.owner b then true else can_send v a b))
      × (can_send (observe_silence v from) a b ≡ (
          if same a b
          then true
          else if same from a && same v.owner b
          then false
          else can_send v a b))
unfolding observe_inbound observe_silence can_send get_or
can_send-observe v from a b =
    let heard = edge_of-set_edge v from v.owner true a b in
    let silent = edge_of-set_edge v from v.owner false a b in
    (ground (arith, heard), ground (arith, silent))
