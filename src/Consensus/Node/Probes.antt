-- ===== src/Consensus/Node/Probes.antt =====
-- What a probe teaches a replica: mergeInbound of internal/consensus/handlers.go.
use crossfault.Prelude.{
  ◌≡◌, refl, not, ◌&&◌, some, List, [], ◌∷◌, NodeId, same, contains, if◌then◌else◌, arith,
}
use crossfault.Netmatrix.View.{View, set_edge}
use crossfault.Netmatrix.Edges.{edge_of, edge_of-set_edge}
use crossfault.Consensus.Node.Handlers.{merge_inbound}

-- After a peer's report, the edge from every other listed member to the peer is up exactly if the
-- report names that member, and no other edge has changed.
pub merge_inbound_lem :
    (v : View) (peer : NodeId) (up ms : List NodeId) (a b : NodeId)
    → edge_of (merge_inbound v peer up ms) a b ≡ (
        if contains ms a && (same peer b && not (same a peer))
        then some (contains up a)
        else edge_of v a b)
unfolding merge_inbound contains
merge_inbound_lem v peer up [] a b = refl
merge_inbound_lem v peer up (m ∷ ms) a b =
    let folded = if same m peer then v else set_edge v m peer (contains up m) in
    ground (
      arith,
      merge_inbound_lem folded peer up ms a b,
      edge_of-set_edge v m peer (contains up m) a b,
    )
