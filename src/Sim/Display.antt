-- ===== src/Sim/Display.antt =====
-- internal/sim/snapshot.go: the frame that the browser renders. A node that is missing from the map of
-- nodes although it stands in `order`, which is a panic, is skipped.
pub mod Events
pub mod Links
pub mod Commits
use crossfault.Prelude.{
  ℕ, ◌+◌, ◌-◌, Bool, true, false, none, some, List, [], ◌∷◌, ◌++◌, map, Bytes, NodeId, no_node,
  NodeId-Key, lookup, same, differ, length, drop, ltb, if◌then◌else◌,
}
use crossfault.Prelude.Sorting.{sort}
use crossfault.Platform.{Platform}
use crossfault.Netmatrix.View.{can_send}
use crossfault.Consensus.State.{Mode, Node, Event}
use crossfault.Consensus.Snapshot.{Snapshot, snapshot, mode_string}
use crossfault.Sim.Network.{Network, is_down, is_corrupt}
use crossfault.Sim.Cluster.{leader_of}

pub record LinkState : Type 0 where
  pub from : NodeId
  pub to : NodeId
  pub down : Bool
  pub corrupt : Bool
  pub believed : Bool
  pub asymmetry : Bool

pub record State : Type 0 where
  pub tick : ℕ
  pub mode : Bytes
  pub nodes : List Snapshot
  pub links : List LinkState
  pub events : List Event
  pub leader : NodeId
  pub stable : Bool
  pub delivered : ℕ
  pub dropped : ℕ
  pub corrupted : ℕ
  pub relayed : ℕ
  pub total_term_bumps : ℕ
  pub total_rejected : ℕ
  pub max_commit : ℕ

abbrev pub max_shown : ℕ
max_shown = 120

-- The order of the events that sort.SliceStable is given.
abbrev pub earlier : Event → Event → Bool
earlier a b = ltb a.tick b.tick

unfoldable pub newest_events : List Event → List Event
newest_events all =
    let sorted = sort earlier all in
    if ltb max_shown (length sorted) then drop (length sorted - max_shown) sorted else sorted

-- `s.X += snap.X` over the snapshots.
unfoldable pub sum_of : (Snapshot → ℕ) → ℕ → List Snapshot → ℕ
sum_of f total [] = total
sum_of f total (s ∷ ss) = sum_of f (total + f s) ss

unfoldable pub highest_commit : ℕ → List Snapshot → ℕ
highest_commit top [] = top
highest_commit top (s ∷ ss) =
    highest_commit (if ltb top s.commit_index then s.commit_index else top) ss

module _ (P : Platform) where
  -- Nodes.
  unfoldable pub nodes_of : Network P → List NodeId → List (Node P)
  nodes_of n [] = []
  nodes_of n (id ∷ ids) =
      let rest = nodes_of n ids in
      elim (lookup id n.nodes) [ none ↦ rest | some node ↦ node ∷ rest ]

  unfoldable pub all_events : List (Node P) → List Event
  all_events [] = []
  all_events (node ∷ nodes) = node.events ++ all_events nodes

  unfoldable pub believes : Network P → NodeId → NodeId → Bool
  believes n from to = elim (lookup from n.nodes) [
    | none ↦ false
    | some src ↦ can_send src.view from to
  ]

  unfoldable pub link_state : Network P → NodeId → NodeId → LinkState
  link_state n from to = record {
    from = from;
    to = to;
    down = is_down P n from to;
    corrupt = is_corrupt P n from to;
    believed = believes n from to;
    asymmetry = differ (is_down P n from to) (is_down P n to from);
  }

  unfoldable pub links_from : Network P → NodeId → List NodeId → List LinkState
  links_from n from [] = []
  links_from n from (to ∷ ids) =
      let rest = links_from n from ids in if same from to then rest else link_state n from to ∷ rest

  unfoldable pub links_among : Network P → List NodeId → List NodeId → List LinkState
  links_among n [] tos = []
  links_among n (from ∷ ids) tos = links_from n from tos ++ links_among n ids tos

  unfoldable pub state_of : Network P → Mode → State
  state_of n mode =
      let nodes = nodes_of n n.order in
      let snaps = map (snapshot P) nodes in
      let chosen = leader_of P n in
      record {
        tick = n.tick;
        mode = mode_string mode;
        nodes = snaps;
        links = links_among n n.order n.order;
        events = newest_events (all_events nodes);
        leader = elim chosen [ none ↦ no_node | some id ↦ id ];
        stable = elim chosen [ none ↦ false | some id ↦ true ];
        delivered = n.delivered;
        dropped = n.dropped;
        corrupted = n.corrupted;
        relayed = n.relayed;
        total_term_bumps = sum_of (λ s. s.term_bumps) 0 snaps;
        total_rejected = sum_of (λ s. s.dropped_bad_sig) 0 snaps;
        max_commit = highest_commit 0 snaps;
      }
