-- ===== src/Examples/Frames.antt =====
-- The books and the members of internal/sim/network.go at small clusters.
use crossfault.Consensus.State.{blank_node}
use crossfault.Consensus.State.{add_peer}
use crossfault.Consensus.State.{add_peers}
use crossfault.Consensus.State.{reset_election_timer}
use crossfault.Prelude.{bytes_lt}
use crossfault.Prelude.{times_named}
use crossfault.Prelude.{◌≤◌, ◌≡◌, [], ◌∷◌, List}
use crossfault.Consensus.State.{Event, step_down, declined}
use crossfault.Sim.Network.{Network, step}
use crossfault.Sim.Ledger.{account, HasNode}
use crossfault.Prelude.{u64, length}
use crossfault.Sim.Conversation.{conversation, due_count}
use crossfault.Sim.Reach.{Reachable-account, fresh, ticked, link_cut}
use crossfault.Sim.Cluster.{new_network}
use crossfault.Wasm.Engine.{default_cluster, options_for}
use crossfault.Sim.Network.{cut_link}
use crossfault.Consensus.State.{cross_fault}
use crossfault.Prelude.{All}
use crossfault.Sim.Network.{Network, step}
use crossfault.Prelude.{
  ◌+◌, some, lookup, insert, Map, NodeId, NodeId-Key, refl, arith, bytes_discrete, ℕ_discrete,
}
use crossfault.Crypt.Identity.{Identity, Keyring, new_keyring}
use crossfault.Consensus.State.{Node, new_node}
use crossfault.Consensus.Alone.{ticks}
use crossfault.Sim.Network.{NodeSpec}
use crossfault.Sim.Cluster.{enroll_all, config_for, spec_ids, start_nodes}
use crossfault.Sim.Reach.Members.{Seat, Reachable-Seat}
use crossfault.Sim.Reach.Alone.{Reachable_stands_down}
use crossfault.Prelude.Sorting.{sort}
use crossfault.Examples.Toy.{toy-laws}
use crossfault.Examples.Toy.{toy, a, b}

abbrev two_events : List Event
two_events =
    record { tick = 9; node = a; term = 3; what = step_down }
    ∷ record { tick = 4; node = b; term = 3; what = declined }
    ∷ []

-- A cluster of three after a tick, with the link from a to b cut.
abbrev split : Network toy
split = cut_link toy (step toy (new_network toy default_cluster (options_for cross_fault 42))) a b

Reachable-account_example :
    let next = step toy split in
    All (λ m. HasNode toy split m.env.to) split.in_flight
    × (next.nodes ≡ (conversation toy split).0)
    × (next.delivered ≡ split.delivered + due_count (u64 (split.tick + 1)) split.in_flight)
    × (account toy next ≡ account toy split + length (conversation toy split).1)
Reachable-account_example = Reachable-account toy split (
    link_cut (step toy (new_network toy default_cluster (options_for cross_fault 42))) a b (
      ticked (new_network toy default_cluster (options_for cross_fault 42))
        (fresh default_cluster (options_for cross_fault 42))))

-- The replica of a member in the fresh cluster of two.
abbrev pair : List NodeSpec
pair = record { id = a; cloud = a } ∷ record { id = b; cloud = b } ∷ []

abbrev pair_net : Network toy
pair_net = new_network toy pair (options_for cross_fault 42)

Reachable-Seat_example : All (Seat toy split.order) split.nodes
Reachable-Seat_example = Reachable-Seat toy toy-laws split (
    link_cut (step toy (new_network toy default_cluster (options_for cross_fault 42))) a b (
      ticked (new_network toy default_cluster (options_for cross_fault 42))
        (fresh default_cluster (options_for cross_fault 42))))

abbrev pair_ring : Keyring × Map NodeId Identity
pair_ring = enroll_all toy (options_for cross_fault 42) 0 pair new_keyring []

abbrev of_pair : Node toy
of_pair = new_node toy (
    config_for toy (options_for cross_fault 42) (spec_ids pair) pair_ring.0 pair_ring.1 0
      (record { id = a; cloud = a }))

of_pair_found : lookup a pair_net.nodes ≡ some of_pair
unfolding lookup new_network start_nodes insert bytes_discrete ℕ_discrete
of_pair_found = refl

Reachable_stands_down_example :
    let cut = ticks toy 21 of_pair in
    let later = ticks toy 90 cut in
    (later.elections_started ≡ cut.elections_started)
    × (later.role ≡ cut.role)
    × (later.current_term ≡ of_pair.current_term)
    × (later.voted_for ≡ of_pair.voted_for)
    × (cut.declined_to_run + 2 ≤ later.declined_to_run)
unfolding times_named new_network sort bytes_lt bytes_discrete ℕ_discrete new_node
    reset_election_timer add_peers add_peer blank_node
Reachable_stands_down_example =
    Reachable_stands_down toy toy-laws 21 2 90 pair_net a of_pair
      (fresh pair (options_for cross_fault 42)) of_pair_found (omega arith) (omega arith) refl
      (ground arith) tt (omega arith) (omega arith) (omega arith)
