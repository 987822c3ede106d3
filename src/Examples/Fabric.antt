-- ===== src/Examples/Fabric.antt =====
-- internal/sim at a cluster of three whose link from c to a is cut.
use crossfault.Prelude.{
  ◌≡◌, refl, true, false, some, [], ◌∷◌, NodeId, contains, bytes_discrete, ℕ_discrete, lookup,
  insert, get_or,
}
use crossfault.Crypt.Envelope.{Envelope}
use crossfault.Prelude.{bytes_lt}
use crossfault.Prelude.Sorting.{sort}
use crossfault.Netmatrix.View.{new_view, set_edge, relay, can_send}
use crossfault.Consensus.State.{Node, leader}
use crossfault.Sim.Network.{Network, is_down, enqueue, find_relay, send_relayed}
use crossfault.Sim.Cluster.{leads, leader_of, count_leaders}
use crossfault.Sim.Faults.{EnqueueRule, enqueue-EnqueueRule}
use crossfault.Sim.Leaders.{leader_of_only}
use crossfault.Examples.Toy.{toy, toy-laws, a, b, c, trio}
use crossfault.Examples.Replica.{replica, wire}

abbrev member : NodeId → Node toy
member id = record replica { settings = record (replica.settings) { id = id } }

-- c has learned from a's report that its messages do not arrive there.
abbrev warned : Node toy
warned = record (member c) { view = set_edge (new_view c trio) c a false }

abbrev pub net : Network toy
net = record {
  nodes = (a, member a) ∷ (b, record (member b) { role = leader }) ∷ (c, warned) ∷ [];
  order = trio;
  down = ((c, a), true) ∷ [];
  corrupt = ((a, b), true) ∷ [];
  latency = [];
  base_delay = 1;
  cross_delay = 2;
  in_flight = [];
  tick = 7;
  rng = 4;
  relaying = true;
  delivered = 0;
  dropped = 0;
  corrupted = 0;
  relayed = 0;
  history = [];
}

-- A message from c to a, whose direct link is cut.
abbrev pub stranded : Envelope
stranded = record wire { from = c; to = a }

enqueue-EnqueueRule_example : EnqueueRule toy net stranded (enqueue toy net stranded)
enqueue-EnqueueRule_example = enqueue-EnqueueRule toy toy-laws net stranded

b_leads : leader_of toy net ≡ some b
unfolding leader_of count_leaders leads lookup bytes_discrete ℕ_discrete
b_leads = refl

leader_of_only_example :
    (leads toy net b ≡ true)
    × (contains trio b ≡ true)
    × ((m : NodeId) → contains trio m ≡ true → leads toy net m ≡ true → m ≡ b)
leader_of_only_example = leader_of_only toy net b_leads

relayed_once_test : (enqueue toy net stranded).relayed ≡ 1
unfolding enqueue is_down find_relay send_relayed get_or lookup bytes_discrete ℕ_discrete relay
    can_send set_edge insert new_view sort bytes_lt
relayed_once_test = refl
