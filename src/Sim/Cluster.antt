-- ===== src/Sim/Cluster.antt =====
-- Building a cluster and asking it for its leader: New, Leader and Propose of
-- internal/sim/network.go. A seeded identity cannot fail.
use crossfault.Prelude.{
  ℕ, ◌+◌, ◌*◌, ◌%◌, ◌==◌, Option, none, some, List, [], ◌∷◌, map, NodeId, no_node, NodeId-Key, Map,
  lookup, insert, get_or, bytes_lt, u64, Bool, false, if◌then◌else◌,
}
use crossfault.Prelude.Sorting.{sort}
use crossfault.Platform.{Platform}
use crossfault.Crypt.Identity.{Identity, Keyring, new_keyring, add_key, new_identity_from_seed}
use crossfault.Consensus.State.{Config, Node, new_node, or_default}
use crossfault.Consensus.Node.Handlers.{is_leader}
use crossfault.Consensus.Node.Deliver.{propose}
use crossfault.Consensus.Node.Tick.{is_cross_fault}
use crossfault.Sim.Network.{Network, NodeSpec, Options}

abbrev pub spec_ids : List NodeSpec → List NodeId
spec_ids specs = sort bytes_lt (map (λ s. s.id) specs)

module _ (P : Platform) where
  -- The identity of the spec at a position.
  abbrev pub seeded : Options → ℕ → NodeSpec → Identity
  seeded opt i s = new_identity_from_seed P s.id (opt.seed % 256 ∷ (i + 1) % 256 ∷ [])

  unfoldable pub enroll_all :
      Options → ℕ → List NodeSpec → Keyring → Map NodeId Identity → Keyring × Map NodeId Identity
  enroll_all opt i [] ring idents = (ring, idents)
  enroll_all opt i (s ∷ ss) ring idents =
      let id = seeded opt i s in
      enroll_all opt (i + 1) ss (add_key ring s.id id.public_key) (insert s.id id idents)

  -- The configuration of the spec at a position.
  abbrev pub config_for :
      Options → List NodeId → Keyring → Map NodeId Identity → ℕ → NodeSpec → Config
  config_for opt members ring idents i s = record {
    id = s.id;
    cloud = s.cloud;
    mode = opt.mode;
    members = members;
    identity = get_or s.id (seeded opt i s) idents;
    keyring = ring;
    seed = u64 (opt.seed + i * 7919);
    election_timeout = opt.election_timeout;
    heartbeat_interval = opt.heartbeat_interval;
    probe_interval = opt.probe_interval;
  }

  unfoldable pub start_nodes :
      Options
      → List NodeId
      → Keyring
      → Map NodeId Identity
      → ℕ
      → List NodeSpec
      → Map NodeId (Node P)
      → Map NodeId (Node P)
  start_nodes opt members ring idents i [] nodes = nodes
  start_nodes opt members ring idents i (s ∷ ss) nodes =
      start_nodes opt members ring idents (i + 1) ss
        (insert s.id (new_node P (config_for opt members ring idents i s)) nodes)

  unfoldable pub new_network : List NodeSpec → Options → Network P
  new_network specs opt =
      let members = spec_ids specs in
      let (ring, idents) = enroll_all opt 0 specs new_keyring [] in
      record {
        nodes = start_nodes opt members ring idents 0 specs [];
        order = members;
        down = [];
        corrupt = [];
        latency = [];
        base_delay = or_default opt.base_delay 1;
        cross_delay = opt.cross_cloud_delay;
        in_flight = [];
        tick = 0;
        rng = P.new_rng opt.seed;
        relaying = is_cross_fault opt.mode;
        delivered = 0;
        dropped = 0;
        corrupted = 0;
        relayed = 0;
        history = [];
      }

  unfoldable pub leads : Network P → NodeId → Bool
  leads n id = elim (lookup id n.nodes) [ none ↦ false | some node ↦ is_leader node.role ]

  -- The loop of Leader: the last leader met and how many there were.
  unfoldable pub count_leaders : Network P → List NodeId → NodeId → ℕ → NodeId × ℕ
  count_leaders n [] found count = (found, count)
  count_leaders n (id ∷ ids) found count =
      if leads n id then count_leaders n ids id (count + 1) else count_leaders n ids found count

  unfoldable pub leader_of : Network P → Option NodeId
  leader_of n =
      let (found, count) = count_leaders n n.order no_node 0 in
      if count == 1 then some found else none

  -- Propose; `none` is ErrNotLeader.
  unfoldable pub propose_to_leader : Network P → NodeId → Option (Network P)
  propose_to_leader n cmd = elim (leader_of n) [
    | none ↦ none
    | some id ↦ elim (lookup id n.nodes) [
      | none ↦ none
      | some node ↦ elim (propose P node cmd) [
        | none ↦ none
        | some node' ↦ some (record n { nodes = insert id node' n.nodes })
      ]
    ]
  ]
