-- ===== src/Sim/Reach/Members.antt =====
-- What every replica of a cluster keeps through a run of internal/sim/network.go.
use crossfault.Prelude.{
  ℕ, ◌+◌, ◌≡◌, sym, subst, some, List, [], ◌∷◌, Bytes, NodeId, NodeId-Key, bytes_lt, Map, lookup,
  insert, All, All-lookup, All-insert, Option-cases, inl, inr, arith,
}
use crossfault.Prelude.Sorting.{sort}
use crossfault.Platform.{Platform, PlatformLaws}
use crossfault.Crypt.Identity.{Identity, Keyring}
use crossfault.Crypt.Envelope.{Envelope}
use crossfault.Consensus.State.{Node, Config, new_node}
use crossfault.Consensus.Node.Deliver.{deliver, propose}
use crossfault.Consensus.Node.Tick.{tick}
use crossfault.Consensus.Member.{Member, Timely-Member}
use crossfault.Consensus.Member.Handling.{deliver-Timely}
use crossfault.Consensus.Member.Stepping.{tick-Member, propose-Timely, new_node-Member}
use crossfault.Consensus.Member.Linked.{
  Linked, deliver-Linked, tick-Linked, propose-Linked, new_node-Linked,
}
use crossfault.Sim.Network.{
  Network, NodeSpec, Options, cut_link, heal_link, corrupt_link, clean_link, set_latency,
  note_fault, step,
}
use crossfault.Sim.Cluster.{
  config_for, spec_ids, start_nodes, new_network, leader_of, propose_to_leader,
}
use crossfault.Sim.Keeps.{step-Fabric, step-All}
use crossfault.Sim.Reach.{
  Reachable, fresh, ticked, link_cut, link_healed, link_corrupted, link_cleaned, link_slowed,
  commanded,
}

-- A property of the replicas of a cluster, by its roster, that holds at the start and that every
-- operation of a replica keeps.
module _ (P : Platform) (Q : List NodeId → NodeId × Node P → Type 0)
    (on_start : (c : Config) → Q c.members (c.id, new_node P c))
    (on_deliver : (order : List NodeId) (id : NodeId) (node : Node P) (env : Envelope)
      → Q order (id, node)
      → Q order (id, deliver P node env))
    (on_tick : (order : List NodeId) (id : NodeId) (node : Node P)
      → Q order (id, node)
      → Q order (id, tick P node))
    (on_propose : (order : List NodeId) (id : NodeId) (node node' : Node P) (cmd : Bytes)
      → propose P node cmd ≡ some node'
      → Q order (id, node)
      → Q order (id, node')) where
  start_nodes-All :
      (opt : Options) (members : List NodeId) (ring : Keyring) (idents : Map NodeId Identity)
      (i : ℕ) (specs : List NodeSpec) (nodes : Map NodeId (Node P))
      → All (Q members) nodes
      → All (Q members) (start_nodes P opt members ring idents i specs nodes)
  unfolding start_nodes
  start_nodes-All opt members ring idents i [] nodes a = a
  start_nodes-All opt members ring idents i (s ∷ ss) nodes a =
      let c = config_for P opt members ring idents i s in
      start_nodes-All opt members ring idents (i + 1) ss _
        (All-insert (Q members) s.id (new_node P c) nodes a (on_start c))

  propose_to_leader-All :
      (n n' : Network P) (cmd : Bytes)
      → propose_to_leader P n cmd ≡ some n'
      → All (Q n.order) n.nodes
      → All (Q n'.order) n'.nodes
  unfolding propose_to_leader
  propose_to_leader-All n n' cmd h a = elim (Option-cases (leader_of P n)) [
    | inl nobody ↦ absurd (ground arith)
    | inr (id, chosen) ↦ elim (Option-cases (lookup id n.nodes)) [
      | inl missing ↦ absurd (ground arith)
      | inr (node, found) ↦ elim (Option-cases (propose P node cmd)) [
        | inl refused ↦ absurd (ground arith)
        | inr (node', taken) ↦
            let next = record n { nodes = insert id node' n.nodes } in
            let now : next ≡ n' = ground arith in
            let kept =
              on_propose n.order id node node' cmd taken
                (All-lookup (Q n.order) id n.nodes a found) in
            subst (λ x. All (Q x.order) x.nodes) now
              (All-insert (Q n.order) id node' n.nodes a kept)
      ]
    ]
  ]

  pub Reachable-All : (n : Network P) → Reachable P n → All (Q n.order) n.nodes
  unfolding new_network cut_link heal_link corrupt_link clean_link set_latency note_fault
  Reachable-All _ (fresh specs opt) = start_nodes-All opt (spec_ids specs) _ _ 0 specs [] tt
  Reachable-All _ (ticked n r) =
      subst (λ o. All (Q o) (step P n).nodes) (sym (step-Fabric P n).order)
        (step-All P (Q n.order) (on_deliver n.order) (on_tick n.order) n (Reachable-All n r))
  Reachable-All _ (link_cut n from to r) = Reachable-All n r
  Reachable-All _ (link_healed n from to r) = Reachable-All n r
  Reachable-All _ (link_corrupted n from to r) = Reachable-All n r
  Reachable-All _ (link_cleaned n from to r) = Reachable-All n r
  Reachable-All _ (link_slowed n from to ticks r) = Reachable-All n r
  Reachable-All _ (commanded n n' cmd done r) =
      propose_to_leader-All n n' cmd done (Reachable-All n r)

-- The replica of a member: its name, roster and timer, and a line to every other member.
abbrev pub Seat : (P : Platform) → List NodeId → NodeId × Node P → Type 0
Seat P order p = Member P (sort bytes_lt order) p.0 p.1 × Linked P order p.0 p.1

module _ (P : Platform) (laws : PlatformLaws P) where
  deliver-Seat :
      (order : List NodeId) (id : NodeId) (node : Node P) (env : Envelope)
      → Seat P order (id, node)
      → Seat P order (id, deliver P node env)
  deliver-Seat order id node env (member, linked) = (
    Timely-Member P (sort bytes_lt order) id node (deliver P node env)
        (deliver-Timely P laws node env (ground arith)) member,
    deliver-Linked P order id node env linked,
  )

  propose-Seat :
      (order : List NodeId) (id : NodeId) (node node' : Node P) (cmd : Bytes)
      → propose P node cmd ≡ some node'
      → Seat P order (id, node)
      → Seat P order (id, node')
  propose-Seat order id node node' cmd done (member, linked) = (
    Timely-Member P (sort bytes_lt order) id node node' (propose-Timely P laws node node' cmd done)
        member,
    propose-Linked P order id node node' cmd done linked,
  )

  -- In every network that a fresh cluster can come to by ticks, changes to links and commands, each
  -- replica goes by the name it is filed under, owns its view, knows the roster of the cluster, has an
  -- outgoing transcript with every other member, and runs its election timer within [T, 2T), where T is
  -- its positive base timeout; only a leader in baseline mode lets the timer run on.
  pub Reachable-Seat : (n : Network P) → Reachable P n → All (Seat P n.order) n.nodes
  Reachable-Seat n r =
      Reachable-All P (Seat P) (λ c. (new_node-Member P laws c, new_node-Linked P c)) deliver-Seat
        (λ order id node (member, linked). (
          tick-Member P laws (sort bytes_lt order) id node member,
          tick-Linked P order id node linked,
        ))
        propose-Seat n r
