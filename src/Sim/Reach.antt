-- ===== src/Sim/Reach.antt =====
-- The networks that internal/sim/network.go can come to: a fresh cluster, ticks, changes to links and
-- commands to the leader, in any order.
pub mod Members
pub mod Alone
use crossfault.Prelude.{
  ℕ, ◌+◌, ◌≤◌, ◌≡◌, ◌⊎◌, refl, sym, subst, ◌∙◌, true, some, List, [], ◌∷◌, map, Bytes, NodeId,
  NodeId-Key, bytes_discrete, bytes_lt, same, same→eq, same_self, contains, Map, lookup,
  lookup-insert, insert, All, All-map, All-lookup, All-insert, Bool-cases, Option-cases, inl, inr,
  arith,
}
use crossfault.Prelude.Sorting.{contains-sort}
use crossfault.Platform.{Platform}
use crossfault.Crypt.Identity.{Identity, Keyring}
use crossfault.Crypt.Transcript.{new_transcript}
use crossfault.Consensus.State.{
  Node, Config, blank_node, add_peer, add_peers, reset_election_timer, new_node,
}
use crossfault.Consensus.Node.Deliver.{propose}
use crossfault.Consensus.Node.Sending.Stepping.{propose-any}
use crossfault.Sim.Network.{
  Network, NodeSpec, Options, cut_link, heal_link, corrupt_link, clean_link, set_latency,
  note_fault, step,
}
use crossfault.Sim.Cluster.{
  config_for, spec_ids, start_nodes, new_network, leader_of, propose_to_leader,
}
use crossfault.Sim.Keeps.{step-Fabric}
use crossfault.Sim.Ledger.{HasNode, HasNode-insert, account, step-Balanced}
use crossfault.Prelude.{u64, length}
use crossfault.Sim.Conversation.{conversation, due_count}
use crossfault.Sim.Roster.{WritesTo, WritesTo-fields, WritesTo-send, Staffed, step-Staffed}

module _ (P : Platform) where
  pub data Reachable : Network P → Type 0 where
    fresh : (specs : List NodeSpec) (opt : Options) → Reachable (new_network P specs opt)
    ticked : (n : Network P) → Reachable n → Reachable (step P n)
    link_cut : (n : Network P) (from to : NodeId) → Reachable n → Reachable (cut_link P n from to)
    link_healed :
        (n : Network P) (from to : NodeId) → Reachable n → Reachable (heal_link P n from to)
    link_corrupted :
        (n : Network P) (from to : NodeId) → Reachable n → Reachable (corrupt_link P n from to)
    link_cleaned :
        (n : Network P) (from to : NodeId) → Reachable n → Reachable (clean_link P n from to)
    link_slowed :
        (n : Network P) (from to : NodeId) (ticks : ℕ)
        → Reachable n
        → Reachable (set_latency P n from to ticks)
    commanded :
        (n n' : Network P) (cmd : Bytes)
        → propose_to_leader P n cmd ≡ some n'
        → Reachable n
        → Reachable n'

  abbrev Among : List NodeId → NodeId → Type 0
  Among members x = contains members x ≡ true

  add_peer-WritesTo :
      (R : NodeId → Type 0) (n : Node P) (m : NodeId)
      → R m
      → WritesTo P R n
      → WritesTo P R (add_peer P n m)
  unfolding add_peer
  add_peer-WritesTo R n m member (known, sent) = elim (Bool-cases (same m n.id)) [
    | inl itself ↦ rw (itself, add_peer) (known, sent)
    | inr other ↦
        rw (other, add_peer)
          (
            λ k t h. elim (bytes_discrete m k) [
              | yes p ↦ subst R p member
              | no p ↦ known k t (ground (arith, lookup-insert m k (new_transcript m) n.send_tr))
            ],
            sent,
          )
  ]

  add_peers-WritesTo :
      (R : NodeId → Type 0) (n : Node P) (ms : List NodeId)
      → ((x : NodeId) → Among ms x → R x)
      → WritesTo P R n
      → WritesTo P R (add_peers P n ms)
  unfolding add_peers contains
  add_peers-WritesTo R n [] members w = w
  add_peers-WritesTo R n (m ∷ ms) members w =
      add_peers-WritesTo R (add_peer P n m) ms (λ x h. members x (ground arith))
        (add_peer-WritesTo R n m (members m (ground (arith, same_self m))) w)

  new_node-WritesTo : (c : Config) → WritesTo P (Among c.members) (new_node P c)
  unfolding new_node blank_node reset_election_timer lookup
  new_node-WritesTo c =
      add_peers-WritesTo (Among c.members) (blank_node P c) c.members (λ x h. h)
        (λ k t h. absurd (cc), tt)

  start_nodes-WritesTo :
      (opt : Options) (members : List NodeId) (ring : Keyring) (idents : Map NodeId Identity)
      (i : ℕ) (specs : List NodeSpec) (nodes : Map NodeId (Node P))
      → All (λ p. WritesTo P (Among members) p.1) nodes
      → All
          (λ p. WritesTo P (Among members) p.1)
          (start_nodes P opt members ring idents i specs nodes)
  unfolding start_nodes
  start_nodes-WritesTo opt members ring idents i [] nodes a = a
  start_nodes-WritesTo opt members ring idents i (s ∷ ss) nodes a =
      let c = config_for P opt members ring idents i s in
      start_nodes-WritesTo opt members ring idents (i + 1) ss _ (
        All-insert (λ p. WritesTo P (Among members) p.1) s.id (new_node P c) nodes a
          (new_node-WritesTo c))

  start_nodes-present :
      (opt : Options) (members : List NodeId) (ring : Keyring) (idents : Map NodeId Identity)
      (i : ℕ) (specs : List NodeSpec) (nodes : Map NodeId (Node P)) (x : NodeId)
      → (Among (map (λ s. s.id) specs) x) ⊎ ((node : Node P) × (lookup x nodes ≡ some node))
      → (node : Node P) × (lookup x (start_nodes P opt members ring idents i specs nodes)
          ≡ some node)
  unfolding start_nodes contains
  start_nodes-present opt members ring idents i [] nodes x (inl h) = absurd (ground arith)
  start_nodes-present opt members ring idents i [] nodes x (inr h) = h
  start_nodes-present opt members ring idents i (s ∷ ss) nodes x either =
      let node = new_node P (config_for P opt members ring idents i s) in
      let read = lookup-insert s.id x node nodes in
      start_nodes-present opt members ring idents (i + 1) ss (insert s.id node nodes) x
        (elim (bytes_discrete s.id x) [
          | yes p ↦ inr (node, ground (arith, read))
          | no p ↦ elim either [
            | inl h ↦ inl (ground (arith, same→eq s.id x))
            | inr (old, found) ↦ inr (old, ground (arith, read))
          ]
        ])

  -- The members of a network, by its order, are its staff.
  abbrev pub SelfStaffed : Network P → Type 0
  SelfStaffed n = Staffed P (Among n.order) n

  new_network-Staffed :
      (specs : List NodeSpec) (opt : Options) → SelfStaffed (new_network P specs opt)
  unfolding new_network
  new_network-Staffed specs opt = (
    λ x h.
        start_nodes-present opt _ _ _ 0 specs [] x
          (inl (sym (contains-sort bytes_lt (map (λ s. s.id) specs) x) ∙ h)),
    start_nodes-WritesTo opt (spec_ids specs) _ _ 0 specs [] tt,
    tt,
  )

  step-SelfStaffed : (n : Network P) → SelfStaffed n → SelfStaffed (step P n)
  step-SelfStaffed n s =
      subst (λ o. Staffed P (Among o) (step P n)) (sym (step-Fabric P n).order)
        (step-Staffed P (Among n.order) n s)

  propose_to_leader-SelfStaffed :
      (n n' : Network P) (cmd : Bytes)
      → propose_to_leader P n cmd ≡ some n'
      → SelfStaffed n
      → SelfStaffed n'
  unfolding propose_to_leader
  propose_to_leader-SelfStaffed n n' cmd h (present, each, addressed) =
      elim (Option-cases (leader_of P n)) [
        | inl nobody ↦ absurd (ground arith)
        | inr (id, chosen) ↦ elim (Option-cases (lookup id n.nodes)) [
          | inl missing ↦ absurd (ground arith)
          | inr (node, found) ↦ elim (Option-cases (propose P node cmd)) [
            | inl refused ↦ absurd (ground arith)
            | inr (node', taken) ↦
                let R = Among n.order in
                let next = record n { nodes = insert id node' n.nodes } in
                let now : next ≡ n' = ground arith in
                let writes =
                  propose-any P (WritesTo P R) (WritesTo-send P R) (WritesTo-fields P R) node cmd
                    taken (All-lookup (λ p. WritesTo P R p.1) id n.nodes each found) in
                subst SelfStaffed now (
                  λ x r. HasNode-insert P n next id node' x refl (present x r),
                  All-insert (λ p. WritesTo P R p.1) id node' n.nodes each writes,
                  addressed,
                )
          ]
        ]
      ]

  -- In every network that a cluster can come to, the members are nodes of it, and nodes and messages
  -- in flight write only to members.
  Reachable-SelfStaffed : (n : Network P) → Reachable n → SelfStaffed n
  unfolding cut_link heal_link corrupt_link clean_link set_latency note_fault
  Reachable-SelfStaffed _ (fresh specs opt) = new_network-Staffed specs opt
  Reachable-SelfStaffed _ (ticked n r) = step-SelfStaffed n (Reachable-SelfStaffed n r)
  Reachable-SelfStaffed _ (link_cut n from to r) = Reachable-SelfStaffed n r
  Reachable-SelfStaffed _ (link_healed n from to r) = Reachable-SelfStaffed n r
  Reachable-SelfStaffed _ (link_corrupted n from to r) = Reachable-SelfStaffed n r
  Reachable-SelfStaffed _ (link_cleaned n from to r) = Reachable-SelfStaffed n r
  Reachable-SelfStaffed _ (link_slowed n from to ticks r) = Reachable-SelfStaffed n r
  Reachable-SelfStaffed _ (commanded n n' cmd done r) =
      propose_to_leader-SelfStaffed n n' cmd done (Reachable-SelfStaffed n r)

  -- In every network that a fresh cluster can come to by ticks, changes to links and commands, every
  -- message in flight is addressed to a node of the network; a tick takes the replicas where handing them
  -- the due messages and letting each of them tick takes them, with no regard to the wire; it counts each
  -- due message as delivered; and the messages delivered, dropped and in flight together become more by
  -- exactly as many envelopes as the replicas send in the tick, in answer to the due messages and of their
  -- own accord.
  pub Reachable-account :
      (n : Network P)
      → Reachable n
      → let n' = step P n in
        All (λ m. HasNode P n m.env.to) n.in_flight
        × (n'.nodes ≡ (conversation P n).0)
        × (n'.delivered ≡ n.delivered + due_count (u64 (n.tick + 1)) n.in_flight)
        × (account P n' ≡ account P n + length (conversation P n).1)
  Reachable-account n r =
      let (present, each, addressed) = Reachable-SelfStaffed n r in
      let homes =
        All-map (λ m. Among n.order m.env.to) (λ m. HasNode P n m.env.to)
          (λ m h. present m.env.to h) n.in_flight addressed in
      let (nodes, counted, books) = step-Balanced P n homes in (homes, nodes, counted, books)
