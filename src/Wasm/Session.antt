-- ===== src/Wasm/Session.antt =====
-- A page's session with the engine of cmd/wasm/main.go, over any sequence of calls.
use crossfault.Prelude.{
  ℕ, zero, suc, ◌+◌, ◌≡◌, refl, sym, subst, ap, ◌∙◌, none, some, List, [], ◌∷◌, NodeId, Bytes,
  NodeId-Key, Map, lookup, insert, All, All-lookup, All-insert, Option-cases, inl, inr, arith,
}
use crossfault.Platform.{Platform}
use crossfault.Crypt.Identity.{Identity, Keyring}
use crossfault.Consensus.State.{
  Mode, Node, Config, blank_node, add_peer, add_peers, reset_election_timer, new_node,
}
use crossfault.Consensus.Node.Deliver.{deliver, propose}
use crossfault.Consensus.Node.Tick.{tick}
use crossfault.Consensus.Node.Fixed.{deliver-settings, tick-settings, propose-settings}
use crossfault.Sim.Network.{
  Network, NodeSpec, Options, cut_link, heal_link, corrupt_link, clean_link, note_fault,
}
use crossfault.Sim.Network
use crossfault.Sim.Cluster.{config_for, start_nodes, new_network, leader_of, propose_to_leader}
use crossfault.Sim.Keeps.{step-All}
use crossfault.Sim.Reach.{
  Reachable, fresh, ticked, link_cut, link_healed, link_corrupted, link_cleaned, commanded,
}
use crossfault.Wasm.Engine.{
  Js, Engine, Global, Call, reset_call, step_call, cut_call, heal_call, corrupt_call, clean_call,
  propose_call, state_call, default_cluster, rounds_arg, step_times, reset, step, on_link, call,
  calls, session,
}
use crossfault.Wasm.Engine

module _ (P : Platform) where
  -- A node stands under its own name and runs in a mode.
  abbrev pub RunsIn : Mode → NodeId × Node P → Type 0
  RunsIn mode p = (p.1.id ≡ p.0) × (p.1.mode ≡ mode)

  RunsIn-settings :
      (mode : Mode) (id : NodeId) (n n' : Node P)
      → n'.settings ≡ n.settings
      → RunsIn mode (id, n)
      → RunsIn mode (id, n')
  RunsIn-settings mode id n n' same_settings (named, moded) =
      (ap (λ s. s.id) same_settings ∙ named, ap (λ s. s.mode) same_settings ∙ moded)

  add_peers-settings : (n : Node P) (ms : List NodeId) → (add_peers P n ms).settings ≡ n.settings
  unfolding add_peers add_peer
  add_peers-settings n [] = refl
  add_peers-settings n (m ∷ ms) = grind (arith, add_peers-settings (add_peer P n m) ms)

  new_node-RunsIn : (c : Config) → RunsIn c.mode (c.id, new_node P c)
  unfolding new_node blank_node reset_election_timer
  new_node-RunsIn c =
      let kept = add_peers-settings (blank_node P c) c.members in
      (ap (λ s. s.id) kept, ap (λ s. s.mode) kept)

  start_nodes-RunsIn :
      (opt : Options) (members : List NodeId) (ring : Keyring) (idents : Map NodeId Identity)
      (i : ℕ) (specs : List NodeSpec) (nodes : Map NodeId (Node P))
      → All (RunsIn opt.mode) nodes
      → All (RunsIn opt.mode) (start_nodes P opt members ring idents i specs nodes)
  unfolding start_nodes
  start_nodes-RunsIn opt members ring idents i [] nodes a = a
  start_nodes-RunsIn opt members ring idents i (s ∷ ss) nodes a =
      let c = config_for P opt members ring idents i s in
      start_nodes-RunsIn opt members ring idents (i + 1) ss _
        (All-insert (RunsIn opt.mode) s.id (new_node P c) nodes a (new_node-RunsIn c))

  new_network-RunsIn :
      (specs : List NodeSpec) (opt : Options)
      → All (RunsIn opt.mode) (new_network P specs opt).nodes
  unfolding new_network
  new_network-RunsIn specs opt = start_nodes-RunsIn opt _ _ _ 0 specs [] tt

  step-RunsIn :
      (mode : Mode) (n : Network P)
      → All (RunsIn mode) n.nodes
      → All (RunsIn mode) (Network.step P n).nodes
  step-RunsIn mode =
      step-All P (RunsIn mode)
        (λ id node env q.
          RunsIn-settings mode id node (deliver P node env) (deliver-settings P node env) q)
        (λ id node q. RunsIn-settings mode id node (tick P node) (tick-settings P node) q)

  propose_to_leader-RunsIn :
      (mode : Mode) (n : Network P) (cmd : Bytes) {n' : Network P}
      → propose_to_leader P n cmd ≡ some n'
      → All (RunsIn mode) n.nodes
      → All (RunsIn mode) n'.nodes
  unfolding propose_to_leader
  propose_to_leader-RunsIn mode n cmd {n'} h a = elim (Option-cases (leader_of P n)) [
    | inl nobody ↦ absurd (ground arith)
    | inr (id, chosen) ↦ elim (Option-cases (lookup id n.nodes)) [
      | inl missing ↦ absurd (ground arith)
      | inr (node, found) ↦ elim (Option-cases (propose P node cmd)) [
        | inl refused ↦ absurd (ground arith)
        | inr (node', taken) ↦
            let kept =
              RunsIn-settings mode id node node' (propose-settings P node cmd taken)
                (All-lookup (RunsIn mode) id n.nodes a found) in
            let now : n'.nodes ≡ insert id node' n.nodes = ground arith in
            rw now (All-insert (RunsIn mode) id node' n.nodes a kept)
      ]
    ]
  ]

module _ (P : Platform) where
  -- A network that a cluster can come to, all of its nodes under their names and in one mode.
  abbrev pub Sound : Mode → Network P → Type 0
  Sound mode n = All (RunsIn P mode) n.nodes × Reachable P n

  new_network-Sound :
      (specs : List NodeSpec) (opt : Options) → Sound opt.mode (new_network P specs opt)
  new_network-Sound specs opt = (new_network-RunsIn P specs opt, fresh specs opt)

  step_times-Sound :
      (mode : Mode) (k : ℕ) (n : Network P) → Sound mode n → Sound mode (step_times P k n)
  unfolding step_times
  step_times-Sound mode zero n s = s
  step_times-Sound mode (suc k) n (runs, reached) =
      step_times-Sound mode k (Network.step P n) (step-RunsIn P mode n runs, ticked n reached)

module _ (P : Platform) (js : Js) where
  -- An engine that runs, on a sound network.
  abbrev pub Runs : Global P → Type 0
  Runs none = ⊥
  Runs (some e) = Sound P e.mode e.net

  on_link-Runs :
      (change : Network P → NodeId → NodeId → Network P)
      → ((n : Network P) (x y : NodeId) → (change n x y).nodes ≡ n.nodes)
      → ((n : Network P) (x y : NodeId) → Reachable P n → Reachable P (change n x y))
      → (g : Global P) (args : List (js.Value)) → Runs g
      → Runs (on_link P js change g args).0
  unfolding on_link
  on_link-Runs change keeps reaches none args r = r
  on_link-Runs change keeps reaches (some e) [] r = r
  on_link-Runs change keeps reaches (some e) (v ∷ []) r = r
  on_link-Runs change keeps reaches (some e) (v ∷ w ∷ rest) (runs, reached) =
      let from = js.to_string v in
      let to = js.to_string w in
      (
        subst (All (RunsIn P e.mode)) (sym (keeps e.net from to)) runs,
        reaches e.net from to reached,
      )

  call-Runs : (g : Global P) (c : Call P js) → Runs g → Runs (call P js g c).0
  unfolding call reset step Engine.propose cut_link heal_link corrupt_link clean_link note_fault
  call-Runs g (reset_call args) r = new_network-Sound P default_cluster _
  call-Runs none c r = absurd r
  call-Runs (some e) (step_call args) r = step_times-Sound P e.mode (rounds_arg js args) e.net r
  call-Runs (some e) (cut_call args) r =
      on_link-Runs (cut_link P) (λ n x y. refl) (λ n x y. link_cut n x y) (some e) args r
  call-Runs (some e) (heal_call args) r =
      on_link-Runs (heal_link P) (λ n x y. refl) (λ n x y. link_healed n x y) (some e) args r
  call-Runs (some e) (corrupt_call args) r =
      on_link-Runs (corrupt_link P) (λ n x y. refl) (λ n x y. link_corrupted n x y) (some e) args r
  call-Runs (some e) (clean_call args) r =
      on_link-Runs (clean_link P) (λ n x y. refl) (λ n x y. link_cleaned n x y) (some e) args r
  call-Runs (some e) (state_call args) r = r
  call-Runs (some e) (propose_call []) r = r
  call-Runs (some e) (propose_call (v ∷ rest)) (runs, reached) =
      let cmd = js.to_string v in
      elim (Option-cases (propose_to_leader P e.net cmd)) [
        | inl refused ↦ rw (refused, Engine.propose) (runs, reached)
        | inr (net', taken) ↦
            rw (taken, Engine.propose)
              (
                propose_to_leader-RunsIn P e.mode e.net cmd taken runs,
                commanded e.net net' cmd taken reached,
              )
      ]

  calls-Runs : (g : Global P) (cs : List (Call P js)) → Runs g → Runs (calls P js g cs)
  unfolding calls
  calls-Runs g [] r = r
  calls-Runs g (c ∷ cs) r = calls-Runs (call P js g c).0 cs (call-Runs g c r)

  -- After `main` and any calls the engine is initialised, every node of its network stands under its own
  -- name and runs in the mode that the engine shows, and the network is one that a cluster can come to
  -- by ticks, changes to links and commands.
  pub session-Runs : (cs : List (Call P js)) → Runs (session P js cs)
  unfolding session reset
  session-Runs cs = calls-Runs _ cs (new_network-Sound P default_cluster _)
