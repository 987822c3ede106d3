-- ===== src/Sim/Keeps.antt =====
-- What a tick of internal/sim/network.go leaves alone, and what it keeps of every node.
use crossfault.Crypt.Envelope.{tamper}
use crossfault.Prelude.{
  ◌+◌, ◌≡◌, refl, subst, sym, ◌∙◌, List, [], ◌∷◌, ◌++◌, NodeId, NodeId-Key, lookup, insert, u64,
  ltb, All, All-lookup, All-insert, if◌then◌else◌, Bool-cases, Option-cases, inl, inr, arith,
}
use crossfault.Prelude.{◌⊎◌, ap, none}
use crossfault.Crypt.Envelope.{tamper}
use crossfault.Sim.Network.{is_down, is_corrupt, find_relay, direct_flight}
use crossfault.Platform.{Platform}
use crossfault.Crypt.Envelope.{Envelope}
use crossfault.Consensus.State.{Node}
use crossfault.Consensus.Node.Deliver.{deliver}
use crossfault.Consensus.Node.Tick.{tick}
use crossfault.Sim.Network.{
  Network, InFlight, rewrite, send_relayed, send_direct, enqueue, enqueue_all, hand_over,
  deliver_due, run_nodes, step,
}

module _ (P : Platform) where
  -- The parts of a network that messages do not touch.
  pub record Fabric (n n' : Network P) : Type 0 where
    pub order : n'.order ≡ n.order
    pub down : n'.down ≡ n.down
    pub corrupt : n'.corrupt ≡ n.corrupt
    pub latency : n'.latency ≡ n.latency
    pub relaying : n'.relaying ≡ n.relaying
    pub tick : n'.tick ≡ n.tick

  Fabric-refl : (n : Network P) → Fabric n n
  Fabric-refl n = record {
    order = refl;
    down = refl;
    corrupt = refl;
    latency = refl;
    relaying = refl;
    tick = refl;
  }

  Fabric-trans : {a b c : Network P} → Fabric a b → Fabric b c → Fabric a c
  Fabric-trans f g = record {
    order = g.order ∙ f.order;
    down = g.down ∙ f.down;
    corrupt = g.corrupt ∙ f.corrupt;
    latency = g.latency ∙ f.latency;
    relaying = g.relaying ∙ f.relaying;
    tick = g.tick ∙ f.tick;
  }

  -- Putting a message on the network also leaves the nodes alone.
  enqueue-Fabric :
      (n : Network P) (env : Envelope)
      → Fabric n (enqueue P n env) × ((enqueue P n env).nodes ≡ n.nodes)
  unfolding enqueue rewrite send_relayed send_direct
  enqueue-Fabric n env = ground arith

  rewrite_lem :
      (n : Network P) (env : Envelope)
      → ((rewrite P n env).0.in_flight ≡ n.in_flight)
        × ((rewrite P n env).0.dropped ≡ n.dropped)
        × ((rewrite P n env).1.to ≡ env.to)
  unfolding rewrite tamper
  rewrite_lem n env = ground arith

  -- A message that is put on the network is counted as dropped or in flight, to the same addressee.
  abbrev pub Queued : Network P → Envelope → Network P → Type 0
  Queued n env n' =
      ((n'.in_flight ≡ n.in_flight) × (n'.dropped ≡ n.dropped + 1))
      ⊎ ((m : InFlight) × (m.env.to ≡ env.to)
          × (n'.in_flight ≡ n.in_flight ++ m ∷ [])
          × (n'.dropped ≡ n.dropped))

  pub enqueue-Queued : (n : Network P) (env : Envelope) → Queued n env (enqueue P n env)
  unfolding enqueue send_relayed send_direct
  enqueue-Queued n env =
      let route = if n.relaying then find_relay P n env.from env.to else none in
      elim (Bool-cases (is_down P n env.from env.to)) [
        | inr works ↦ elim (Bool-cases (is_corrupt P n env.from env.to)) [
          | inl hostile_there ↦
              let (flight, drops, to) = rewrite_lem n env in
              let m = direct_flight P (rewrite P n env).0 (rewrite P n env).1 in
              rw (works, hostile_there) (inr (m, to, ap (λ l. l ++ m ∷ []) flight, drops))
          | inr clean ↦ rw (works, clean) (inr (direct_flight P n env, refl, refl, refl))
        ]
        | inl broken ↦ elim (Option-cases route) [
          | inl nowhere ↦ rw (broken, nowhere) (inl (refl, refl))
          | inr (via, around) ↦ rw (broken, around) (inr (_, refl, refl, refl))
        ]
      ]

  pub enqueue_all-Fabric :
      (n : Network P) (envs : List Envelope)
      → Fabric n (enqueue_all P n envs) × ((enqueue_all P n envs).nodes ≡ n.nodes)
  unfolding enqueue_all
  enqueue_all-Fabric n [] = (Fabric-refl n, refl)
  enqueue_all-Fabric n (env ∷ envs) =
      let (first, nodes) = enqueue-Fabric n env in
      let (later, nodes') = enqueue_all-Fabric (enqueue P n env) envs in
      (Fabric-trans first later, nodes' ∙ nodes)

  hand_over-Fabric : (n : Network P) (m : InFlight) → Fabric n (hand_over P n m)
  unfolding hand_over
  hand_over-Fabric n m = elim (Option-cases (lookup m.env.to n.nodes)) [
    | inl missing ↦ rw (missing, hand_over) (Fabric-refl n)
    | inr (dst, found) ↦
        let dst' = deliver P dst m.env in
        let fed = record n { delivered = n.delivered + 1; nodes = insert m.env.to dst' n.nodes } in
        let kept = (enqueue_all-Fabric fed dst'.outbox).0 in
        rw (found, hand_over)
          (record {
            order = kept.order;
            down = kept.down;
            corrupt = kept.corrupt;
            latency = kept.latency;
            relaying = kept.relaying;
            tick = kept.tick;
          })
  ]

  deliver_due-Fabric : (n : Network P) (ms : List InFlight) → Fabric n (deliver_due P n ms)
  unfolding deliver_due
  deliver_due-Fabric n [] = Fabric-refl n
  deliver_due-Fabric n (m ∷ ms) =
      let served =
        if ltb n.tick m.due_tick
        then record n { in_flight = n.in_flight ++ m ∷ [] }
        else hand_over P n m in
      let first : Fabric n served = ground (arith, hand_over-Fabric n m) in
      Fabric-trans first (deliver_due-Fabric served ms)

  run_nodes-Fabric : (n : Network P) (ids : List NodeId) → Fabric n (run_nodes P n ids)
  unfolding run_nodes
  run_nodes-Fabric n [] = Fabric-refl n
  run_nodes-Fabric n (id ∷ ids) = elim (Option-cases (lookup id n.nodes)) [
    | inl missing ↦ rw (missing, run_nodes) (run_nodes-Fabric n ids)
    | inr (node, found) ↦
        let node' = tick P node in
        let ticked = record n { nodes = insert id node' n.nodes } in
        let kept = (enqueue_all-Fabric ticked node'.outbox).0 in
        let first : Fabric n (enqueue_all P ticked node'.outbox) = record {
          order = kept.order;
          down = kept.down;
          corrupt = kept.corrupt;
          latency = kept.latency;
          relaying = kept.relaying;
          tick = kept.tick;
        } in
        rw (found, run_nodes)
          (Fabric-trans first (run_nodes-Fabric (enqueue_all P ticked node'.outbox) ids))
  ]

  -- A tick of the network leaves the links, the latencies and the roster as they are, and moves the
  -- clock on by one.
  pub step-Fabric : (n : Network P) → Fabric (record n { tick = u64 (n.tick + 1) }) (step P n)
  unfolding step
  step-Fabric n =
      let started = record n { tick = u64 (n.tick + 1); in_flight = [] } in
      let served = deliver_due P started n.in_flight in
      let kept =
        Fabric-trans (deliver_due-Fabric started n.in_flight)
          (run_nodes-Fabric served served.order) in
      record {
        order = kept.order;
        down = kept.down;
        corrupt = kept.corrupt;
        latency = kept.latency;
        relaying = kept.relaying;
        tick = kept.tick;
      }

module _ (P : Platform) (Q : NodeId × Node P → Type 0)
    (on_deliver : (id : NodeId) (node : Node P) (env : Envelope)
      → Q (id, node)
      → Q (id, deliver P node env))
    (on_tick : (id : NodeId) (node : Node P) → Q (id, node) → Q (id, tick P node)) where
  hand_over-All : (n : Network P) (m : InFlight) → All Q n.nodes → All Q (hand_over P n m).nodes
  unfolding hand_over
  hand_over-All n m a = elim (Option-cases (lookup m.env.to n.nodes)) [
    | inl missing ↦ rw (missing, hand_over) a
    | inr (dst, found) ↦
        let dst' = deliver P dst m.env in
        let fed = record n { delivered = n.delivered + 1; nodes = insert m.env.to dst' n.nodes } in
        let kept = on_deliver m.env.to dst m.env (All-lookup Q m.env.to n.nodes a found) in
        rw (found, hand_over)
          (subst (All Q) (sym (enqueue_all-Fabric P fed dst'.outbox).1)
            (All-insert Q m.env.to dst' n.nodes a kept))
  ]

  deliver_due-All :
      (n : Network P) (ms : List InFlight) → All Q n.nodes → All Q (deliver_due P n ms).nodes
  unfolding deliver_due
  deliver_due-All n [] a = a
  deliver_due-All n (m ∷ ms) a =
      let served =
        if ltb n.tick m.due_tick
        then record n { in_flight = n.in_flight ++ m ∷ [] }
        else hand_over P n m in
      deliver_due-All served ms (elim (Bool-cases (ltb n.tick m.due_tick)) [
        | inl waits ↦ rw waits a
        | inr due ↦ rw due (hand_over-All n m a)
      ])

  run_nodes-All :
      (n : Network P) (ids : List NodeId) → All Q n.nodes → All Q (run_nodes P n ids).nodes
  unfolding run_nodes
  run_nodes-All n [] a = a
  run_nodes-All n (id ∷ ids) a = elim (Option-cases (lookup id n.nodes)) [
    | inl missing ↦ rw (missing, run_nodes) (run_nodes-All n ids a)
    | inr (node, found) ↦
        let node' = tick P node in
        let ticked = record n { nodes = insert id node' n.nodes } in
        let kept = on_tick id node (All-lookup Q id n.nodes a found) in
        rw (found, run_nodes)
          (run_nodes-All (enqueue_all P ticked node'.outbox) ids (
            subst (All Q) (sym (enqueue_all-Fabric P ticked node'.outbox).1)
              (All-insert Q id node' n.nodes a kept)))
  ]

  -- What deliveries and ticks keep of each node, a tick of the network keeps of all of them.
  pub step-All : (n : Network P) → All Q n.nodes → All Q (step P n).nodes
  unfolding step
  step-All n a =
      let started = record n { tick = u64 (n.tick + 1); in_flight = [] } in
      run_nodes-All (deliver_due P started n.in_flight) _ (deliver_due-All started n.in_flight a)
