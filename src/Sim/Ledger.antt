-- ===== src/Sim/Ledger.antt =====
-- The books of internal/sim/network.go: every message is delivered, dropped or in flight.
use crossfault.Prelude.{
  if◌then◌else◌, bytes_discrete, All-map, ℕ, ◌+◌, ◌≡◌, refl, ap, ◌∙◌, some, Map, true, false, List,
  [], ◌∷◌, ◌++◌, NodeId, NodeId-Key, lookup, lookup-insert, insert, length, length-append, ltb, u64,
  All, Bool-cases, Option-cases, inl, inr, arith,
}
use crossfault.Platform.{Platform}
use crossfault.Crypt.Envelope.{Envelope}
use crossfault.Consensus.State.{Node}
use crossfault.Consensus.Node.Deliver.{deliver}
use crossfault.Consensus.Node.Tick.{tick}
use crossfault.Sim.Network.{
  Network, InFlight, rewrite, send_relayed, send_direct, enqueue, enqueue_all, hand_over,
  deliver_due, run_nodes, step,
}
use crossfault.Sim.Keeps.{enqueue-Queued}
use crossfault.Sim.Keeps.{enqueue_all-Fabric}
use crossfault.Sim.Conversation.{due_count, answer, answers, remarks, conversation}

module _ (P : Platform) where
  -- How many messages the network has had, by its counters and its queue.
  abbrev pub account : Network P → ℕ
  account n = n.delivered + n.dropped + length n.in_flight

  -- The addressee is a node of the network.
  abbrev pub HasNode : Network P → NodeId → Type 0
  HasNode n id = (node : Node P) × (lookup id n.nodes ≡ some node)

  enqueue-delivered : (n : Network P) (env : Envelope) → (enqueue P n env).delivered ≡ n.delivered
  unfolding enqueue rewrite send_relayed send_direct
  enqueue-delivered n env = ground arith

  account-enqueue : (n : Network P) (env : Envelope) → account (enqueue P n env) ≡ account n + 1
  account-enqueue n env = elim (enqueue-Queued P n env) [
    | inl (flight, drops) ↦ omega (arith, enqueue-delivered n env, ap length flight, drops)
    | inr (m, same_to, flight, drops) ↦ omega (
      arith,
      enqueue-delivered n env,
      ap length flight,
      drops,
      length-append n.in_flight (m ∷ []),
    )
  ]

  account-enqueue_all :
      (n : Network P) (envs : List Envelope)
      → account (enqueue_all P n envs) ≡ account n + length envs
  unfolding enqueue_all
  account-enqueue_all n [] = omega arith
  account-enqueue_all n (env ∷ envs) =
      omega (arith, account-enqueue n env, account-enqueue_all (enqueue P n env) envs)

  enqueue_all-delivered :
      (n : Network P) (envs : List Envelope) → (enqueue_all P n envs).delivered ≡ n.delivered
  unfolding enqueue_all
  enqueue_all-delivered n [] = refl
  enqueue_all-delivered n (env ∷ envs) =
      enqueue_all-delivered (enqueue P n env) envs ∙ enqueue-delivered n env

  pub HasNode-insert :
      (n n' : Network P) (id : NodeId) (node : Node P) (x : NodeId)
      → n'.nodes ≡ insert id node n.nodes
      → HasNode n x
      → HasNode n' x
  HasNode-insert n n' id node x now (old, found) =
      let read = ap (lookup x) now ∙ lookup-insert id x node n.nodes in
      elim (bytes_discrete id x) [
        | yes p ↦ (node, ground (arith, read))
        | no p ↦ (old, ground (arith, read))
      ]

  HasNode-hand_over :
      (n : Network P) (m : InFlight) (x : NodeId) → HasNode n x → HasNode (hand_over P n m) x
  unfolding hand_over
  HasNode-hand_over n m x has = elim (Option-cases (lookup m.env.to n.nodes)) [
    | inl missing ↦ rw (missing, hand_over) has
    | inr (dst, found) ↦
        let dst' = deliver P dst m.env in
        let fed = record n { delivered = n.delivered + 1; nodes = insert m.env.to dst' n.nodes } in
        rw (found, hand_over)
          (HasNode-insert n (enqueue_all P fed dst'.outbox) m.env.to dst' x
            (enqueue_all-Fabric P fed dst'.outbox).1 has)
  ]

  -- One round of the delivery loop.
  abbrev serve : Network P → InFlight → Network P
  serve n m =
      if ltb n.tick m.due_tick
      then record n { in_flight = n.in_flight ++ m ∷ [] }
      else hand_over P n m

  HasNode-serve : (n : Network P) (m : InFlight) (x : NodeId) → HasNode n x → HasNode (serve n m) x
  HasNode-serve n m x has = elim (Bool-cases (ltb n.tick m.due_tick)) [
    | inl waits ↦ rw waits has
    | inr due ↦ rw due (HasNode-hand_over n m x has)
  ]

  -- The books of a network after it was given some messages more, of which some were delivered, and its
  -- replicas sent some envelopes.
  abbrev Balanced : Network P → ℕ → ℕ → Map NodeId (Node P) × List Envelope → Network P → Type 0
  Balanced n given handed (nodes, sent) n' =
      (n'.nodes ≡ nodes)
      × (n'.delivered ≡ n.delivered + handed)
      × (account n' ≡ account n + given + length sent)
      × (n'.tick ≡ n.tick)
      × (n'.order ≡ n.order)

  -- Envelopes that go onto the wire behind a change of the replicas.
  enqueue_all-Balanced :
      (n : Network P) (envs : List Envelope) → Balanced n 0 0 (n.nodes, envs) (enqueue_all P n envs)
  enqueue_all-Balanced n envs =
      let (f, nodes) = enqueue_all-Fabric P n envs in
      (
        nodes,
        omega (arith, enqueue_all-delivered n envs),
        omega (arith, account-enqueue_all n envs),
        f.tick,
        f.order,
      )

  answer-early :
      (now : ℕ) (nodes : Map NodeId (Node P)) (m : InFlight)
      → ltb now m.due_tick ≡ true
      → answer P now nodes m ≡ (nodes, [])
  unfolding answer
  answer-early now nodes m waits = rw (waits, answer) refl

  answer-due :
      (now : ℕ) (nodes : Map NodeId (Node P)) (m : InFlight) {dst : Node P}
      → ltb now m.due_tick ≡ false
      → lookup m.env.to nodes ≡ some dst
      → answer P now nodes m
        ≡ (insert m.env.to (deliver P dst m.env) nodes, (deliver P dst m.env).outbox)
  unfolding answer
  answer-due now nodes m due found = rw (due, found, answer) refl

  serve-Balanced :
      (n : Network P) (m : InFlight)
      → HasNode n m.env.to
      → Balanced n 1
          (if ltb n.tick m.due_tick then 0 else 1)
          (answer P n.tick n.nodes m)
          (serve n m)
  unfolding hand_over
  serve-Balanced n m (dst, found) = elim (Bool-cases (ltb n.tick m.due_tick)) [
    | inl waits ↦
        rw (answer-early n.tick n.nodes m waits, waits)
          (refl, omega arith, omega (arith, length-append n.in_flight (m ∷ [])), refl, refl)
    | inr due ↦
        let dst' = deliver P dst m.env in
        let fed = record n { delivered = n.delivered + 1; nodes = insert m.env.to dst' n.nodes } in
        let (nodes, counted, books, now, order) = enqueue_all-Balanced fed dst'.outbox in
        rw (answer-due n.tick n.nodes m due found, due, found, hand_over)
          (nodes, omega (arith, counted), omega (arith, books), now, order)
  ]

  deliver_due-Balanced :
      (n : Network P) (ms : List InFlight)
      → All (λ m. HasNode n m.env.to) ms
      → Balanced n
          (length ms)
          (due_count n.tick ms)
          (answers P n.tick n.nodes ms)
          (deliver_due P n ms)
  unfolding deliver_due answers due_count
  deliver_due-Balanced n [] has = (refl, omega arith, omega arith, refl, refl)
  deliver_due-Balanced n (m ∷ ms) (here, later) =
      let n' = serve n m in
      let still =
        All-map (λ x. HasNode n x.env.to) (λ x. HasNode n' x.env.to)
          (λ x h. HasNode-serve n m x.env.to h) ms later in
      let (nodes, counted, books, now, order) = serve-Balanced n m here in
      let (nodes', counted', books', now', order') = deliver_due-Balanced n' ms still in
      let said = answer P n.tick n.nodes m in
      let same_rest : answers P n'.tick n'.nodes ms ≡ answers P n.tick said.0 ms =
        ap (λ t. answers P t n'.nodes ms) now ∙ ap (λ x. answers P n.tick x ms) nodes in
      (
        nodes' ∙ ap (λ r. r.0) same_rest,
        omega (arith, counted, counted', ap (λ t. due_count t ms) now),
        omega (
          arith,
          books,
          books',
          ap (λ r. length r.1) same_rest,
          length-append said.1 (answers P n.tick said.0 ms).1,
        ),
        now' ∙ now,
        order' ∙ order,
      )

  run_nodes-Balanced :
      (n : Network P) (ids : List NodeId)
      → Balanced n 0 0 (remarks P n.nodes ids) (run_nodes P n ids)
  unfolding run_nodes remarks
  run_nodes-Balanced n [] = (refl, omega arith, omega arith, refl, refl)
  run_nodes-Balanced n (id ∷ ids) = elim (Option-cases (lookup id n.nodes)) [
    | inl missing ↦ rw (missing, run_nodes, remarks) (run_nodes-Balanced n ids)
    | inr (node, found) ↦
        let node' = tick P node in
        let ticked = record n { nodes = insert id node' n.nodes } in
        let n' = enqueue_all P ticked node'.outbox in
        let (nodes, counted, books, now, order) = enqueue_all-Balanced ticked node'.outbox in
        let (nodes', counted', books', now', order') = run_nodes-Balanced n' ids in
        let later = remarks P ticked.nodes ids in
        let same_rest : remarks P n'.nodes ids ≡ later = ap (λ x. remarks P x ids) nodes in
        rw (found, run_nodes, remarks)
          (
            nodes' ∙ ap (λ r. r.0) same_rest,
            omega (arith, counted, counted'),
            omega (
              arith,
              books,
              books',
              ap (λ r. length r.1) same_rest,
              length-append node'.outbox later.1,
            ),
            now' ∙ now,
            order' ∙ order,
          )
  ]

  -- The books of a tick: the network ends with the replicas of the conversation, has delivered what was
  -- due, and has in flight or counted as dropped what waits and every envelope sent.
  pub step-Balanced :
      (n : Network P)
      → All (λ m. HasNode n m.env.to) n.in_flight
      → let n' = step P n in
        (n'.nodes ≡ (conversation P n).0)
        × (n'.delivered ≡ n.delivered + due_count (u64 (n.tick + 1)) n.in_flight)
        × (account n' ≡ account n + length (conversation P n).1)
  unfolding step conversation
  step-Balanced n has =
      let started = record n { tick = u64 (n.tick + 1); in_flight = [] } in
      let served = deliver_due P started n.in_flight in
      let (nodes, counted, books, now, order) = deliver_due-Balanced started n.in_flight has in
      let (nodes', counted', books', _, _) = run_nodes-Balanced served served.order in
      let replies = answers P started.tick n.nodes n.in_flight in
      let same_rest : remarks P served.nodes served.order ≡ remarks P replies.0 n.order =
        ap (λ x. remarks P x served.order) nodes ∙ ap (λ l. remarks P replies.0 l) order in
      (
        nodes' ∙ ap (λ r. r.0) same_rest,
        omega (arith, counted, counted'),
        omega (
          arith,
          books,
          books',
          ap (λ r. length r.1) same_rest,
          length-append replies.1 (remarks P replies.0 n.order).1,
        ),
      )
