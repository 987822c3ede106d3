-- ===== src/Sim/Roster.antt =====
-- Who can be written to in internal/sim/network.go: nodes send only to members that they have a transcript
-- with, so the addressee of a message in flight is always a node of the network.
use crossfault.Prelude.{
  ℕ, ◌+◌, ◌≡◌, refl, sym, ap, subst, ◌∙◌, some, List, [], ◌∷◌, ◌++◌, Bytes, NodeId, NodeId-Key,
  bytes_discrete, lookup, lookup-insert, insert, All, All-append, All-lookup, All-insert, ltb, u64,
  if◌then◌else◌, Bool-cases, Option-cases, inl, inr, arith,
}
use crossfault.Platform.{Platform}
use crossfault.Crypt.Envelope.{Envelope, seal}
use crossfault.Crypt.Transcript.{Transcript, next}
use crossfault.Consensus.State.{Node}
use crossfault.Consensus.Node.{send, draft}
use crossfault.Consensus.Node.Deliver.{deliver}
use crossfault.Consensus.Node.Tick.{tick}
use crossfault.Consensus.Node.Sending.Stepping.{deliver-any, tick-any}
use crossfault.Sim.Network.{
  Network, InFlight, enqueue, enqueue_all, hand_over, deliver_due, run_nodes, step,
}
use crossfault.Sim.Keeps.{enqueue-Queued}
use crossfault.Sim.Keeps.{enqueue_all-Fabric}
use crossfault.Sim.Ledger.{HasNode, HasNode-insert}

module _ (P : Platform) (R : NodeId → Type 0) where
  -- A node that knows, and writes to, nobody outside `R`.
  abbrev pub WritesTo : Node P → Type 0
  WritesTo n =
      ((k : NodeId) (tr : Transcript) → lookup k n.send_tr ≡ some tr → R k)
      × All (λ e. R e.to) n.outbox

  pub WritesTo-fields :
      (n n' : Node P) → n'.send_tr ≡ n.send_tr → n'.outbox ≡ n.outbox → WritesTo n → WritesTo n'
  WritesTo-fields n n' tr out (known, to) =
      (λ k t h. known k t (sym (ap (lookup k) tr) ∙ h), subst (All (λ e. R e.to)) (sym out) to)

  pub WritesTo-send :
      (n : Node P) (to : NodeId) (kind : ℕ) (payload : Bytes)
      → WritesTo n
      → WritesTo (send P n to kind payload)
  unfolding send next seal
  WritesTo-send n to kind payload (known, sent) = elim (Option-cases (lookup to n.send_tr)) [
    | inl missing ↦ rw (missing, send) (known, sent)
    | inr (tr, found) ↦
        let (tr', env) = next P tr n.ident (draft P to kind n.current_term payload) in
        rw (found, send)
          (
            λ k t h. elim (bytes_discrete to k) [
              | yes p ↦ subst R p (known to tr found)
              | no p ↦ known k t (ground (arith, lookup-insert to k tr' n.send_tr))
            ],
            All-append (λ e. R e.to) n.outbox (env ∷ []) sent (known to tr found, tt),
          )
  ]

  WritesTo-deliver : (n : Node P) (env : Envelope) → WritesTo n → WritesTo (deliver P n env)
  WritesTo-deliver n env (known, sent) =
      deliver-any P WritesTo WritesTo-send WritesTo-fields n env (known, tt)

  WritesTo-tick : (n : Node P) → WritesTo n → WritesTo (tick P n)
  WritesTo-tick n (known, sent) = tick-any P WritesTo WritesTo-send WritesTo-fields n (known, tt)

  -- Everybody in `R` is a node of the network, the nodes write to nobody else, and neither do the messages
  -- in flight.
  abbrev pub Staffed : Network P → Type 0
  Staffed n =
      ((x : NodeId) → R x → HasNode P n x)
      × All (λ p. WritesTo p.1) n.nodes
      × All (λ m. R m.env.to) n.in_flight

  enqueue-in_flight :
      (n : Network P) (env : Envelope)
      → R env.to
      → All (λ m. R m.env.to) n.in_flight
      → All (λ m. R m.env.to) (enqueue P n env).in_flight
  enqueue-in_flight n env to_r flight = elim (enqueue-Queued P n env) [
    | inl (kept, drops) ↦ subst (All (λ m. R m.env.to)) (sym kept) flight
    | inr (m, same_to, now, drops) ↦
        subst (All (λ x. R x.env.to)) (sym now) (
          All-append (λ x. R x.env.to) n.in_flight (m ∷ []) flight (subst R (sym same_to) to_r, tt))
  ]

  enqueue_all-in_flight :
      (n : Network P) (envs : List Envelope)
      → All (λ e. R e.to) envs
      → All (λ m. R m.env.to) n.in_flight
      → All (λ m. R m.env.to) (enqueue_all P n envs).in_flight
  unfolding enqueue_all
  enqueue_all-in_flight n [] to_r flight = flight
  enqueue_all-in_flight n (env ∷ envs) (to_r, rest) flight =
      enqueue_all-in_flight (enqueue P n env) envs rest (enqueue-in_flight n env to_r flight)

  -- A node is replaced, and what it wrote goes out.
  Staffed-replace :
      (n ready : Network P) (id : NodeId) (node : Node P)
      → ready.nodes ≡ insert id node n.nodes
      → ready.in_flight ≡ n.in_flight
      → WritesTo node
      → Staffed n
      → Staffed (enqueue_all P ready node.outbox)
  Staffed-replace n ready id node nodes flight writes (present, each, addressed) =
      let sent = enqueue_all P ready node.outbox in
      let now : sent.nodes ≡ insert id node n.nodes =
        (enqueue_all-Fabric P ready node.outbox).1 ∙ nodes in
      (
        λ x r. HasNode-insert P n sent id node x now (present x r),
        subst (All (λ p. WritesTo p.1)) (sym now)
            (All-insert (λ p. WritesTo p.1) id node n.nodes each writes),
        enqueue_all-in_flight ready node.outbox writes.1
            (subst (All (λ m. R m.env.to)) (sym flight) addressed),
      )

  hand_over-Staffed : (n : Network P) (m : InFlight) → Staffed n → Staffed (hand_over P n m)
  unfolding hand_over
  hand_over-Staffed n m s = elim (Option-cases (lookup m.env.to n.nodes)) [
    | inl missing ↦ rw (missing, hand_over) s
    | inr (dst, found) ↦
        let dst' = deliver P dst m.env in
        let fed = record n { delivered = n.delivered + 1; nodes = insert m.env.to dst' n.nodes } in
        let writes =
          WritesTo-deliver dst m.env (All-lookup (λ p. WritesTo p.1) m.env.to n.nodes s.1 found) in
        rw (found, hand_over) (Staffed-replace n fed m.env.to dst' refl refl writes s)
  ]

  deliver_due-Staffed :
      (n : Network P) (ms : List InFlight)
      → All (λ m. R m.env.to) ms
      → Staffed n
      → Staffed (deliver_due P n ms)
  unfolding deliver_due
  deliver_due-Staffed n [] to_r s = s
  deliver_due-Staffed n (m ∷ ms) (here, later) s =
      let waiting = record n { in_flight = n.in_flight ++ m ∷ [] } in
      let served = if ltb n.tick m.due_tick then waiting else hand_over P n m in
      deliver_due-Staffed served ms later (elim (Bool-cases (ltb n.tick m.due_tick)) [
        | inl waits ↦
            rw waits (s.0, s.1, All-append (λ x. R x.env.to) n.in_flight (m ∷ []) s.2 (here, tt))
        | inr due ↦ rw due (hand_over-Staffed n m s)
      ])

  run_nodes-Staffed : (n : Network P) (ids : List NodeId) → Staffed n → Staffed (run_nodes P n ids)
  unfolding run_nodes
  run_nodes-Staffed n [] s = s
  run_nodes-Staffed n (id ∷ ids) s = elim (Option-cases (lookup id n.nodes)) [
    | inl missing ↦ rw (missing, run_nodes) (run_nodes-Staffed n ids s)
    | inr (node, found) ↦
        let node' = tick P node in
        let ticked = record n { nodes = insert id node' n.nodes } in
        let writes = WritesTo-tick node (All-lookup (λ p. WritesTo p.1) id n.nodes s.1 found) in
        rw (found, run_nodes)
          (run_nodes-Staffed (enqueue_all P ticked node'.outbox) ids
            (Staffed-replace n ticked id node' refl refl writes s))
  ]

  pub step-Staffed : (n : Network P) → Staffed n → Staffed (step P n)
  unfolding step
  step-Staffed n (present, each, addressed) =
      let started = record n { tick = u64 (n.tick + 1); in_flight = [] } in
      let served = deliver_due-Staffed started n.in_flight addressed (present, each, tt) in
      run_nodes-Staffed (deliver_due P started n.in_flight) _ served
