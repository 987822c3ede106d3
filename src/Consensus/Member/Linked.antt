-- ===== src/Consensus/Member/Linked.antt =====
-- The outgoing transcripts of internal/consensus/node.go: a replica never loses one.
use crossfault.Prelude.{
  ℕ, ◌≡◌, ◌≢◌, ap, ◌∙◌, true, some, List, [], ◌∷◌, Bytes, NodeId, NodeId-Key, bytes_discrete, Map,
  lookup, lookup-insert, insert, same, same→eq, contains, Bool-cases, Option-cases, inl, inr, ◌⊎◌,
  arith,
}
use crossfault.Platform.{Platform}
use crossfault.Crypt.Envelope.{Envelope}
use crossfault.Crypt.Transcript.{Transcript, next, new_transcript}
use crossfault.Consensus.State.{
  Node, Config, add_peer, add_peers, blank_node, new_node, reset_election_timer,
}
use crossfault.Consensus.Node.{send, draft}
use crossfault.Consensus.Node.Deliver.{deliver, propose}
use crossfault.Consensus.Node.Tick.{tick}
use crossfault.Consensus.Node.Sending.Stepping.{deliver-any, tick-any, propose-any}

module _ (P : Platform) where
  abbrev pub HasLine : Node P → NodeId → Type 0
  HasLine n m = (tr : Transcript) × (lookup m n.send_tr ≡ some tr)

  -- A new transcript takes no other away.
  lookup-insert_any :
      (to m : NodeId) (tr : Transcript) (lines : Map NodeId Transcript)
      → ((old : Transcript) × (lookup m lines ≡ some old))
      → (new : Transcript) × (lookup m (insert to tr lines) ≡ some new)
  lookup-insert_any to m tr lines (old, found) = elim (bytes_discrete to m) [
    | yes p ↦ (tr, ground (arith, lookup-insert to m tr lines))
    | no p ↦ (old, ground (arith, lookup-insert to m tr lines))
  ]

  pub HasLine-send :
      (n : Node P) (to : NodeId) (kind : ℕ) (payload : Bytes) (m : NodeId)
      → HasLine n m
      → HasLine (send P n to kind payload) m
  unfolding send
  HasLine-send n to kind payload m line = elim (Option-cases (lookup to n.send_tr)) [
    | inl missing ↦ rw (missing, send) line
    | inr (tr, found) ↦
        let step = next P tr n.ident (draft P to kind n.current_term payload) in
        rw (found, send) (lookup-insert_any to m step.0 n.send_tr line)
  ]

  -- A transcript to every member but the node itself.
  abbrev pub Linked : List NodeId → NodeId → Node P → Type 0
  Linked members id n = (m : NodeId) → contains members m ≡ true → m ≢ id → HasLine n m

  module _ (members : List NodeId) (id : NodeId) where
    Linked-send :
        (n : Node P) (to : NodeId) (kind : ℕ) (payload : Bytes)
        → Linked members id n
        → Linked members id (send P n to kind payload)
    Linked-send n to kind payload linked m member other =
        HasLine-send n to kind payload m (linked m member other)

    Linked-fields :
        (n n' : Node P)
        → n'.send_tr ≡ n.send_tr
        → n'.outbox ≡ n.outbox
        → Linked members id n
        → Linked members id n'
    Linked-fields n n' tr out linked m member other =
        let (t, found) = linked m member other in (t, ap (lookup m) tr ∙ found)

    pub deliver-Linked :
        (n : Node P) (env : Envelope) → Linked members id n → Linked members id (deliver P n env)
    deliver-Linked n env linked =
        deliver-any P (Linked members id) Linked-send Linked-fields n env linked

    pub tick-Linked : (n : Node P) → Linked members id n → Linked members id (tick P n)
    tick-Linked n linked = tick-any P (Linked members id) Linked-send Linked-fields n linked

    pub propose-Linked :
        (n n' : Node P) (cmd : Bytes)
        → propose P n cmd ≡ some n'
        → Linked members id n
        → Linked members id n'
    propose-Linked n n' cmd done linked =
        propose-any P (Linked members id) Linked-send Linked-fields n cmd done linked

  add_peer-HasLine :
      (n : Node P) (x m : NodeId)
      → ((x ≡ m) × (m ≢ n.id)) ⊎ HasLine n m
      → HasLine (add_peer P n x) m
  unfolding add_peer
  add_peer-HasLine n x m either = elim (Bool-cases (same x n.id)) [
    | inl itself ↦
        rw (itself, add_peer)
          (elim either [ inl (here, other) ↦ absurd (ground arith) | inr old ↦ old ])
    | inr peer ↦
        rw (peer, add_peer)
          (elim either [
            | inl (here, other) ↦
                (new_transcript x, ground (arith, lookup-insert x m (new_transcript x) n.send_tr))
            | inr old ↦ lookup-insert_any x m (new_transcript x) n.send_tr old
          ])
  ]

  add_peers-HasLine :
      (n : Node P) (ms : List NodeId) (m : NodeId)
      → m ≢ n.id
      → (contains ms m ≡ true) ⊎ HasLine n m
      → HasLine (add_peers P n ms) m
  unfolding add_peers contains
  add_peers-HasLine n [] m other (inl member) = absurd (ground arith)
  add_peers-HasLine n [] m other (inr old) = old
  add_peers-HasLine n (x ∷ ms) m other either =
      let same_id : (add_peer P n x).id ≡ n.id = unfold add_peer in ground arith in
      add_peers-HasLine (add_peer P n x) ms m (rw same_id other) (elim (bytes_discrete x m) [
        | yes here ↦ inr (add_peer-HasLine n x m (inl (here, other)))
        | no there ↦ elim either [
          | inl member ↦ inl (ground (arith, same→eq x m))
          | inr old ↦ inr (add_peer-HasLine n x m (inr old))
        ]
      ])

  pub new_node-Linked : (c : Config) → Linked c.members c.id (new_node P c)
  unfolding new_node blank_node reset_election_timer
  new_node-Linked c m member other =
      add_peers-HasLine (blank_node P c) c.members m other (inl member)
