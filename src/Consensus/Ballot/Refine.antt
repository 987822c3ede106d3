-- ===== src/Consensus/Ballot/Refine.antt =====
-- A replica of internal/consensus refines the abstract machine of elections, and what follows from that.
use crossfault.Prelude.{
  ◌≤◌, ◌≡◌, ◌≢◌, ◌⊎◌, refl, sym, ap, ◌∙◌, subst, List, [], ◌∷◌, NodeId, no_node, Option-cases, inl,
  inr, arith,
}
use crossfault.Platform.{Platform}
use crossfault.Consensus.State.{Node, follower, candidate, leader}
use crossfault.Consensus.Node.Deliver.{propose}
use crossfault.Consensus.Node.Fixed.{deliver-settings, tick-settings, propose-settings}
use crossfault.Consensus.Ballot.{
  Ballot, Move, stay, poll, run, win, adopt, yield, cast, MoveRule, HasRoom, Action, message, clock,
  command, ballot, act, acts, Along,
}
use crossfault.Consensus.Ballot.Stepping.{deliver-MoveRule, tick-MoveRule, propose-Same}

-- A candidate or leader has voted for itself.
abbrev pub VotesForItself : NodeId → Ballot → Type 0
VotesForItself me b = ((b.role ≡ candidate) ⊎ (b.role ≡ leader)) → b.vote ≡ me

-- Every move of the abstract machine keeps that, for a node with a name.
Move-VotesForItself :
    (me : NodeId) (b b' : Ballot)
    → me ≢ no_node
    → Move me b b'
    → VotesForItself me b
    → VotesForItself me b'
Move-VotesForItself me b b' named (stay r t v) own runs = ground (arith, own)
Move-VotesForItself me b b' named (poll w r t v) own runs = ground (arith, own)
Move-VotesForItself me b b' named (run w r t v) own runs = v
Move-VotesForItself me b b' named (win w r t v) own runs = ground (arith, own)
Move-VotesForItself me b b' named (adopt t r) own runs = ground (arith, own)
Move-VotesForItself me b b' named (yield w r t v) own runs = ground (arith, own)
Move-VotesForItself me b b' named (cast free r t) own runs = ground (arith, own)

Move-term : (me : NodeId) (b b' : Ballot) → Move me b b' → b.term ≤ b'.term
Move-term me b b' (stay r t v) = omega arith
Move-term me b b' (poll w r t v) = omega arith
Move-term me b b' (run w r t v) = omega arith
Move-term me b b' (win w r t v) = omega arith
Move-term me b b' (adopt t r) = omega arith
Move-term me b b' (yield w r t v) = omega arith
Move-term me b b' (cast free r t) = omega arith

-- A follower keeps its vote as long as it keeps its term.
Move-vote :
    (me : NodeId) (b b' : Ballot)
    → Move me b b'
    → b.role ≡ follower
    → b.vote ≢ no_node
    → b'.term ≡ b.term
    → b'.vote ≡ b.vote
Move-vote me b b' (stay r t v) follows voted one = v
Move-vote me b b' (poll w r t v) follows voted one = v
Move-vote me b b' (run w r t v) follows voted one = absurd (omega arith)
Move-vote me b b' (win w r t v) follows voted one = v
Move-vote me b b' (adopt t r) follows voted one = absurd (omega arith)
Move-vote me b b' (yield w r t v) follows voted one = absurd (w follows)
Move-vote me b b' (cast free r t) follows voted one = absurd (voted free)

module _ (P : Platform) where
  MoveRule-Move : (n n' : Node P) → MoveRule P n n' → Move n.id (ballot P n) (ballot P n')
  MoveRule-Move n n' (inl (r, t, v)) = stay r t v
  MoveRule-Move n n' (inr (inl (w, r, t, v))) = poll w r t v
  MoveRule-Move n n' (inr (inr (inl (w, r, t, v)))) = run w r t v
  MoveRule-Move n n' (inr (inr (inr (inl (w, r, t, v))))) = win w r t v
  MoveRule-Move n n' (inr (inr (inr (inr (inl (t, r)))))) = adopt t r
  MoveRule-Move n n' (inr (inr (inr (inr (inr (inl (w, r, t, v))))))) = yield w r t v
  MoveRule-Move n n' (inr (inr (inr (inr (inr (inr (free, r, t))))))) = cast free r t

  act-MoveRule : (n : Node P) (a : Action) → HasRoom P n → MoveRule P n (act P n a)
  unfolding act
  act-MoveRule n (message env) room = deliver-MoveRule P n env room
  act-MoveRule n clock room = tick-MoveRule P n room
  act-MoveRule n (command cmd) room = elim (Option-cases (propose P n cmd)) [
    | inl no_leader ↦ rw (no_leader, act) (inl (refl, refl, refl))
    | inr (n', done) ↦ rw (done, act) (inl (propose-Same P n n' cmd done))
  ]

  -- Whatever a replica receives, be it an envelope, a tick or a command, its role, term and vote
  -- make one move of the abstract machine, `stay` included, as long as the term after its current
  -- one does not wrap.
  pub act-Move :
      (n : Node P) (a : Action) → HasRoom P n → Move n.id (ballot P n) (ballot P (act P n a))
  act-Move n a room = MoveRule-Move n (act P n a) (act-MoveRule n a room)

  act-id : (n : Node P) (a : Action) → (act P n a).id ≡ n.id
  unfolding act
  act-id n (message env) = ap (λ s. s.id) (deliver-settings P n env)
  act-id n clock = ap (λ s. s.id) (tick-settings P n)
  act-id n (command cmd) = elim (Option-cases (propose P n cmd)) [
    | inl no_leader ↦ rw (no_leader, act) refl
    | inr (n', done) ↦ rw (done, act) (ap (λ s. s.id) (propose-settings P n cmd done))
  ]

  -- A candidate or leader with a name has voted for itself in its term, after any run of envelopes, ticks and commands from a
  -- state in which that holds, as long as no action of the run is taken in the last term before the wrap.
  pub acts-VotesForItself :
      (n : Node P) (run : List Action)
      → n.id ≢ no_node
      → VotesForItself n.id (ballot P n)
      → Along P (HasRoom P) n run
      → VotesForItself n.id (ballot P (acts P n run))
  unfolding acts
  acts-VotesForItself n [] named own room = own
  acts-VotesForItself n (a ∷ rest) named own (room, later) =
      let one_id = act-id n a in
      let own' = Move-VotesForItself n.id _ _ named (act-Move n a room) own in
      let after =
        acts-VotesForItself (act P n a) rest (ground (arith, one_id))
          (subst (λ i. VotesForItself i (ballot P (act P n a))) (sym one_id) own') later in
      subst (λ i. VotesForItself i (ballot P (acts P (act P n a) rest))) one_id after

  acts-term :
      (n : Node P) (run : List Action)
      → Along P (HasRoom P) n run
      → n.current_term ≤ (acts P n run).current_term
  unfolding acts
  acts-term n [] room = omega arith
  acts-term n (a ∷ rest) (room, later) =
      omega (arith, Move-term n.id _ _ (act-Move n a room), acts-term (act P n a) rest later)

  -- A replica that has voted, and that is a follower whenever it acts in a run, ends the run with the same vote if it
  -- ends in the same term. No action of the run is taken in the last term before the wrap.
  pub acts_vote_once :
      (n : Node P) (run : List Action)
      → n.voted_for ≢ no_node
      → Along P (HasRoom P) n run
      → Along P (λ x. x.role ≡ follower) n run
      → (acts P n run).current_term ≡ n.current_term
      → (acts P n run).voted_for ≡ n.voted_for
  unfolding acts
  acts_vote_once n [] voted room follows one_term = refl
  acts_vote_once n (a ∷ rest) voted (room, later) (follows, later') one_term =
      let move = act-Move n a room in
      let up = Move-term n.id _ _ move in
      let up' = acts-term (act P n a) rest later in
      let same_term : (act P n a).current_term ≡ n.current_term = omega arith in
      let kept : (act P n a).voted_for ≡ n.voted_for =
        Move-vote n.id _ _ move follows voted same_term in
      acts_vote_once (act P n a) rest (ground (arith, kept)) later later' (one_term ∙ sym same_term)
      ∙ kept
