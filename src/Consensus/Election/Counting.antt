-- ===== src/Consensus/Election/Counting.antt =====
-- How a node of internal/consensus/handlers.go counts the answers of willing peers, in a straw poll and in a
-- campaign.
use crossfault.Codec.{decode_vote_resp, encode_vote_resp}
use crossfault.Prelude.{
  ◌+◌, ◌<◌, ◌≤◌, ◌≡◌, refl, ap, sym, ◌∙◌, Bool, true, false, some, List, [], ◌∷◌, NodeId,
  NodeId-Key, insert, length, length-insert_new, leb, u64, All, Bool-cases, inl, inr, arith,
  if◌then◌else◌,
}
use crossfault.Platform.{Platform}
use crossfault.Messages.{VoteReq, VoteResp}
use crossfault.Consensus.State.{
  Node, pre_candidate, candidate, leader, log_event, reset_election_timer, quorum,
}
use crossfault.Consensus.Node.{start_campaign, become_leader, promote_to_candidate}
use crossfault.Consensus.Node.Handlers.{handle_vote_resp}
use crossfault.Consensus.Node.Quiet.{broadcast_vote_req-Kept}
use crossfault.Consensus.Ballot.Handling.{become_leader-Wins}
use crossfault.Consensus.Election.{asked, answer_of, canvass, Willing, NewVoices}
use crossfault.Consensus.Election.Answers.{poll-answer, vote-answer}

module _ (P : Platform) where
  -- What a campaign starts from.
  abbrev pub Running : Node P → Node P → Type 0
  Running n n' =
      (n'.role ≡ candidate)
      × (n'.current_term ≡ u64 (n.current_term + 1))
      × (n'.log ≡ n.log)
      × (n'.settings ≡ n.settings)
      × (n'.view ≡ n.view)
      × (n'.votes ≡ (n.id, true) ∷ [])

  start_campaign-Running : (n : Node P) (after : Bool) → Running n (start_campaign P n after)
  unfolding start_campaign log_event reset_election_timer
  start_campaign-Running n after =
      let k = broadcast_vote_req-Kept P _ false in
      (k.role, k.current_term, k.log, k.settings, k.view, k.votes)

  poll_round :
      (n : Node P) (from : NodeId) (a : VoteResp)
      → n.role ≡ pre_candidate
      → a.pre_vote ≡ true
      → a.granted ≡ true
      → let counted = record n { pre_votes = insert from true n.pre_votes } in
        handle_vote_resp P n from a ≡ (
          if leb (quorum P n) (length counted.pre_votes)
          then start_campaign P counted true
          else counted)
  unfolding handle_vote_resp promote_to_candidate quorum
  poll_round n from a polls poll granted = ground arith

  poll_over :
      (n : Node P) (from : NodeId) (a : VoteResp)
      → n.role ≡ candidate
      → a.pre_vote ≡ true
      → handle_vote_resp P n from a ≡ n
  unfolding handle_vote_resp
  poll_over n from a runs poll = ground arith

  vote_round :
      (n : Node P) (from : NodeId) (a : VoteResp)
      → n.role ≡ candidate
      → a.pre_vote ≡ false
      → a.granted ≡ true
      → a.term ≡ n.current_term
      → let counted = record n { votes = insert from true n.votes } in
        handle_vote_resp P n from a
        ≡ (if leb (quorum P n) (length counted.votes) then become_leader P counted else counted)
  unfolding handle_vote_resp quorum
  vote_round n from a runs real granted one_term = ground arith

  vote_over :
      (n : Node P) (from : NodeId) (a : VoteResp)
      → n.role ≡ leader
      → a.pre_vote ≡ false
      → a.term ≡ n.current_term
      → handle_vote_resp P n from a ≡ n
  unfolding handle_vote_resp
  vote_over n from a leads real one_term = ground arith

  module _ (json : (m : VoteResp) → decode_vote_resp P (encode_vote_resp P m) ≡ some m) where
    -- One peer of a canvass, by its answer.
    canvass-answered :
        (m : VoteReq) (n : Node P) (p : Node P) (ps : List (Node P)) (a : VoteResp)
        → answer_of P (asked P m p) ≡ some a
        → canvass P m n (p ∷ ps) ≡ canvass P m (handle_vote_resp P n p.id a) ps
    unfolding canvass
    canvass-answered m n p ps a answered = rw answered

    canvass-poll_over :
        (m : VoteReq) (n : Node P) (ps : List (Node P))
        → m.pre_vote ≡ true
        → n.role ≡ candidate
        → All (Willing P m) ps
        → canvass P m n ps ≡ n
    unfolding canvass
    canvass-poll_over m n [] poll runs willing = refl
    canvass-poll_over m n (p ∷ ps) poll runs willing =
        let a : VoteResp = record { term = p.current_term; granted = true; pre_vote = true } in
        canvass-answered m n p ps a (poll-answer P json m p poll willing.0)
        ∙ ap (λ x. canvass P m x ps) (poll_over n p.id a runs refl)
        ∙ canvass-poll_over m n ps poll runs willing.1

    -- A straw poll among enough willing peers starts a campaign.
    pub canvass-Running :
        (m : VoteReq) (n : Node P) (ps : List (Node P))
        → m.pre_vote ≡ true
        → n.role ≡ pre_candidate
        → All (Willing P m) ps
        → NewVoices P n.pre_votes ps
        → length n.pre_votes < quorum P n
        → quorum P n ≤ length n.pre_votes + length ps
        → Running n (canvass P m n ps)
    canvass-Running m n [] poll polls willing new short enough = absurd (omega arith)
    canvass-Running m n (p ∷ ps) poll polls willing new short enough =
        let a : VoteResp = record { term = p.current_term; granted = true; pre_vote = true } in
        let counted = record n { pre_votes = insert p.id true n.pre_votes } in
        let one_more : length counted.pre_votes ≡ length n.pre_votes + 1 =
          length-insert_new p.id true n.pre_votes new.0 in
        let round = poll_round n p.id a polls refl refl in
        rw (canvass-answered m n p ps a (poll-answer P json m p poll willing.0))
          (elim (Bool-cases (leb (quorum P n) (length counted.pre_votes))) [
            | inl carried ↦
                let started = start_campaign-Running counted true in
                rw
                  (
                    round,
                    carried,
                    canvass-poll_over m (start_campaign P counted true) ps poll started.0 willing.1,
                  )
                  started
            | inr short_of ↦
                rw (round, short_of)
                  (canvass-Running m counted ps poll polls willing.1 new.1
                    (unfold quorum in ground arith) (unfold quorum in omega (arith, one_more)))
          ])

    canvass-vote_over :
        (m : VoteReq) (n : Node P) (ps : List (Node P))
        → m.pre_vote ≡ false
        → m.term ≡ n.current_term
        → n.role ≡ leader
        → All (Willing P m) ps
        → canvass P m n ps ≡ n
    unfolding canvass
    canvass-vote_over m n [] real one_term leads willing = refl
    canvass-vote_over m n (p ∷ ps) real one_term leads willing =
        let a : VoteResp = record { term = m.term; granted = true; pre_vote = false } in
        canvass-answered m n p ps a (vote-answer P json m p real willing.0)
        ∙ ap (λ x. canvass P m x ps) (vote_over n p.id a leads refl one_term)
        ∙ canvass-vote_over m n ps real one_term leads willing.1

    -- A campaign among enough willing peers makes a leader of the campaign's term.
    pub canvass-leader :
        (m : VoteReq) (n : Node P) (ps : List (Node P))
        → m.pre_vote ≡ false
        → m.term ≡ n.current_term
        → n.role ≡ candidate
        → All (Willing P m) ps
        → NewVoices P n.votes ps
        → length n.votes < quorum P n
        → quorum P n ≤ length n.votes + length ps
        → ((canvass P m n ps).role ≡ leader) × ((canvass P m n ps).current_term ≡ n.current_term)
    canvass-leader m n [] real one_term runs willing new short enough = absurd (omega arith)
    canvass-leader m n (p ∷ ps) real one_term runs willing new short enough =
        let a : VoteResp = record { term = m.term; granted = true; pre_vote = false } in
        let counted = record n { votes = insert p.id true n.votes } in
        let one_more : length counted.votes ≡ length n.votes + 1 =
          length-insert_new p.id true n.votes new.0 in
        let round = vote_round n p.id a runs refl refl one_term in
        rw (canvass-answered m n p ps a (vote-answer P json m p real willing.0))
          (elim (Bool-cases (leb (quorum P n) (length counted.votes))) [
            | inl carried ↦
                let (leads, term, vote) = become_leader-Wins P counted in
                rw
                  (
                    round,
                    carried,
                    canvass-vote_over m (become_leader P counted) ps real (one_term ∙ sym term)
                        leads willing.1,
                  )
                  (leads, term)
            | inr short_of ↦
                rw (round, short_of)
                  (canvass-leader m counted ps real one_term runs willing.1 new.1
                    (unfold quorum in ground arith) (unfold quorum in omega (arith, one_more)))
          ])
