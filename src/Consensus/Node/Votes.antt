-- ===== src/Consensus/Node/Votes.antt =====
-- Votes and the election guard of internal/consensus: what a request for a vote may change, when a
-- candidate becomes leader, when a node stands down, and how a vote is forgotten within its term.
use crossfault.Prelude.{
  ◌↔◌, ℕ, ◌<◌, ◌≤◌, ◌≡◌, ◌≢◌, ◌⊎◌, refl, ◌∙◌, Bool, true, false, List, [], ◌∷◌, Bytes, NodeId,
  no_node, NodeId-Key, insert, length, Bool-cases, inl, inr, arith, if◌then◌else◌,
}
use crossfault.Platform.{Platform}
use crossfault.Messages.{AppendReq, VoteReq, VoteResp}
use crossfault.Consensus.Log.{up_to_date}
use crossfault.Consensus.State.{
  Node, baseline, follower, candidate, leader, log_event, reset_election_timer, quorum,
}
use crossfault.Consensus.Node.{
  become_leader, become_follower, start_campaign, promote_to_candidate, track_peer, track_peers,
  clear_heard, has_heard_from_quorum,
}
use crossfault.Consensus.Node.Handlers.{
  follow, follow_commit, grants_vote, handle_append_req, cast_vote, handle_vote_req,
  handle_vote_resp, take_entries,
}
use crossfault.Consensus.Node.Tick.{check_quorum}
use crossfault.Consensus.Node.Quiet.{
  broadcast_append-Kept, quiet, quiet-send, send-Kept, broadcast_vote_req-Kept,
}

module _ (P : Platform) where
  -- The term and the vote before and after a request for a vote.
  abbrev pub VoteRule : Node P → VoteReq → Node P → Type 0
  VoteRule n m n' =
      ((n'.current_term ≡ n.current_term) × (n'.voted_for ≡ n.voted_for))
      ⊎ (((n.current_term < m.term) × (n'.current_term ≡ m.term) × (n'.voted_for ≡ no_node))
          ⊎ ((n'.current_term ≡ m.term)
              × (n'.voted_for ≡ m.candidate)
              × (up_to_date n.log m.last_term m.last_index ≡ true)
              × ((n.current_term < m.term)
                  ⊎ ((n.current_term ≡ m.term)
                      × ((n.voted_for ≡ no_node) ⊎ (n.voted_for ≡ m.candidate))))))

  granted_lem :
      (n : Node P) (m : VoteReq)
      → grants_vote P n m ≡ true
      → (m.term ≡ n.current_term)
        × ((n.voted_for ≡ no_node) ⊎ (n.voted_for ≡ m.candidate))
        × (up_to_date n.log m.last_term m.last_index ≡ true)
  unfolding grants_vote
  granted_lem n m h = ground arith

  cast_vote_lem :
      (n : Node P) (from : NodeId) (m : VoteReq)
      → ((cast_vote P n from m).current_term ≡ n.current_term)
        × ((cast_vote P n from m).voted_for
            ≡ (if grants_vote P n m then m.candidate else n.voted_for))
  unfolding cast_vote reset_election_timer
  cast_vote_lem n from m = grind (
    arith,
    λ (x : Node P) (k : ℕ) (b : Bytes). (send-Kept P x from k b).current_term,
    λ (x : Node P) (k : ℕ) (b : Bytes). (send-Kept P x from k b).voted_for,
  )

  poll-Kept :
      (n : Node P) (from : NodeId) (m : VoteReq)
      → m.pre_vote ≡ true
      → ((handle_vote_req P n from m).current_term ≡ n.current_term)
        × ((handle_vote_req P n from m).voted_for ≡ n.voted_for)
  unfolding handle_vote_req
  poll-Kept n from m poll = grind (
    arith,
    λ (k : ℕ) (b : Bytes). (send-Kept P n from k b).current_term,
    λ (k : ℕ) (b : Bytes). (send-Kept P n from k b).voted_for,
  )

  -- A request for a vote leaves term and vote as they were; or takes the node to the request's newer
  -- term without a vote; or leaves it in the request's term with a vote for the candidate, whose log
  -- is then up to date, and the node was in an older term or had cast no other vote in this one.
  pub handle_vote_req-VoteRule :
      (n : Node P) (from : NodeId) (m : VoteReq) → VoteRule n m (handle_vote_req P n from m)
  unfolding handle_vote_req become_follower reset_election_timer
  handle_vote_req-VoteRule n from m = elim (Bool-cases m.pre_vote) [
    | inl poll ↦ inl (poll-Kept n from m poll)
    | inr real ↦
        let now = become_follower P n m.term no_node in
        ground (
          arith,
          cast_vote_lem n from m,
          cast_vote_lem now from m,
          granted_lem n m,
          granted_lem now m,
        )
  ]

  quiet_then : (b : Bool) (x y : Node P) → b ≡ true → quiet P (if b then x else y) ≡ quiet P x
  quiet_then true x y h = refl
  quiet_then false x y h = absurd (cc)

  -- A pre-vote request changes nothing in the node that is asked but its outbox, its outgoing
  -- transcripts and its next indices.
  pre_vote-quiet :
      (n : Node P) (from : NodeId) (m : VoteReq)
      → m.pre_vote ≡ true
      → quiet P (handle_vote_req P n from m) ≡ quiet P n
  unfolding handle_vote_req
  pre_vote-quiet n from m poll = quiet_then m.pre_vote _ _ poll ∙ quiet-send P n from _ _

  -- A node that has cast a vote still has it after any request for a vote that leaves its term alone.
  pub handle_vote_req_once :
      (n : Node P) (from : NodeId) (m : VoteReq)
      → n.voted_for ≢ no_node
      → (handle_vote_req P n from m).current_term ≡ n.current_term
      → (handle_vote_req P n from m).voted_for ≡ n.voted_for
  handle_vote_req_once n from m voted same_term = ground (arith, handle_vote_req-VoteRule n from m)

  track_peers-role : (n : Node P) (ms : List NodeId) → (track_peers P n ms).role ≡ n.role
  unfolding track_peers track_peer
  track_peers-role n [] = refl
  track_peers-role n (m ∷ ms) = grind (arith, track_peers-role (track_peer P n m) ms)

  start_campaign-role : (n : Node P) (after : Bool) → (start_campaign P n after).role ≡ candidate
  unfolding start_campaign log_event reset_election_timer
  start_campaign-role n after = (broadcast_vote_req-Kept P _ false).role

  become_leader-role : (n : Node P) → (become_leader P n).role ≡ leader
  unfolding become_leader log_event clear_heard
  become_leader-role n = (broadcast_append-Kept P _).role ∙ track_peers-role _ _

  -- A node that is not the leader becomes it on the answer to a request for a vote exactly if it is a
  -- candidate, the answer grants it a real vote in its own term, and the votes of distinct peers
  -- that it then has, its own among them, reach a majority of the roster.
  pub handle_vote_resp-leader :
      (n : Node P) (from : NodeId) (m : VoteResp)
      → n.role ≢ leader
      → ((handle_vote_resp P n from m).role ≡ leader) ↔ (
          (n.role ≡ candidate)
          × (m.pre_vote ≡ false)
          × (m.term ≡ n.current_term)
          × (m.granted ≡ true)
          × (quorum P n ≤ length (insert from true n.votes)))
  unfolding handle_vote_resp become_follower reset_election_timer promote_to_candidate quorum
  handle_vote_resp-leader n from m not_yet =
      let polled =
        start_campaign-role (record n { pre_votes = insert from true n.pre_votes }) true in
      let won = become_leader-role (record n { votes = insert from true n.votes }) in
      (λ now. ground (arith, polled), λ conditions. ground (arith, won))

  -- When the quorum check falls due outside baseline mode and no majority was heard, the node keeps its
  -- term and forgets its vote: a request for a real vote in that same term, from any candidate whose
  -- log is up to date, then gets it.
  pub step_down_votes_again :
      (n : Node P) (from : NodeId) (m : VoteReq)
      → n.mode ≢ baseline
      → n.election_timeout ≤ n.election_elapsed
      → has_heard_from_quorum P (record n { election_elapsed = 0 }) ≡ false
      → m.pre_vote ≡ false
      → m.term ≡ n.current_term
      → up_to_date n.log m.last_term m.last_index ≡ true
      → let down = check_quorum P n in
        (down.current_term ≡ n.current_term)
        × ((handle_vote_req P down from m).current_term ≡ n.current_term)
        × ((handle_vote_req P down from m).voted_for ≡ m.candidate)
  unfolding check_quorum handle_vote_req become_follower clear_heard log_event reset_election_timer
      grants_vote
  step_down_votes_again n from m guarded late unheard real one_term current =
      let down = check_quorum P n in ground (arith, cast_vote_lem down from m)

  handle_append_req-voted_for :
      (n : Node P) (from : NodeId) (m : AppendReq)
      → n.role ≢ follower
      → m.term ≡ n.current_term
      → ((handle_append_req P n from m).current_term ≡ n.current_term)
        × ((handle_append_req P n from m).voted_for ≡ no_node)
  unfolding handle_append_req follow become_follower reset_election_timer take_entries follow_commit
  handle_append_req-voted_for n from m running one_term = grind (
    arith,
    λ (x : Node P) (k : ℕ) (b : Bytes). (send-Kept P x from k b).current_term,
    λ (x : Node P) (k : ℕ) (b : Bytes). (send-Kept P x from k b).voted_for,
  )

  -- A node that is not a follower, such as a pre-candidate that has voted for another, forgets its vote
  -- when it handles a request to append in its own term: a request for a real vote in that same term,
  -- from any candidate whose log is then up to date, gets it.
  pub append_req_votes_again :
      (n : Node P) (from other : NodeId) (m : AppendReq) (r : VoteReq)
      → n.role ≢ follower
      → m.term ≡ n.current_term
      → r.pre_vote ≡ false
      → r.term ≡ n.current_term
      → up_to_date (handle_append_req P n from m).log r.last_term r.last_index ≡ true
      → let after = handle_vote_req P (handle_append_req P n from m) other r in
        (after.current_term ≡ n.current_term) × (after.voted_for ≡ r.candidate)
  unfolding handle_vote_req grants_vote
  append_req_votes_again n from other m r running one_term real same_term current =
      let heard = handle_append_req P n from m in
      ground (arith, handle_append_req-voted_for n from m, cast_vote_lem heard other r)
