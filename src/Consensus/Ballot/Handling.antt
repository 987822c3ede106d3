-- ===== src/Consensus/Ballot/Handling.antt =====
-- The handlers of internal/consensus and its clock as moves of the abstract machine.
use crossfault.Prelude.{
  ℕ, ◌+◌, ◌≡◌, ◌⊎◌, refl, ◌∙◌, Bool, false, List, [], ◌∷◌, Bytes, NodeId, no_node, NodeId-Key,
  arith,
}
use crossfault.Platform.{Platform}
use crossfault.Messages.{AppendReq, AppendResp, VoteReq, VoteResp, ProbeReq}
use crossfault.Consensus.State.{
  Node, candidate, leader, log_event, reset_election_timer, members_of,
}
use crossfault.Consensus.Node.{
  send, become_follower, become_leader, start_campaign, promote_to_candidate, track_peer,
  track_peers, clear_heard,
}
use crossfault.Consensus.Node.Handlers.{
  follow, follow_commit, take_entries, advance_commit, cast_vote, grants_vote, handle_append_req,
  handle_append_resp, handle_vote_req, handle_vote_resp, handle_probe_req,
}
use crossfault.Consensus.Node.Quiet.{
  Kept, send-Kept, broadcast_append-Kept, broadcast_vote_req-Kept,
}
use crossfault.Consensus.Ballot.{MoveRule, HasRoom}

module _ (P : Platform) where
  abbrev pub Same : Node P → Node P → Type 0
  Same n n' = (n'.role ≡ n.role) × (n'.current_term ≡ n.current_term) × (n'.voted_for ≡ n.voted_for)

  pub Kept-Same : (n n' : Node P) → Kept P n n' → Same n n'
  Kept-Same n n' k = (k.role, k.current_term, k.voted_for)

  send-Same :
      (n : Node P) (to : NodeId) (kind : ℕ) (payload : Bytes) → Same n (send P n to kind payload)
  send-Same n to kind payload = Kept-Same n _ (send-Kept P n to kind payload)

  take_entries-Same :
      (n : Node P) (from : NodeId) (m : AppendReq) → Same n (take_entries P n from m)
  unfolding take_entries follow_commit
  take_entries-Same n from m = grind (arith, send-Same)

  pub handle_append_req-MoveRule :
      (n : Node P) (from : NodeId) (m : AppendReq) → MoveRule P n (handle_append_req P n from m)
  unfolding handle_append_req follow become_follower reset_election_timer
  handle_append_req-MoveRule n from m = grind (arith, send-Same, take_entries-Same)

  advance_commit-Same : (n : Node P) → Same n (advance_commit P n)
  unfolding advance_commit log_event
  advance_commit-Same n = ground arith

  pub handle_append_resp-MoveRule :
      (n : Node P) (from : NodeId) (m : AppendResp) → MoveRule P n (handle_append_resp P n from m)
  unfolding handle_append_resp become_follower reset_election_timer
  handle_append_resp-MoveRule n from m = grind (arith, advance_commit-Same)

  cast_vote-MoveRule :
      (n : Node P) (from : NodeId) (m : VoteReq)
      → ((cast_vote P n from m).role ≡ n.role)
        × ((cast_vote P n from m).current_term ≡ n.current_term)
        × (((cast_vote P n from m).voted_for ≡ n.voted_for) ⊎ (n.voted_for ≡ no_node))
  unfolding cast_vote reset_election_timer grants_vote
  cast_vote-MoveRule n from m = grind (arith, send-Same)

  pub handle_vote_req-MoveRule :
      (n : Node P) (from : NodeId) (m : VoteReq) → MoveRule P n (handle_vote_req P n from m)
  unfolding handle_vote_req become_follower reset_election_timer
  handle_vote_req-MoveRule n from m = grind (arith, send-Same, cast_vote-MoveRule)

  pub start_campaign-Runs :
      (n : Node P) (after : Bool)
      → HasRoom P n
      → ((start_campaign P n after).role ≡ candidate)
        × ((start_campaign P n after).current_term ≡ n.current_term + 1)
        × ((start_campaign P n after).voted_for ≡ n.id)
  unfolding start_campaign log_event reset_election_timer
  start_campaign-Runs n after room =
      let k = broadcast_vote_req-Kept P _ false in
      (k.role, k.current_term ∙ omega arith, k.voted_for)

  track_peers-Same : (n : Node P) (ms : List NodeId) → Same n (track_peers P n ms)
  unfolding track_peers track_peer
  track_peers-Same n [] = (refl, refl, refl)
  track_peers-Same n (m ∷ ms) = grind (arith, track_peers-Same (track_peer P n m) ms)

  pub become_leader-Wins :
      (n : Node P)
      → ((become_leader P n).role ≡ leader)
        × ((become_leader P n).current_term ≡ n.current_term)
        × ((become_leader P n).voted_for ≡ n.voted_for)
  unfolding become_leader log_event clear_heard
  become_leader-Wins n =
      let crowned =
        clear_heard P (record n { role = leader; leader_id = n.id; heartbeat_elapsed = 0 }) in
      let (r, t, v) = track_peers-Same crowned (members_of P crowned) in
      let k = broadcast_append-Kept P _ in (k.role ∙ r, k.current_term ∙ t, k.voted_for ∙ v)

  pub handle_vote_resp-MoveRule :
      (n : Node P) (from : NodeId) (m : VoteResp)
      → HasRoom P n
      → MoveRule P n (handle_vote_resp P n from m)
  unfolding handle_vote_resp become_follower reset_election_timer promote_to_candidate
  handle_vote_resp-MoveRule n from m room = grind (arith, become_leader-Wins, start_campaign-Runs)

  pub handle_probe_req-Same :
      (n : Node P) (from : NodeId) (m : ProbeReq) → Same n (handle_probe_req P n from m)
  unfolding handle_probe_req
  handle_probe_req-Same n from m = Kept-Same _ _ (send-Kept P _ from _ _)
