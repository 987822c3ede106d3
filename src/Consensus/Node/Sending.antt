-- ===== src/Consensus/Node/Sending.antt =====
-- What a property of the outgoing transcripts and the outbox of a replica of internal/consensus needs to
-- hold for ever: that `send` keeps it.
pub mod Stepping
use crossfault.Prelude.{
  ℕ, ◌+◌, ◌-◌, ◌≡◌, refl, ◌∙◌, Bool, true, false, not, ◌&&◌, ◌||◌, ◌==◌, if◌then◌else◌, none, some,
  List, [], ◌∷◌, Bytes, NodeId, no_node, NodeId-Key, insert, get_or, same, length, leb, ltb, arith,
}
use crossfault.Platform.{Platform}
use crossfault.Messages.{AppendReq, AppendResp, VoteReq, VoteResp, ProbeReq}
use crossfault.Crypt.Identity.{Error}
use crossfault.Crypt.Envelope.{Envelope}
use crossfault.Consensus.Log.{matches}
use crossfault.Consensus.State.{
  Node, Role, follower, pre_candidate, candidate, leader, log_event, reset_election_timer,
  members_of, quorum,
}
use crossfault.Consensus.Node.{
  send, next_for, remember_next, append_req_for, append_to, append_to_all, broadcast_append,
  vote_req_to, vote_req_to_all, broadcast_vote_req, probe_to, probe_to_all, broadcast_probe,
  become_follower, become_leader, start_campaign, promote_to_candidate, track_peer, track_peers,
  clear_heard,
}
use crossfault.Consensus.Node.Handlers.{
  follow, follow_commit, take_entries, advance_commit, cast_vote, grants_vote, handle_append_req,
  handle_append_resp, handle_vote_req, handle_vote_resp, handle_probe_req, handle_probe_resp,
}
use crossfault.Consensus.Node.Deliver.{refused, note_heard, dispatch, deliver, propose}
use crossfault.Consensus.Node.Dispatching.{if_any, dispatch_any, deliver_any}
use crossfault.Consensus.Node.Tick.{
  is_baseline, is_cross_fault, mark_silent, watch_peer, watch_peers, detect_silence, decline,
  straw_poll, begin_election, heartbeat, check_quorum, tick_role, tick_probe, advance_clock, tick,
}

module _ (P : Platform) (Q : Node P → Type 0)
    (on_send : (n : Node P) (to : NodeId) (kind : ℕ) (payload : Bytes)
      → Q n
      → Q (send P n to kind payload))
    (on_fields : (n n' : Node P) → n'.send_tr ≡ n.send_tr → n'.outbox ≡ n.outbox → Q n → Q n') where
  pub remember_next-any : (n : Node P) (m : NodeId) (k : ℕ) → Q n → Q (remember_next P n m k)
  unfolding remember_next
  remember_next-any n m k q =
      if_any P Q (get_or m 0 n.next_index == 0) (on_fields n _ refl refl q) q

  pub append_to-any : (n : Node P) (m : NodeId) → Q n → Q (append_to P n m)
  unfolding append_to
  append_to-any n m q =
      let ready = remember_next P n m (next_for P n m) in
      if_any P Q (same m n.id) q (on_send ready m _ _ (remember_next-any n m (next_for P n m) q))

  pub append_to_all-any : (n : Node P) (ms : List NodeId) → Q n → Q (append_to_all P n ms)
  unfolding append_to_all
  append_to_all-any n [] q = q
  append_to_all-any n (m ∷ ms) q = append_to_all-any (append_to P n m) ms (append_to-any n m q)

  pub broadcast_append-any : (n : Node P) → Q n → Q (broadcast_append P n)
  unfolding broadcast_append
  broadcast_append-any n q = append_to_all-any n (members_of P n) q

  vote_req_to_all-any :
      (n : Node P) (pre : Bool) (ms : List NodeId) → Q n → Q (vote_req_to_all P n pre ms)
  unfolding vote_req_to_all vote_req_to
  vote_req_to_all-any n pre [] q = q
  vote_req_to_all-any n pre (m ∷ ms) q =
      vote_req_to_all-any (vote_req_to P n pre m) pre ms
        (if_any P Q (same m n.id) q (on_send n m _ _ q))

  pub broadcast_vote_req-any : (n : Node P) (pre : Bool) → Q n → Q (broadcast_vote_req P n pre)
  unfolding broadcast_vote_req
  broadcast_vote_req-any n pre q = vote_req_to_all-any n pre (members_of P n) q

  probe_to_all-any : (n : Node P) (up ms : List NodeId) → Q n → Q (probe_to_all P n up ms)
  unfolding probe_to_all probe_to
  probe_to_all-any n up [] q = q
  probe_to_all-any n up (m ∷ ms) q =
      probe_to_all-any (probe_to P n up m) up ms (if_any P Q (same m n.id) q (on_send n m _ _ q))

  pub broadcast_probe-any : (n : Node P) → Q n → Q (broadcast_probe P n)
  unfolding broadcast_probe
  broadcast_probe-any n q = probe_to_all-any n _ (members_of P n) q

  follow_commit-any : (n : Node P) (c : ℕ) → Q n → Q (follow_commit P n c)
  unfolding follow_commit
  follow_commit-any n c q = on_fields n (follow_commit P n c) (ground arith) (ground arith) q

  follow-any : (n : Node P) (from : NodeId) (m : AppendReq) → Q n → Q (follow P n from m)
  unfolding follow become_follower reset_election_timer
  follow-any n from m q = on_fields n (follow P n from m) (ground arith) (ground arith) q

  take_entries-any :
      (n : Node P) (from : NodeId) (m : AppendReq) → Q n → Q (take_entries P n from m)
  unfolding take_entries
  take_entries-any n from m q =
      on_send _ from _ _ (follow_commit-any _ m.leader_commit (on_fields n _ refl refl q))

  pub handle_append_req-any :
      (n : Node P) (from : NodeId) (m : AppendReq) → Q n → Q (handle_append_req P n from m)
  unfolding handle_append_req
  handle_append_req-any n from m q =
      let following = follow P n from m in
      let q' = follow-any n from m q in
      if_any P Q (ltb m.term n.current_term) (on_send n from _ _ q) (
        if_any P Q (matches following.log m.prev_index m.prev_term)
          (take_entries-any following from m q') (on_send following from _ _ q'))

  advance_commit-any : (n : Node P) → Q n → Q (advance_commit P n)
  unfolding advance_commit log_event
  advance_commit-any n q = on_fields n (advance_commit P n) (ground arith) (ground arith) q

  pub handle_append_resp-any :
      (n : Node P) (from : NodeId) (m : AppendResp) → Q n → Q (handle_append_resp P n from m)
  unfolding handle_append_resp become_follower reset_election_timer advance_commit log_event
  handle_append_resp-any n from m q =
      on_fields n (handle_append_resp P n from m) (ground arith) (ground arith) q

  cast_vote-any : (n : Node P) (from : NodeId) (m : VoteReq) → Q n → Q (cast_vote P n from m)
  unfolding cast_vote reset_election_timer
  cast_vote-any n from m q =
      on_send _ from _ _ (if_any P Q (grants_vote P n m) (on_fields n _ refl refl q) q)

  pub handle_vote_req-any :
      (n : Node P) (from : NodeId) (m : VoteReq) → Q n → Q (handle_vote_req P n from m)
  unfolding handle_vote_req become_follower reset_election_timer
  handle_vote_req-any n from m q = if_any P Q m.pre_vote (on_send n from _ _ q) (
      cast_vote-any _ from m (if_any P Q (ltb n.current_term m.term) (on_fields n _ refl refl q) q))

  pub start_campaign-any : (n : Node P) (after : Bool) → Q n → Q (start_campaign P n after)
  unfolding start_campaign log_event reset_election_timer
  start_campaign-any n after q = broadcast_vote_req-any _ false (on_fields n _ refl refl q)

  track_peers-any : (n : Node P) (ms : List NodeId) → Q n → Q (track_peers P n ms)
  unfolding track_peers track_peer
  track_peers-any n [] q = q
  track_peers-any n (m ∷ ms) q =
      track_peers-any (track_peer P n m) ms (if_any P Q (same m n.id) q (on_fields n _ refl refl q))

  pub become_leader-any : (n : Node P) → Q n → Q (become_leader P n)
  unfolding become_leader log_event clear_heard
  become_leader-any n q =
      let crowned =
        clear_heard P (record n { role = leader; leader_id = n.id; heartbeat_elapsed = 0 }) in
      let tracked = track_peers P crowned (members_of P crowned) in
      broadcast_append-any _ (
        on_fields tracked _ refl refl
          (track_peers-any crowned (members_of P crowned) (on_fields n crowned refl refl q)))
