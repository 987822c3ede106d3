-- ===== src/Consensus/Node/Fixed.antt =====
-- The settings of a replica of internal/consensus (its name, mode, keys and intervals) never change.
use crossfault.Prelude.{
  ℕ, ◌≡◌, refl, ◌∙◌, Bool, true, false, some, List, [], ◌∷◌, Bytes, NodeId, NodeId-Key, arith,
}
use crossfault.Platform.{Platform}
use crossfault.Messages.{AppendReq, AppendResp, VoteReq, VoteResp, ProbeReq}
use crossfault.Crypt.Identity.{Error}
use crossfault.Crypt.Envelope.{Envelope}
use crossfault.Consensus.Log.{append}
use crossfault.Consensus.State.{
  Node, Role, leader, proposed, log_event, reset_election_timer, members_of,
}
use crossfault.Consensus.Node.{
  send, become_follower, become_leader, start_campaign, promote_to_candidate, track_peer,
  track_peers, clear_heard, broadcast_append, broadcast_probe,
}
use crossfault.Consensus.Node.Handlers.{
  follow, follow_commit, take_entries, advance_commit, cast_vote, handle_append_req,
  handle_append_resp, handle_vote_req, handle_vote_resp, handle_probe_req, handle_probe_resp,
}
use crossfault.Consensus.Node.Deliver.{refused, note_heard, dispatch, deliver, propose}
use crossfault.Consensus.Node.Dispatching.{deliver_any}
use crossfault.Consensus.Node.Tick.{
  mark_silent, watch_peer, watch_peers, detect_silence, decline, straw_poll, begin_election,
  heartbeat, check_quorum, tick_role, tick_probe, advance_clock, tick,
}
use crossfault.Consensus.Node.Quiet.{
  send-Kept, broadcast_append-Kept, broadcast_vote_req-Kept, broadcast_probe-Kept,
}

module _ (P : Platform) where
  send-settings :
      (n : Node P) (to : NodeId) (kind : ℕ) (payload : Bytes)
      → (send P n to kind payload).settings ≡ n.settings
  send-settings n to kind payload = (send-Kept P n to kind payload).settings

  pub follow-settings :
      (n : Node P) (from : NodeId) (m : AppendReq) → (follow P n from m).settings ≡ n.settings
  unfolding follow become_follower reset_election_timer
  follow-settings n from m = ground arith

  take_entries-settings :
      (n : Node P) (from : NodeId) (m : AppendReq) → (take_entries P n from m).settings ≡ n.settings
  unfolding take_entries follow_commit
  take_entries-settings n from m = grind (arith, send-settings)

  handle_append_req-settings :
      (n : Node P) (from : NodeId) (m : AppendReq)
      → (handle_append_req P n from m).settings ≡ n.settings
  unfolding handle_append_req
  handle_append_req-settings n from m =
      grind (arith, send-settings, follow-settings, take_entries-settings)

  advance_commit-settings : (n : Node P) → (advance_commit P n).settings ≡ n.settings
  unfolding advance_commit log_event
  advance_commit-settings n = ground arith

  handle_append_resp-settings :
      (n : Node P) (from : NodeId) (m : AppendResp)
      → (handle_append_resp P n from m).settings ≡ n.settings
  unfolding handle_append_resp become_follower reset_election_timer
  handle_append_resp-settings n from m = grind (arith, advance_commit-settings)

  handle_vote_req-settings :
      (n : Node P) (from : NodeId) (m : VoteReq)
      → (handle_vote_req P n from m).settings ≡ n.settings
  unfolding handle_vote_req cast_vote become_follower reset_election_timer
  handle_vote_req-settings n from m = grind (arith, send-settings)

  start_campaign-settings :
      (n : Node P) (after : Bool) → (start_campaign P n after).settings ≡ n.settings
  unfolding start_campaign log_event reset_election_timer
  start_campaign-settings n after = (broadcast_vote_req-Kept P _ false).settings

  track_peers-settings :
      (n : Node P) (ms : List NodeId) → (track_peers P n ms).settings ≡ n.settings
  unfolding track_peers track_peer
  track_peers-settings n [] = refl
  track_peers-settings n (m ∷ ms) = grind (arith, track_peers-settings (track_peer P n m) ms)

  become_leader-settings : (n : Node P) → (become_leader P n).settings ≡ n.settings
  unfolding become_leader log_event clear_heard
  become_leader-settings n = (broadcast_append-Kept P _).settings ∙ track_peers-settings _ _

  handle_vote_resp-settings :
      (n : Node P) (from : NodeId) (m : VoteResp)
      → (handle_vote_resp P n from m).settings ≡ n.settings
  unfolding handle_vote_resp become_follower reset_election_timer promote_to_candidate
  handle_vote_resp-settings n from m =
      grind (arith, become_leader-settings, start_campaign-settings)

  handle_probe_req-settings :
      (n : Node P) (from : NodeId) (m : ProbeReq)
      → (handle_probe_req P n from m).settings ≡ n.settings
  unfolding handle_probe_req
  handle_probe_req-settings n from m = send-settings _ from _ _

  dispatch-settings : (n : Node P) (env : Envelope) → (dispatch P n env).settings ≡ n.settings
  unfolding dispatch handle_probe_resp
  dispatch-settings n env = grind (
    arith, handle_append_req-settings, handle_append_resp-settings, handle_vote_req-settings,
    handle_vote_resp-settings, handle_probe_req-settings,
  )

  refused-settings :
      (n : Node P) (env : Envelope) (e : Error) → (refused P n env e).settings ≡ n.settings
  unfolding refused log_event
  refused-settings n env Error.replay = refl
  refused-settings n env _ = refl

  pub deliver-settings : (n : Node P) (env : Envelope) → (deliver P n env).settings ≡ n.settings
  unfolding deliver note_heard
  deliver-settings n env =
      let empty = record n { outbox = [] } in
      deliver_any P (λ x. x.settings ≡ n.settings) n env refl (refused-settings empty env)
        (λ tr. dispatch-settings (note_heard P empty env.from tr) env)

  watch_peers-settings :
      (n : Node P) (ms : List NodeId) → (watch_peers P n ms).settings ≡ n.settings
  unfolding watch_peers watch_peer mark_silent
  watch_peers-settings n [] = refl
  watch_peers-settings n (m ∷ ms) = grind (arith, watch_peers-settings (watch_peer P n m) ms)

  broadcast_probe-settings : (n : Node P) → (broadcast_probe P n).settings ≡ n.settings
  broadcast_probe-settings n = (broadcast_probe-Kept P n).settings

  broadcast_append-settings : (n : Node P) → (broadcast_append P n).settings ≡ n.settings
  broadcast_append-settings n = (broadcast_append-Kept P n).settings

  tick_probe-settings : (n : Node P) → (tick_probe P n).settings ≡ n.settings
  unfolding tick_probe detect_silence
  tick_probe-settings n =
      grind (arith, watch_peers-settings n (members_of P n), broadcast_probe-settings)

  heartbeat-settings : (n : Node P) → (heartbeat P n).settings ≡ n.settings
  unfolding heartbeat
  heartbeat-settings n = grind (arith, broadcast_append-settings)

  pub check_quorum-settings : (n : Node P) → (check_quorum P n).settings ≡ n.settings
  unfolding check_quorum clear_heard become_follower log_event reset_election_timer
  check_quorum-settings n = ground arith

  straw_poll-settings : (n : Node P) → (straw_poll P n).settings ≡ n.settings
  unfolding straw_poll log_event reset_election_timer
  straw_poll-settings n = (broadcast_vote_req-Kept P _ true).settings

  pub begin_election-settings : (n : Node P) → (begin_election P n).settings ≡ n.settings
  unfolding begin_election decline log_event reset_election_timer
  begin_election-settings n = grind (arith, straw_poll-settings, start_campaign-settings)

  pub tick_role-settings : (r : Role) (n : Node P) → (tick_role P r n).settings ≡ n.settings
  unfolding tick_role
  tick_role-settings leader n = check_quorum-settings (heartbeat P n) ∙ heartbeat-settings n
  tick_role-settings _ n = ground (arith, begin_election-settings n)

  pub tick-settings : (n : Node P) → (tick P n).settings ≡ n.settings
  unfolding tick advance_clock
  tick-settings n =
      let woken = advance_clock P n in
      ground
        (arith, tick_role-settings n.role woken, tick_probe-settings (tick_role P n.role woken))

  pub propose-settings :
      (n : Node P) (cmd : Bytes) {n' : Node P}
      → propose P n cmd ≡ some n'
      → n'.settings ≡ n.settings
  unfolding propose log_event
  propose-settings n cmd h = ground (
    arith,
    broadcast_append-settings
        (log_event P (record n { log = append P n.log n.current_term cmd }) (proposed cmd)),
  )
