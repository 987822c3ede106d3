-- ===== src/Consensus/Node/Terms.antt =====
-- Terms under internal/consensus: no message and no tick ever takes a replica back to an older term.
use crossfault.Prelude.{
  ℕ, ◌+◌, ◌<◌, ◌≤◌, ◌^◌, ◌≡◌, ◌≢◌, ◌⊎◌, refl, ◌∙◌, Bool, true, false, List, [], ◌∷◌, Bytes, NodeId,
  NodeId-Key, u64, inl, arith,
}
use crossfault.Platform.{Platform}
use crossfault.Messages.{AppendReq, AppendResp, VoteReq, VoteResp, ProbeReq}
use crossfault.Crypt.Identity.{Error}
use crossfault.Crypt.Envelope.{Envelope}
use crossfault.Consensus.State.{
  Node, baseline, Role, leader, log_event, reset_election_timer, members_of,
}
use crossfault.Consensus.Node.{
  send, become_follower, become_leader, start_campaign, promote_to_candidate, track_peer,
  track_peers, clear_heard,
}
use crossfault.Consensus.Node.Handlers.{
  follow, follow_commit, take_entries, advance_commit, handle_append_req, handle_append_resp,
  cast_vote, handle_vote_req, handle_vote_resp, handle_probe_req, handle_probe_resp,
}
use crossfault.Consensus.Node.Deliver.{refused, note_heard, dispatch, deliver}
use crossfault.Consensus.Node.Dispatching.{deliver_any}
use crossfault.Consensus.Node.Tick.{
  mark_silent, watch_peer, watch_peers, detect_silence, decline, straw_poll, begin_election,
  heartbeat, check_quorum, tick_role, tick_probe, advance_clock, tick,
}
use crossfault.Consensus.Node.Quiet.{
  send-Kept, broadcast_append-Kept, broadcast_vote_req-Kept, broadcast_probe-Kept,
}

module _ (P : Platform) where
  send-term :
      (n : Node P) (to : NodeId) (kind : ℕ) (payload : Bytes)
      → (send P n to kind payload).current_term ≡ n.current_term
  send-term n to kind payload = (send-Kept P n to kind payload).current_term

  take_entries-term :
      (n : Node P) (from : NodeId) (m : AppendReq)
      → (take_entries P n from m).current_term ≡ n.current_term
  unfolding take_entries follow_commit
  take_entries-term n from m = grind (arith, send-term)

  follow-term :
      (n : Node P) (from : NodeId) (m : AppendReq)
      → n.current_term ≤ m.term
      → (follow P n from m).current_term ≡ m.term
  unfolding follow become_follower reset_election_timer
  follow-term n from m h = ground arith

  handle_append_req-term :
      (n : Node P) (from : NodeId) (m : AppendReq)
      → n.current_term ≤ (handle_append_req P n from m).current_term
  unfolding handle_append_req
  handle_append_req-term n from m = grind (arith, send-term, take_entries-term, follow-term)

  advance_commit-term : (n : Node P) → (advance_commit P n).current_term ≡ n.current_term
  unfolding advance_commit log_event
  advance_commit-term n = ground arith

  handle_append_resp-term :
      (n : Node P) (from : NodeId) (m : AppendResp)
      → n.current_term ≤ (handle_append_resp P n from m).current_term
  unfolding handle_append_resp become_follower reset_election_timer
  handle_append_resp-term n from m = grind (arith, advance_commit-term)

  handle_vote_req-term :
      (n : Node P) (from : NodeId) (m : VoteReq)
      → n.current_term ≤ (handle_vote_req P n from m).current_term
  unfolding handle_vote_req cast_vote become_follower reset_election_timer
  handle_vote_req-term n from m = grind (arith, send-term)

  start_campaign-term :
      (n : Node P) (after : Bool)
      → (start_campaign P n after).current_term ≡ u64 (n.current_term + 1)
  unfolding start_campaign log_event reset_election_timer
  start_campaign-term n after = (broadcast_vote_req-Kept P _ false).current_term

  track_peers-term :
      (n : Node P) (ms : List NodeId) → (track_peers P n ms).current_term ≡ n.current_term
  unfolding track_peers track_peer
  track_peers-term n [] = refl
  track_peers-term n (m ∷ ms) = grind (arith, track_peers-term (track_peer P n m) ms)

  become_leader-term : (n : Node P) → (become_leader P n).current_term ≡ n.current_term
  unfolding become_leader log_event clear_heard
  become_leader-term n = (broadcast_append-Kept P _).current_term ∙ track_peers-term _ _

  handle_vote_resp-term :
      (n : Node P) (from : NodeId) (m : VoteResp)
      → n.current_term + 1 < 2 ^ 64
      → n.current_term ≤ (handle_vote_resp P n from m).current_term
  unfolding handle_vote_resp become_follower reset_election_timer promote_to_candidate
  handle_vote_resp-term n from m room = grind (arith, become_leader-term, start_campaign-term)

  handle_probe_req-term :
      (n : Node P) (from : NodeId) (m : ProbeReq)
      → (handle_probe_req P n from m).current_term ≡ n.current_term
  unfolding handle_probe_req
  handle_probe_req-term n from m = (send-Kept P _ from _ _).current_term

  dispatch-term :
      (n : Node P) (env : Envelope)
      → n.current_term + 1 < 2 ^ 64
      → n.current_term ≤ (dispatch P n env).current_term
  unfolding dispatch handle_probe_resp
  dispatch-term n env room = grind (
    arith, handle_append_req-term, handle_append_resp-term, handle_vote_req-term,
    handle_vote_resp-term, handle_probe_req-term,
  )

  refused-term :
      (n : Node P) (env : Envelope) (e : Error) → (refused P n env e).current_term ≡ n.current_term
  unfolding refused log_event
  refused-term n env Error.replay = refl
  refused-term n env _ = refl

  -- Delivering any envelope keeps the term or raises it, as long as the term after the current one
  -- does not wrap.
  pub deliver-term :
      (n : Node P) (env : Envelope)
      → n.current_term + 1 < 2 ^ 64
      → n.current_term ≤ (deliver P n env).current_term
  unfolding deliver note_heard
  deliver-term n env room =
      let empty = record n { outbox = [] } in
      deliver_any P (λ x. n.current_term ≤ x.current_term) n env (omega arith)
        (λ e. omega (arith, refused-term empty env e))
        (λ tr. dispatch-term (note_heard P empty env.from tr) env room)

  watch_peers-term :
      (n : Node P) (ms : List NodeId) → (watch_peers P n ms).current_term ≡ n.current_term
  unfolding watch_peers watch_peer mark_silent
  watch_peers-term n [] = refl
  watch_peers-term n (m ∷ ms) = grind (arith, watch_peers-term (watch_peer P n m) ms)

  tick_probe-term : (n : Node P) → (tick_probe P n).current_term ≡ n.current_term
  unfolding tick_probe detect_silence
  tick_probe-term n = grind (
    arith,
    watch_peers-term n (members_of P n),
    λ (x : Node P). (broadcast_probe-Kept P x).current_term,
  )

  heartbeat-term : (n : Node P) → (heartbeat P n).current_term ≡ n.current_term
  unfolding heartbeat
  heartbeat-term n = grind (arith, λ (x : Node P). (broadcast_append-Kept P x).current_term)

  check_quorum-term : (n : Node P) → (check_quorum P n).current_term ≡ n.current_term
  unfolding check_quorum clear_heard become_follower log_event reset_election_timer
  check_quorum-term n = ground arith

  decline-term : (n : Node P) → (decline P n).current_term ≡ n.current_term
  unfolding decline log_event reset_election_timer
  decline-term n = refl

  straw_poll-term : (n : Node P) → (straw_poll P n).current_term ≡ n.current_term
  unfolding straw_poll log_event reset_election_timer
  straw_poll-term n = (broadcast_vote_req-Kept P _ true).current_term

  -- The terms before and after a tick.
  abbrev pub TermStep : Node P → Node P → Type 0
  TermStep n n' =
      (n'.current_term ≡ n.current_term)
      ⊎ ((n'.current_term ≡ u64 (n.current_term + 1))
          × (n.mode ≡ baseline)
          × (n.role ≢ leader)
          × (n.election_timeout ≤ n.election_elapsed + 1))

  begin_election-term :
      (n : Node P)
      → ((begin_election P n).current_term ≡ n.current_term)
        ⊎ (((begin_election P n).current_term ≡ u64 (n.current_term + 1)) × (n.mode ≡ baseline))
  unfolding begin_election
  begin_election-term n =
      let started = record n {
        counters = record (n.counters) { elections_started = n.elections_started + 1 };
      } in
      ground (arith, decline-term n, straw_poll-term started, start_campaign-term started false)

  tick_role-term :
      (r : Role) (n : Node P)
      → ((tick_role P r n).current_term ≡ n.current_term)
        ⊎ (((tick_role P r n).current_term ≡ u64 (n.current_term + 1))
            × (n.mode ≡ baseline)
            × (r ≢ leader)
            × (n.election_timeout ≤ n.election_elapsed))
  unfolding tick_role
  tick_role-term leader n = inl (check_quorum-term (heartbeat P n) ∙ heartbeat-term n)
  tick_role-term _ n = ground (arith, begin_election-term n)

  -- A tick leaves the term as it is, or adds one to it on uint64; the second only in baseline mode, on
  -- a node that is not the leader, when its election timeout is over.
  pub tick-TermStep : (n : Node P) → TermStep n (tick P n)
  unfolding tick advance_clock
  tick-TermStep n =
      let woken = advance_clock P n in
      ground (arith, tick_role-term n.role woken, tick_probe-term (tick_role P n.role woken))
