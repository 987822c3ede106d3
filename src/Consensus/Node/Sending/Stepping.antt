-- ===== src/Consensus/Node/Sending/Stepping.antt =====
-- The same for Deliver, Tick and Propose of internal/consensus.
use crossfault.Prelude.{
  ℕ, ◌+◌, ◌≡◌, refl, true, false, not, ◌&&◌, ◌||◌, ◌==◌, if◌then◌else◌, some, List, [], ◌∷◌, Bytes,
  NodeId, NodeId-Key, insert, length, leb, ltb, arith,
}
use crossfault.Platform.{Platform}
use crossfault.Messages.{VoteResp, ProbeReq}
use crossfault.Crypt.Identity.{Error}
use crossfault.Crypt.Envelope.{Envelope}
use crossfault.Consensus.State.{
  Node, Role, follower, pre_candidate, candidate, leader, log_event, reset_election_timer,
  members_of, quorum,
}
use crossfault.Consensus.Node.{
  send, broadcast_append, become_follower, promote_to_candidate, clear_heard,
}
use crossfault.Consensus.Node.Handlers.{handle_vote_resp, handle_probe_req, handle_probe_resp}
use crossfault.Consensus.Node.Deliver.{refused, note_heard, dispatch, deliver, propose}
use crossfault.Consensus.Node.Dispatching.{if_any, dispatch_any, deliver_any}
use crossfault.Consensus.Node.Tick.{
  is_baseline, is_cross_fault, mark_silent, watch_peer, watch_peers, detect_silence, decline,
  straw_poll, begin_election, heartbeat, check_quorum, tick_role, tick_probe, advance_clock, tick,
}
use crossfault.Consensus.Log.{append}
use crossfault.Consensus.State.{proposed}
use crossfault.Consensus.Node.Handlers.{is_candidate, is_pre_candidate}
use crossfault.Netmatrix.View.{has_bidirectional_quorum}
use crossfault.Prelude.{subst}
use crossfault.Consensus.Node.Sending.{
  broadcast_append-any, broadcast_vote_req-any, broadcast_probe-any, handle_append_req-any,
  handle_append_resp-any, handle_vote_req-any, start_campaign-any, become_leader-any,
}

module _ (P : Platform) (Q : Node P → Type 0)
    (on_send : (n : Node P) (to : NodeId) (kind : ℕ) (payload : Bytes)
      → Q n
      → Q (send P n to kind payload))
    (on_fields : (n n' : Node P) → n'.send_tr ≡ n.send_tr → n'.outbox ≡ n.outbox → Q n → Q n') where
  handle_vote_resp-any :
      (n : Node P) (from : NodeId) (m : VoteResp) → Q n → Q (handle_vote_resp P n from m)
  unfolding handle_vote_resp become_follower reset_election_timer promote_to_candidate
  handle_vote_resp-any n from m q =
      let polled = record n { pre_votes = insert from true n.pre_votes } in
      let counted = record n { votes = insert from true n.votes } in
      let polled_q = on_fields n polled refl refl q in
      let counted_q = on_fields n counted refl refl q in
      if_any P Q m.pre_vote
        (if_any P Q (not (is_pre_candidate n.role) || not m.granted) q (
          if_any P Q (leb (quorum P polled) (length polled.pre_votes))
            (start_campaign-any P Q on_send on_fields polled true polled_q) polled_q))
        (if_any P Q (ltb n.current_term m.term) (on_fields n _ refl refl q) (
          if_any P Q
            (not (is_candidate n.role) || (not (m.term == n.current_term) || not m.granted)) q
            (if_any P Q (leb (quorum P counted) (length counted.votes))
              (become_leader-any P Q on_send on_fields counted counted_q) counted_q)))

  handle_probe_req-any :
      (n : Node P) (from : NodeId) (m : ProbeReq) → Q n → Q (handle_probe_req P n from m)
  unfolding handle_probe_req
  handle_probe_req-any n from m q = on_send _ from _ _ (on_fields n _ refl refl q)

  dispatch-any : (n : Node P) (env : Envelope) → Q n → Q (dispatch P n env)
  unfolding handle_probe_resp
  dispatch-any n env q =
      dispatch_any P Q n env q (λ m h. handle_append_req-any P Q on_send on_fields n env.from m q)
        (λ m. handle_append_resp-any P Q on_send on_fields n env.from m q)
        (λ m. handle_vote_req-any P Q on_send on_fields n env.from m q)
        (λ m. handle_vote_resp-any n env.from m q) (λ m. handle_probe_req-any n env.from m q)
        (λ m. on_fields n (handle_probe_resp P n env.from m) refl refl q)

  refused-any : (n : Node P) (env : Envelope) (e : Error) → Q n → Q (refused P n env e)
  unfolding refused log_event
  refused-any n env Error.replay q = on_fields n _ refl refl q
  refused-any n env Error.unknown_sender q = on_fields n _ refl refl q
  refused-any n env Error.bad_signature q = on_fields n _ refl refl q

  -- What `send` keeps and what holds once the outbox is empty holds after Deliver.
  pub deliver-any :
      (n : Node P) (env : Envelope) → Q (record n { outbox = [] }) → Q (deliver P n env)
  unfolding note_heard
  deliver-any n env q =
      let empty = record n { outbox = [] } in
      deliver_any P Q n env q (λ e. refused-any empty env e q)
        (λ tr.
          dispatch-any (note_heard P empty env.from tr) env
            (on_fields empty (note_heard P empty env.from tr) refl refl q))

  -- What `send` keeps holds after Propose.
  pub propose-any :
      (n : Node P) (cmd : Bytes) {n' : Node P} → propose P n cmd ≡ some n' → Q n → Q n'
  unfolding propose log_event
  propose-any n cmd {n'} done q =
      let logged =
        log_event P (record n { log = append P n.log n.current_term cmd }) (proposed cmd) in
      let sent : broadcast_append P logged ≡ n' = ground arith in
      subst Q sent
        (broadcast_append-any P Q on_send on_fields logged (on_fields n logged refl refl q))

  watch_peers-any : (n : Node P) (ms : List NodeId) → Q n → Q (watch_peers P n ms)
  unfolding watch_peers watch_peer mark_silent
  watch_peers-any n [] q = q
  watch_peers-any n (m ∷ ms) q =
      watch_peers-any (watch_peer P n m) ms
        (on_fields n (watch_peer P n m) (ground arith) (ground arith) q)

  tick_probe-any : (n : Node P) → Q n → Q (tick_probe P n)
  unfolding tick_probe detect_silence
  tick_probe-any n0 q =
      let watched = detect_silence P n0 in
      let n = record watched { probe_elapsed = watched.probe_elapsed + 1 } in
      let q' = on_fields watched n refl refl (watch_peers-any n0 (members_of P n0) q) in
      if_any P Q (is_cross_fault n0.mode)
        (if_any P Q (leb n.probe_interval n.probe_elapsed)
          (broadcast_probe-any P Q on_send on_fields _ (on_fields n _ refl refl q')) q')
        q

  heartbeat-any : (n : Node P) → Q n → Q (heartbeat P n)
  unfolding heartbeat
  heartbeat-any n0 q =
      let n = record n0 { heartbeat_elapsed = n0.heartbeat_elapsed + 1 } in
      let q' = on_fields n0 n refl refl q in
      if_any P Q (leb n.heartbeat_interval n.heartbeat_elapsed)
        (broadcast_append-any P Q on_send on_fields _ (on_fields n _ refl refl q')) q'

  check_quorum-any : (n : Node P) → Q n → Q (check_quorum P n)
  unfolding check_quorum clear_heard become_follower log_event reset_election_timer
  check_quorum-any n q = on_fields n (check_quorum P n) (ground arith) (ground arith) q

  begin_election-any : (n : Node P) → Q n → Q (begin_election P n)
  unfolding begin_election decline straw_poll log_event reset_election_timer
  begin_election-any n q =
      let started = record n {
        counters = record (n.counters) { elections_started = n.elections_started + 1 };
      } in
      let q' = on_fields n started refl refl q in
      if_any P Q (is_cross_fault n.mode && not (has_bidirectional_quorum n.view n.id))
        (on_fields n _ refl refl q)
        (if_any P Q (is_baseline started.mode)
          (start_campaign-any P Q on_send on_fields started false q')
          (broadcast_vote_req-any P Q on_send on_fields _ true (on_fields started _ refl refl q')))

  late-any :
      (n : Node P)
      → Q n
      → Q (if leb n.election_timeout n.election_elapsed then begin_election P n else n)
  late-any n q = if_any P Q (leb n.election_timeout n.election_elapsed) (begin_election-any n q) q

  tick_role-any : (r : Role) (n : Node P) → Q n → Q (tick_role P r n)
  unfolding tick_role
  tick_role-any leader n q = check_quorum-any (heartbeat P n) (heartbeat-any n q)
  tick_role-any follower n q = late-any n q
  tick_role-any pre_candidate n q = late-any n q
  tick_role-any candidate n q = late-any n q

  -- What `send` keeps and what holds once the outbox is empty holds after Tick.
  pub tick-any : (n : Node P) → Q (record n { outbox = [] }) → Q (tick P n)
  unfolding tick advance_clock
  tick-any n q =
      let woken = advance_clock P n in
      tick_probe-any (tick_role P n.role woken)
        (tick_role-any n.role woken (on_fields (record n { outbox = [] }) woken refl refl q))
