-- ===== src/Consensus/Ballot/Stepping.antt =====
-- Deliver, Tick and Propose of internal/consensus as moves of the abstract machine.
use crossfault.Prelude.{
  ◌+◌, ◌≡◌, ◌≢◌, refl, true, false, some, List, [], ◌∷◌, Bytes, NodeId, NodeId-Key, inl, arith,
}
use crossfault.Platform.{Platform}
use crossfault.Crypt.Identity.{Error}
use crossfault.Crypt.Envelope.{Envelope}
use crossfault.Consensus.State.{
  Node, Role, follower, pre_candidate, candidate, leader, log_event, reset_election_timer,
  members_of,
}
use crossfault.Consensus.Node.{become_follower, clear_heard}
use crossfault.Consensus.Node.Handlers.{handle_probe_resp}
use crossfault.Consensus.Node.Deliver.{refused, note_heard, dispatch, deliver, propose}
use crossfault.Consensus.Node.Dispatching.{dispatch_any, deliver_any}
use crossfault.Consensus.Node.Tick.{
  mark_silent, watch_peer, watch_peers, detect_silence, decline, straw_poll, begin_election,
  heartbeat, check_quorum, tick_role, tick_probe, advance_clock, tick,
}
use crossfault.Consensus.Node.Quiet.{
  broadcast_append-Kept, broadcast_vote_req-Kept, broadcast_probe-Kept,
}
use crossfault.Consensus.Ballot.{MoveRule, HasRoom}
use crossfault.Consensus.Ballot.Handling.{
  Same, Kept-Same, handle_append_req-MoveRule, handle_append_resp-MoveRule,
  handle_vote_req-MoveRule, handle_vote_resp-MoveRule, handle_probe_req-Same, start_campaign-Runs,
}

module _ (P : Platform) where
  dispatch-MoveRule : (n : Node P) (env : Envelope) → HasRoom P n → MoveRule P n (dispatch P n env)
  unfolding handle_probe_resp
  dispatch-MoveRule n env room =
      dispatch_any P (MoveRule P n) n env (inl (refl, refl, refl))
        (λ m q. handle_append_req-MoveRule P n env.from m)
        (handle_append_resp-MoveRule P n env.from) (handle_vote_req-MoveRule P n env.from)
        (λ m. handle_vote_resp-MoveRule P n env.from m room)
        (λ m. inl (handle_probe_req-Same P n env.from m)) (λ m. inl (refl, refl, refl))

  refused-Same : (n : Node P) (env : Envelope) (e : Error) → Same P n (refused P n env e)
  unfolding refused log_event
  refused-Same n env Error.replay = (refl, refl, refl)
  refused-Same n env _ = (refl, refl, refl)

  pub deliver-MoveRule :
      (n : Node P) (env : Envelope) → HasRoom P n → MoveRule P n (deliver P n env)
  unfolding deliver note_heard
  deliver-MoveRule n env room =
      deliver_any P (MoveRule P n) n env (inl (refl, refl, refl))
        (λ e. inl (refused-Same (record n { outbox = [] }) env e))
        (λ tr. dispatch-MoveRule (note_heard P (record n { outbox = [] }) env.from tr) env room)

  pub propose-Same : (n n' : Node P) (cmd : Bytes) → propose P n cmd ≡ some n' → Same P n n'
  unfolding propose log_event
  propose-Same n n' cmd h =
      grind (arith, λ (x : Node P). Kept-Same P x _ (broadcast_append-Kept P x))

  watch_peers-Same : (n : Node P) (ms : List NodeId) → Same P n (watch_peers P n ms)
  unfolding watch_peers watch_peer mark_silent
  watch_peers-Same n [] = (refl, refl, refl)
  watch_peers-Same n (m ∷ ms) = grind (arith, watch_peers-Same (watch_peer P n m) ms)

  tick_probe-Same : (n : Node P) → Same P n (tick_probe P n)
  unfolding tick_probe detect_silence
  tick_probe-Same n = grind (
    arith,
    watch_peers-Same n (members_of P n),
    λ (x : Node P). Kept-Same P x _ (broadcast_probe-Kept P x),
  )

  heartbeat-Same : (n : Node P) → Same P n (heartbeat P n)
  unfolding heartbeat
  heartbeat-Same n = grind (arith, λ (x : Node P). Kept-Same P x _ (broadcast_append-Kept P x))

  check_quorum-MoveRule : (n : Node P) → n.role ≡ leader → MoveRule P n (check_quorum P n)
  unfolding check_quorum clear_heard become_follower log_event reset_election_timer
  check_quorum-MoveRule n leads = ground arith

  decline-Same : (n : Node P) → Same P n (decline P n)
  unfolding decline log_event reset_election_timer
  decline-Same n = (refl, refl, refl)

  straw_poll-Polls :
      (n : Node P)
      → ((straw_poll P n).role ≡ pre_candidate)
        × ((straw_poll P n).current_term ≡ n.current_term)
        × ((straw_poll P n).voted_for ≡ n.voted_for)
  unfolding straw_poll log_event reset_election_timer
  straw_poll-Polls n =
      let k = broadcast_vote_req-Kept P _ true in (k.role, k.current_term, k.voted_for)

  begin_election-MoveRule :
      (n : Node P) → n.role ≢ leader → HasRoom P n → MoveRule P n (begin_election P n)
  unfolding begin_election
  begin_election-MoveRule n runs room =
      let started = record n {
        counters = record (n.counters) { elections_started = n.elections_started + 1 };
      } in
      ground
        (arith, decline-Same n, straw_poll-Polls started, start_campaign-Runs P started false room)

  tick_role-MoveRule :
      (r : Role) (n : Node P) → n.role ≡ r → HasRoom P n → MoveRule P n (tick_role P r n)
  unfolding tick_role
  tick_role-MoveRule leader n is room =
      ground (arith, check_quorum-MoveRule (heartbeat P n), heartbeat-Same n)
  tick_role-MoveRule follower n is room = ground (arith, begin_election-MoveRule n)
  tick_role-MoveRule pre_candidate n is room = ground (arith, begin_election-MoveRule n)
  tick_role-MoveRule candidate n is room = ground (arith, begin_election-MoveRule n)

  pub tick-MoveRule : (n : Node P) → HasRoom P n → MoveRule P n (tick P n)
  unfolding tick advance_clock
  tick-MoveRule n room =
      let woken = advance_clock P n in
      ground (
        arith,
        tick_role-MoveRule n.role woken refl room,
        tick_probe-Same (tick_role P n.role woken),
      )
