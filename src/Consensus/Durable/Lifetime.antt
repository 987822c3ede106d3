-- ===== src/Consensus/Durable/Lifetime.antt =====
-- Nothing that a replica of internal/consensus has committed is lost, whatever it receives.
use crossfault.Prelude.{
  ◌+◌, ◌≡◌, refl, sym, ap, ◌∙◌, true, false, some, List, [], ◌∷◌, Bytes, NodeId, NodeId-Key,
  length-append, length-map, take, take-append_le, take-take_le, Option-cases, inl, inr, arith,
}
use mathlib.Core.List.{map-append}
use crossfault.Platform.{Platform}
use crossfault.Crypt.Identity.{Error}
use crossfault.Crypt.Envelope.{Envelope}
use crossfault.Consensus.Log.{append, append_chained, log_len}
use crossfault.Consensus.Log.Splice.{content, contents}
use crossfault.Consensus.State.{
  Node, Role, leader, proposed, log_event, reset_election_timer, members_of,
}
use crossfault.Consensus.Node.{become_follower, clear_heard, broadcast_append}
use crossfault.Consensus.Node.Handlers.{
  handle_vote_req, handle_vote_resp, handle_probe_req, handle_probe_resp,
}
use crossfault.Consensus.Node.Deliver.{refused, note_heard, dispatch, deliver, propose}
use crossfault.Consensus.Node.Dispatching.{dispatch_any, deliver_any}
use crossfault.Consensus.Node.Tick.{
  mark_silent, watch_peer, watch_peers, detect_silence, decline, straw_poll, begin_election,
  heartbeat, check_quorum, tick_role, tick_probe, advance_clock, tick,
}
use crossfault.Consensus.Node.Quiet.{
  broadcast_append-Kept, broadcast_vote_req-Kept, broadcast_probe-Kept,
}
use crossfault.Consensus.Ballot.{Action, message, clock, command, act, acts}
use crossfault.Consensus.Durable.{ActsWithin, CommitInLog, Durable}
use crossfault.Consensus.Durable.Handling.{
  Steady, Kept-Steady, Steady-Durable, handle_append_req-Durable, handle_append_resp-Durable,
  handle_vote_req-Steady, handle_vote_resp-Steady, handle_probe_req-Steady, start_campaign-Steady,
}

module _ (P : Platform) where
  refused-Steady : (n : Node P) (env : Envelope) (e : Error) → Steady P n (refused P n env e)
  unfolding refused log_event
  refused-Steady n env Error.replay = (refl, refl)
  refused-Steady n env _ = (refl, refl)

  dispatch-Durable :
      (n : Node P) (env : Envelope)
      → CommitInLog P n
      → ActsWithin P n (message env)
      → Durable P n (dispatch P n env)
  unfolding handle_probe_resp
  dispatch-Durable n env inside within =
      let still : (n' : Node P) → Steady P n n' → Durable P n n' =
        λ n' s. Steady-Durable P n n' inside s in
      dispatch_any P (Durable P n) n env (still n (refl, refl))
        (λ m q. handle_append_req-Durable P n env.from m inside (within m q))
        (λ m. handle_append_resp-Durable P n env.from m inside)
        (λ m. still (handle_vote_req P n env.from m) (handle_vote_req-Steady P n env.from m))
        (λ m. still (handle_vote_resp P n env.from m) (handle_vote_resp-Steady P n env.from m))
        (λ m. still (handle_probe_req P n env.from m) (handle_probe_req-Steady P n env.from m))
        (λ m. still (handle_probe_resp P n env.from m) (refl, refl))

  deliver-Durable :
      (n : Node P) (env : Envelope)
      → CommitInLog P n
      → ActsWithin P n (message env)
      → Durable P n (deliver P n env)
  unfolding note_heard
  deliver-Durable n env inside within =
      let empty = record n { outbox = [] } in
      deliver_any P (Durable P n) n env (Steady-Durable P n empty inside (refl, refl))
        (λ e. Steady-Durable P n (refused P empty env e) inside (refused-Steady empty env e))
        (λ tr. dispatch-Durable (note_heard P empty env.from tr) env inside within)

  watch_peers-Steady : (n : Node P) (ms : List NodeId) → Steady P n (watch_peers P n ms)
  unfolding watch_peers watch_peer mark_silent
  watch_peers-Steady n [] = (refl, refl)
  watch_peers-Steady n (m ∷ ms) = grind (arith, watch_peers-Steady (watch_peer P n m) ms)

  tick_probe-Steady : (n : Node P) → Steady P n (tick_probe P n)
  unfolding tick_probe detect_silence
  tick_probe-Steady n = grind (
    arith,
    watch_peers-Steady n (members_of P n),
    λ (x : Node P). Kept-Steady P x _ (broadcast_probe-Kept P x),
  )

  heartbeat-Steady : (n : Node P) → Steady P n (heartbeat P n)
  unfolding heartbeat
  heartbeat-Steady n = grind (arith, λ (x : Node P). Kept-Steady P x _ (broadcast_append-Kept P x))

  check_quorum-Steady : (n : Node P) → Steady P n (check_quorum P n)
  unfolding check_quorum clear_heard become_follower log_event reset_election_timer
  check_quorum-Steady n = ground arith

  decline-Steady : (n : Node P) → Steady P n (decline P n)
  unfolding decline log_event reset_election_timer
  decline-Steady n = (refl, refl)

  straw_poll-Steady : (n : Node P) → Steady P n (straw_poll P n)
  unfolding straw_poll log_event reset_election_timer
  straw_poll-Steady n = let k = broadcast_vote_req-Kept P _ true in (k.log, k.commit_index)

  begin_election-Steady : (n : Node P) → Steady P n (begin_election P n)
  unfolding begin_election
  begin_election-Steady n =
      let started = record n {
        counters = record (n.counters) { elections_started = n.elections_started + 1 };
      } in
      ground
        (arith, decline-Steady n, straw_poll-Steady started, start_campaign-Steady P started false)

  tick_role-Steady : (r : Role) (n : Node P) → Steady P n (tick_role P r n)
  unfolding tick_role
  tick_role-Steady leader n =
      ground (arith, check_quorum-Steady (heartbeat P n), heartbeat-Steady n)
  tick_role-Steady _ n = ground (arith, begin_election-Steady n)

  tick-Steady : (n : Node P) → Steady P n (tick P n)
  unfolding tick advance_clock
  tick-Steady n =
      let woken = advance_clock P n in
      ground (arith, tick_role-Steady n.role woken, tick_probe-Steady (tick_role P n.role woken))

  propose-Durable :
      (n n' : Node P) (cmd : Bytes) → CommitInLog P n → propose P n cmd ≡ some n' → Durable P n n'
  unfolding propose log_event append append_chained
  propose-Durable n n' cmd inside done =
      let logged =
        log_event P (record n { log = append P n.log n.current_term cmd }) (proposed cmd) in
      let k = broadcast_append-Kept P logged in
      let sent : n' ≡ broadcast_append P logged = ground arith in
      let log : n'.log ≡ append P n.log n.current_term cmd = ap (λ x. x.log) sent ∙ k.log in
      let commit : n'.commit_index ≡ n.commit_index =
        ap (λ x. x.commit_index) sent ∙ k.commit_index in
      (
        omega (arith, commit),
        omega (arith, commit, ap log_len log, length-append n.log.entries _),
        ap (λ l. take n.commit_index (contents l)) log
            ∙ ap (take n.commit_index) (map-append content n.log.entries _)
            ∙ take-append_le n.commit_index (contents n.log) _
                (omega (arith, length-map n.log.entries content)),
      )

  act-Durable :
      (n : Node P) (a : Action) → CommitInLog P n → ActsWithin P n a → Durable P n (act P n a)
  unfolding act
  act-Durable n (message env) inside within = deliver-Durable n env inside within
  act-Durable n clock inside within = Steady-Durable P n (tick P n) inside (tick-Steady n)
  act-Durable n (command cmd) inside within = elim (Option-cases (propose P n cmd)) [
    | inl no_leader ↦ rw (no_leader, act) (Steady-Durable P n n inside (refl, refl))
    | inr (n', done) ↦ rw (done, act) (propose-Durable n n' cmd inside done)
  ]

  -- A run in which every request to append respects what is committed when it arrives.
  abbrev pub RunsWithin : Node P → List Action → Type 0
  RunsWithin n [] = Unit {0}
  RunsWithin n (a ∷ rest) = ActsWithin P n a × RunsWithin (act P n a) rest

  -- Over any run of envelopes, ticks and commands from a state whose commit index is in its log, the commit
  -- index never goes back, stays in the log, and what was committed keeps its terms and commands, as long as every request to append
  -- agrees in its terms with what is committed when it arrives, and wraps no index.
  pub acts-Durable :
      (n : Node P) (run : List Action)
      → CommitInLog P n
      → RunsWithin n run
      → Durable P n (acts P n run)
  unfolding acts
  acts-Durable n [] inside within = Steady-Durable P n n inside (refl, refl)
  acts-Durable n (a ∷ rest) inside (within, later) =
      let (up, inside', kept) = act-Durable n a inside within in
      let (up', inside'', kept') = acts-Durable (act P n a) rest inside' later in
      let c = n.commit_index in
      let c' = (act P n a).commit_index in
      let l = contents ((act P n a).log) in
      let l' = contents ((acts P (act P n a) rest).log) in
      (
        omega arith,
        inside'',
        sym (take-take_le c c' l' up) ∙ ap (take c) kept' ∙ take-take_le c c' l up ∙ kept,
      )
