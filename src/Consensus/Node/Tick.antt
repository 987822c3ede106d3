-- ===== src/Consensus/Node/Tick.antt =====
-- The clock of a replica: Tick, detectSilence and beginElection of internal/consensus/node.go.
use crossfault.Prelude.{
  ◌+◌, Bool, true, false, not, ◌&&◌, none, some, List, [], ◌∷◌, NodeId, no_node, NodeId-Key, lookup,
  insert, same, u64, sub64, ltb, leb, if◌then◌else◌,
}
use crossfault.Platform.{Platform}
use crossfault.Netmatrix.View.{observe_silence, tick_view, has_bidirectional_quorum}
use crossfault.Consensus.State.{
  Node, Mode, baseline, cross_fault, Role, pre_candidate, leader, step_down, declined, pre_campaign,
  log_event, reset_election_timer, members_of,
}
use crossfault.Consensus.Node.{
  become_follower, clear_heard, has_heard_from_quorum, broadcast_append, broadcast_vote_req,
  broadcast_probe, start_campaign,
}

abbrev pub is_baseline : Mode → Bool
is_baseline baseline = true
is_baseline _ = false

abbrev pub is_cross_fault : Mode → Bool
is_cross_fault cross_fault = true
is_cross_fault _ = false

module _ (P : Platform) where
  unfoldable pub mark_silent : Node P → NodeId → Node P
  mark_silent n m = record n {
    inbound_up = insert m false n.inbound_up;
    view = observe_silence n.view m;
  }

  -- Whether a peer has been quiet for longer than the window, since it was last heard or since the
  -- start.
  unfoldable pub is_silent : Node P → NodeId → Bool
  is_silent n m = elim (lookup m n.last_heard) [
    | none ↦ ltb n.base_election n.tick
    | some last ↦ ltb n.base_election (sub64 n.tick last)
  ]

  -- One round of detectSilence.
  unfoldable pub watch_peer : Node P → NodeId → Node P
  watch_peer n m = if same m n.id then n else if is_silent n m then mark_silent n m else n

  unfoldable pub watch_peers : Node P → List NodeId → Node P
  watch_peers n [] = n
  watch_peers n (m ∷ ms) = watch_peers (watch_peer n m) ms

  unfoldable pub detect_silence : Node P → Node P
  detect_silence n = watch_peers n (members_of P n)

  unfoldable pub decline : Node P → Node P
  decline n = reset_election_timer P (
      log_event P
        (record n { counters = record (n.counters) { declined_to_run = n.declined_to_run + 1 } })
        declined)

  unfoldable pub straw_poll : Node P → Node P
  straw_poll n =
      let polling = record n { role = pre_candidate; pre_votes = (n.id, true) ∷ [] } in
      broadcast_vote_req P
        (reset_election_timer P
          (log_event P polling (pre_campaign (u64 (polling.current_term + 1)))))
        true

  unfoldable pub begin_election : Node P → Node P
  begin_election n =
      if is_cross_fault n.mode && not (has_bidirectional_quorum n.view n.id)
      then decline n
      else let started = record n {
        counters = record (n.counters) { elections_started = n.elections_started + 1 };
      } in
        if is_baseline started.mode then start_campaign P started false else straw_poll started

  unfoldable pub heartbeat : Node P → Node P
  heartbeat n0 =
      let n = record n0 { heartbeat_elapsed = n0.heartbeat_elapsed + 1 } in
      if leb n.heartbeat_interval n.heartbeat_elapsed
      then broadcast_append P (record n { heartbeat_elapsed = 0 })
      else n

  unfoldable pub check_quorum : Node P → Node P
  check_quorum n0 =
      if not (is_baseline n0.mode) && leb n0.election_timeout n0.election_elapsed
      then (let n = record n0 { election_elapsed = 0 } in
          clear_heard P (
            if has_heard_from_quorum P n
            then n
            else become_follower P (log_event P n step_down) n.current_term no_node))
      else n0

  -- The switch on the role.
  unfoldable pub tick_role : Role → Node P → Node P
  tick_role leader n = check_quorum (heartbeat n)
  tick_role _ n = if leb n.election_timeout n.election_elapsed then begin_election n else n

  unfoldable pub tick_probe : Node P → Node P
  tick_probe n0 =
      if is_cross_fault n0.mode
      then (let watched = detect_silence n0 in
          let n = record watched { probe_elapsed = watched.probe_elapsed + 1 } in
          if leb n.probe_interval n.probe_elapsed
          then broadcast_probe P (record n { probe_elapsed = 0 })
          else n)
      else n0

  unfoldable pub advance_clock : Node P → Node P
  advance_clock n = record n {
    tick = u64 (n.tick + 1);
    outbox = [];
    view = tick_view n.view;
    election_elapsed = n.election_elapsed + 1;
  }

  unfoldable pub tick : Node P → Node P
  tick n = let woken = advance_clock n in tick_probe (tick_role woken.role woken)
