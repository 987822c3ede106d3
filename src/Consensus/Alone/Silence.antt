-- ===== src/Consensus/Alone/Silence.antt =====
-- What detectSilence of internal/consensus/node.go makes of the connectivity matrix, on a node that
-- hears nobody.
use crossfault.Prelude.{
  ◌≡◌, ◌≢◌, refl, true, false, arith, List, [], ◌∷◌, NodeId, NodeId-Key, same, contains,
  if◌then◌else◌, ◌&&◌, Bool,
}
use crossfault.Platform.{Platform}
use crossfault.Netmatrix.View.{View, set_edge, tick_view, can_send, observe_silence}
use crossfault.Netmatrix.Edges.{can_send-observe}
use crossfault.Consensus.State.{
  Node, cross_fault, Role, leader, log_event, reset_election_timer, members_of,
}
use crossfault.Consensus.Node.{become_follower, clear_heard, start_campaign}
use crossfault.Consensus.Node.Tick.{
  mark_silent, is_silent, watch_peer, watch_peers, detect_silence, decline, straw_poll,
  begin_election, heartbeat, check_quorum, tick_role, tick_probe, advance_clock, tick,
}
use crossfault.Consensus.Node.Quiet.{
  broadcast_append-Kept, broadcast_vote_req-Kept, broadcast_probe-Kept,
}
use crossfault.Consensus.Node.Fixed.{tick_role-settings}
use crossfault.Prelude.{bytes_discrete}

module _ (P : Platform) where
  -- What the watch over the peers reads.
  abbrev pub Watching : Node P → Node P → Type 0
  Watching n n' = (n'.view ≡ n.view) × (n'.last_heard ≡ n.last_heard) × (n'.tick ≡ n.tick)

  start_campaign-Watching : (n : Node P) (after : Bool) → Watching n (start_campaign P n after)
  unfolding start_campaign log_event reset_election_timer
  start_campaign-Watching n after =
      let k = broadcast_vote_req-Kept P _ false in (k.view, k.last_heard, k.tick)

  straw_poll-Watching : (n : Node P) → Watching n (straw_poll P n)
  unfolding straw_poll log_event reset_election_timer
  straw_poll-Watching n = let k = broadcast_vote_req-Kept P _ true in (k.view, k.last_heard, k.tick)

  begin_election-Watching : (n : Node P) → Watching n (begin_election P n)
  unfolding begin_election decline log_event reset_election_timer
  begin_election-Watching n = grind (arith, straw_poll-Watching, start_campaign-Watching)

  heartbeat-Watching : (n : Node P) → Watching n (heartbeat P n)
  unfolding heartbeat
  heartbeat-Watching n = grind (arith, λ (x : Node P). broadcast_append-Kept P x)

  check_quorum-Watching : (n : Node P) → Watching n (check_quorum P n)
  unfolding check_quorum clear_heard become_follower log_event reset_election_timer
  check_quorum-Watching n = ground arith

  pub tick_role-Watching : (r : Role) (n : Node P) → Watching n (tick_role P r n)
  unfolding tick_role
  tick_role-Watching leader n =
      ground (arith, check_quorum-Watching (heartbeat P n), heartbeat-Watching n)
  tick_role-Watching _ n = ground (arith, begin_election-Watching n)

  watch_peer-is_silent :
      (n : Node P) (x m : NodeId)
      → ((watch_peer P n x).view.owner ≡ n.view.owner)
        × ((watch_peer P n x).id ≡ n.id)
        × (is_silent P (watch_peer P n x) m ≡ is_silent P n m)
  unfolding watch_peer mark_silent observe_silence set_edge is_silent
  watch_peer-is_silent n x m = ground arith

  watch_peer-can_send :
      (n : Node P) (x m : NodeId)
      → n.view.owner ≡ n.id
      → m ≢ n.id
      → can_send (watch_peer P n x).view m n.id
        ≡ (if same x m && is_silent P n m then false else can_send n.view m n.id)
  unfolding watch_peer mark_silent
  watch_peer-can_send n x m owned other = elim (bytes_discrete x m) [
    | yes here ↦ ground (arith, (can_send-observe n.view x m n.id).1)
    | no there ↦ ground (arith, (can_send-observe n.view x m n.id).1)
  ]

  -- A round over the peers cuts the edges from those that are silent, and no other inbound edge.
  watch_peers-can_send :
      (n : Node P) (ms : List NodeId) (m : NodeId)
      → n.view.owner ≡ n.id
      → m ≢ n.id
      → can_send (watch_peers P n ms).view m n.id
        ≡ (if contains ms m && is_silent P n m then false else can_send n.view m n.id)
  unfolding watch_peers contains
  watch_peers-can_send n [] m owned other = refl
  watch_peers-can_send n (x ∷ ms) m owned other = ground (
    arith,
    watch_peers-can_send (watch_peer P n x) ms m,
    watch_peer-can_send n x m owned other,
    watch_peer-is_silent n x m,
  )

  tick_probe-view :
      (n : Node P)
      → n.mode ≡ cross_fault
      → (tick_probe P n).view ≡ (watch_peers P n (members_of P n)).view
  unfolding tick_probe detect_silence
  tick_probe-view n cross =
      let watched = watch_peers P n (members_of P n) in
      ground (arith, broadcast_probe-Kept P (record watched { probe_elapsed = 0 }))

  is_silent-Watching :
      (n n' : Node P) (m : NodeId)
      → Watching n n'
      → n'.settings ≡ n.settings
      → is_silent P n' m ≡ is_silent P n m
  unfolding is_silent
  is_silent-Watching n n' m watching same_settings = ground arith

  can_send-tick_view : (v : View) (a b : NodeId) → can_send (tick_view v) a b ≡ can_send v a b
  unfolding tick_view can_send
  can_send-tick_view v a b = refl

  -- A tick in cross-fault mode does to the inbound edges what detectSilence finds at the new time.
  pub tick-can_send :
      (n : Node P) (m : NodeId)
      → n.mode ≡ cross_fault
      → n.view.owner ≡ n.id
      → m ≢ n.id
      → can_send (tick P n).view m n.id ≡ (
          if contains (members_of P n) m && is_silent P (advance_clock P n) m
          then false
          else can_send n.view m n.id)
  unfolding tick tick_view advance_clock
  tick-can_send n m cross owned other =
      let woken = advance_clock P n in
      let acted = tick_role P n.role woken in
      let watching = tick_role-Watching n.role woken in
      let same_settings = tick_role-settings P n.role woken in
      ground (
        arith,
        tick_probe-view acted,
        watching,
        same_settings,
        watch_peers-can_send acted (members_of P acted) m,
        is_silent-Watching woken acted m watching same_settings,
        can_send-tick_view n.view m n.id,
      )
