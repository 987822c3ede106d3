-- ===== src/Consensus/Node/Guard.antt =====
-- The election guard and the election timer of internal/consensus/node.go.
use crossfault.Prelude.{
  ◌+◌, ◌*◌, ◌<◌, ◌≤◌, ◌≡◌, ◌≢◌, refl, ap, false, List, [], ◌∷◌, NodeId, NodeId-Key, length, leb,
  arith, if◌then◌else◌,
}
use crossfault.Platform.{Platform, PlatformLaws}
use crossfault.Netmatrix.View.{
  View, tick_view, has_bidirectional_quorum, two_way, bidirectional, can_send, view_quorum,
}
use crossfault.Consensus.State.{
  Node, cross_fault, Role, leader, log_event, reset_election_timer, members_of,
}
use crossfault.Consensus.Node.Tick.{
  mark_silent, watch_peer, watch_peers, detect_silence, decline, begin_election, tick_role,
  tick_probe, advance_clock, tick,
}
use crossfault.Consensus.Node.Quiet.{broadcast_probe-Kept}

-- Ageing changes no edge, so it changes nothing that the guard asks.
two_way-tick_view :
    (v : View) (id : NodeId) (ms : List NodeId) → two_way (tick_view v) id ms ≡ two_way v id ms
unfolding two_way tick_view bidirectional can_send
two_way-tick_view v id [] = refl
two_way-tick_view v id (m ∷ ms) = ground (arith, two_way-tick_view v id ms)

pub guard-tick_view :
    (v : View) (id : NodeId)
    → has_bidirectional_quorum (tick_view v) id ≡ has_bidirectional_quorum v id
unfolding has_bidirectional_quorum
guard-tick_view v id =
    unfold tick_view in
    ap (λ ms. leb (view_quorum v) (length ms)) (two_way-tick_view v id v.members)

module _ (P : Platform) where
  -- What watching the peers and probing them leaves alone: the fields in which an election would show,
  -- and the clock.
  pub record Calm (n n' : Node P) : Type 0 where
    pub settings : n'.settings ≡ n.settings
    pub role : n'.role ≡ n.role
    pub current_term : n'.current_term ≡ n.current_term
    pub voted_for : n'.voted_for ≡ n.voted_for
    pub votes : n'.votes ≡ n.votes
    pub elections_started : n'.elections_started ≡ n.elections_started
    pub declined_to_run : n'.declined_to_run ≡ n.declined_to_run
    pub election_elapsed : n'.election_elapsed ≡ n.election_elapsed
    pub election_timeout : n'.election_timeout ≡ n.election_timeout
    pub heard_from : n'.heard_from ≡ n.heard_from
    pub last_heard : n'.last_heard ≡ n.last_heard
    pub tick : n'.tick ≡ n.tick

  pub tick_role_lem :
      (r : Role) (n : Node P)
      → r ≢ leader
      → tick_role P r n
        ≡ (if leb n.election_timeout n.election_elapsed then begin_election P n else n)
  unfolding tick_role
  tick_role_lem leader n h = absurd (h refl)
  tick_role_lem _ n h = refl

  watch_peers-Calm : (n : Node P) (ms : List NodeId) → Calm n (watch_peers P n ms)
  unfolding watch_peers watch_peer mark_silent
  watch_peers-Calm n [] = ground arith
  watch_peers-Calm n (m ∷ ms) = ground (arith, watch_peers-Calm (watch_peer P n m) ms)

  pub tick_probe-Calm : (n : Node P) → Calm n (tick_probe P n)
  unfolding tick_probe detect_silence
  tick_probe-Calm n =
      let watched = watch_peers P n (members_of P n) in
      ground (
        arith,
        watch_peers-Calm n (members_of P n),
        broadcast_probe-Kept P (record watched { probe_elapsed = 0 }),
      )

  -- In cross-fault mode a node that is not the leader and that believes in no two-way links with a
  -- majority never campaigns: a tick leaves its role, its term and its vote as they are, and an
  -- election timeout is counted as declined.
  pub tick-declines :
      (n : Node P)
      → n.mode ≡ cross_fault
      → n.role ≢ leader
      → has_bidirectional_quorum n.view n.id ≡ false
      → let n' = tick P n in
        (n'.role ≡ n.role)
        × (n'.current_term ≡ n.current_term)
        × (n'.voted_for ≡ n.voted_for)
        × (n'.votes ≡ n.votes)
        × (n'.elections_started ≡ n.elections_started)
        × (n'.declined_to_run
            ≡ n.declined_to_run
              + (if leb n.election_timeout (n.election_elapsed + 1) then 1 else 0))
  unfolding tick advance_clock begin_election decline log_event reset_election_timer
  tick-declines n cross not_leading cut =
      let woken = advance_clock P n in
      ground (
        arith,
        tick_role_lem n.role woken not_leading,
        guard-tick_view n.view n.id,
        tick_probe-Calm (tick_role P n.role woken),
      )

  -- The randomised timeout lies in [T, 2T) for a positive base timeout T, and the timer starts anew,
  -- by the platform's law on Intn.
  pub reset_election_timer_bounds :
      PlatformLaws P
      → (n : Node P) → 0 < n.base_election
      → let n' = reset_election_timer P n in
        (n.base_election ≤ n'.election_timeout)
        × (n'.election_timeout < 2 * n.base_election)
        × (n'.election_elapsed ≡ 0)
  unfolding reset_election_timer
  reset_election_timer_bounds laws n positive =
      omega (arith, laws.intn-lt n.rng n.base_election positive)
