-- ===== src/Consensus/Member/Stepping.antt =====
-- Tick and Propose of internal/consensus keep a member a member, and NewNode makes one.
use crossfault.Prelude.{
  ◌*◌, ◌<◌, ◌≤◌, ◌≡◌, ◌⊎◌, refl, List, [], ◌∷◌, Bytes, NodeId, no_node, some, NodeId-Key, arith, ap,
  ◌∙◌, bytes_lt,
}
use crossfault.Prelude.Sorting.{sort}
use crossfault.Platform.{Platform, PlatformLaws}
use crossfault.Netmatrix.View.{new_view}
use crossfault.Consensus.Log.{append}
use crossfault.Consensus.State.{
  Node, Config, Role, baseline, leader, log_event, reset_election_timer, proposed, step_down,
  blank_node, add_peer, add_peers, new_node,
}
use crossfault.Consensus.Node.{clear_heard}
use crossfault.Consensus.Node.Deliver.{propose}
use crossfault.Consensus.Node.Tick.{heartbeat, check_quorum, tick_role, advance_clock, tick}
use crossfault.Consensus.Node.Quiet.{broadcast_append-Kept}
use crossfault.Consensus.Node.Fixed.{
  tick-settings, tick_role-settings, check_quorum-settings, begin_election-settings,
}
use crossfault.Consensus.Node.Guard.{tick_probe-Calm}
use crossfault.Consensus.Alone.Clockwork.{begin_election-Reset}
use crossfault.Consensus.Alone.Passing.{tick-roster}
use crossfault.Consensus.Member.{Member, Timely, TimerSet}
use crossfault.Consensus.Member.Handling.{become_follower-Reset, become_follower-settings}

module _ (P : Platform) (laws : PlatformLaws P) where
  -- A timer that may just have run out, and one that is set.
  abbrev Due : Node P → Type 0
  Due n =
      (0 < n.base_election)
      × (n.base_election ≤ n.election_timeout)
      × (n.election_timeout < 2 * n.base_election)
      × ((n.election_elapsed ≤ n.election_timeout) ⊎ ((n.role ≡ leader) × (n.mode ≡ baseline)))

  heartbeat-Due : (n : Node P) → Due n → Due (heartbeat P n) × ((heartbeat P n).role ≡ n.role)
  unfolding heartbeat
  heartbeat-Due n due = grind (arith, λ (x : Node P). broadcast_append-Kept P x)

  check_quorum-TimerSet : (n : Node P) → n.role ≡ leader → Due n → TimerSet P (check_quorum P n)
  unfolding check_quorum clear_heard log_event
  check_quorum-TimerSet n leads due =
      let deposed = log_event P (record n { election_elapsed = 0 }) step_down in
      ground (
        arith,
        check_quorum-settings P n,
        become_follower-Reset P laws deposed n.current_term no_node,
        become_follower-settings P laws deposed n.current_term no_node,
      )

  tick_role-TimerSet : (r : Role) (n : Node P) → r ≡ n.role → Due n → TimerSet P (tick_role P r n)
  unfolding tick_role
  tick_role-TimerSet leader n now due =
      ground (arith, check_quorum-TimerSet (heartbeat P n), heartbeat-Due n due)
  tick_role-TimerSet _ n now due =
      ground (arith, begin_election-Reset P laws n, begin_election-settings P n)

  -- A tick keeps a member a member, its timer within its bounds.
  pub tick-Member :
      (members : List NodeId) (id : NodeId) (n : Node P)
      → Member P members id n
      → Member P members id (tick P n)
  unfolding tick advance_clock
  tick-Member members id n (itself, owner, roster, timer) =
      let woken = advance_clock P n in
      let acted = tick_role P n.role woken in
      let seat = tick-roster P n in
      (
        ap (λ s. s.id) (tick-settings P n) ∙ itself,
        seat.0 ∙ owner,
        seat.1 ∙ roster,
        ground (
          arith,
          tick_role-TimerSet n.role woken refl,
          tick_role-settings P n.role woken,
          tick_probe-Calm P acted,
        ),
      )

  pub propose-Timely : (n n' : Node P) (cmd : Bytes) → propose P n cmd ≡ some n' → Timely P n n'
  unfolding propose log_event
  propose-Timely n n' cmd done =
      let logged =
        log_event P (record n { log = append P n.log n.current_term cmd }) (proposed cmd) in
      ground (arith, broadcast_append-Kept P logged)

  add_peers-seat :
      (n : Node P) (ms : List NodeId)
      → ((add_peers P n ms).settings ≡ n.settings) × ((add_peers P n ms).view ≡ n.view)
  unfolding add_peers add_peer
  add_peers-seat n [] = (refl, refl)
  add_peers-seat n (m ∷ ms) = grind (arith, add_peers-seat (add_peer P n m) ms)

  pub new_node-Member : (c : Config) → Member P (sort bytes_lt c.members) c.id (new_node P c)
  unfolding new_node blank_node new_view reset_election_timer
  new_node-Member c =
      let blank = blank_node P c in
      let ready = add_peers P blank c.members in
      ground (arith, add_peers-seat blank c.members, laws.intn-lt ready.rng ready.base_election)
