-- ===== src/Consensus/Alone/StepDown.antt =====
-- CheckQuorum of internal/consensus/node.go on a leader that hears nobody.
use crossfault.Prelude.{
  ℕ, zero, suc, ◌+◌, ◌*◌, ◌<◌, ◌≤◌, ◌≡◌, ◌≢◌, ◌⊎◌, inr, refl, ◌∙◌, true, false, [], length, arith,
}
use crossfault.Platform.{Platform, PlatformLaws}
use crossfault.Netmatrix.View.{tick_view}
use crossfault.Consensus.State.{
  Node, baseline, Role, leader, follower, log_event, reset_election_timer, members_of, quorum,
}
use crossfault.Consensus.Node.{become_follower, clear_heard, has_heard_from_quorum, count_marked}
use crossfault.Consensus.Node.Tick.{heartbeat, check_quorum, tick_role, advance_clock, tick}
use crossfault.Consensus.Node.Quiet.{broadcast_append-Kept}
use crossfault.Consensus.Node.Fixed.{tick-settings}
use crossfault.Consensus.Node.Guard.{tick_probe-Calm}
use crossfault.Consensus.Alone.{ticks}
use crossfault.Consensus.Alone.Clockwork.{tick-patient}
use crossfault.Consensus.Alone.Passing.{tick-roster}

module _ (P : Platform) where
  -- What a heartbeat leaves as it was.
  heartbeat-Watch :
      (n : Node P)
      → let n' = heartbeat P n in
        (n'.role ≡ n.role)
        × (n'.settings ≡ n.settings)
        × (n'.current_term ≡ n.current_term)
        × (n'.heard_from ≡ n.heard_from)
        × (n'.view ≡ n.view)
        × (n'.election_elapsed ≡ n.election_elapsed)
        × (n'.election_timeout ≡ n.election_timeout)
  unfolding heartbeat
  heartbeat-Watch n = grind (arith, λ (x : Node P). broadcast_append-Kept P x)

  -- How CheckQuorum treats a leader whose timer shows `elapsed`: the timer runs on, or it starts anew,
  -- forgets who was heard, and deposes a leader that had not heard a majority.
  abbrev Checked : ℕ → Node P → Node P → Type 0
  Checked elapsed n n' =
      ((elapsed < n.election_timeout)
        × (n'.role ≡ leader)
        × (n'.heard_from ≡ n.heard_from)
        × (n'.election_elapsed ≡ elapsed)
        × (n'.election_timeout ≡ n.election_timeout))
      ⊎ (((n.election_timeout ≤ elapsed)
            × (has_heard_from_quorum P n ≡ true)
            × (n'.role ≡ leader)
            × (n'.heard_from ≡ [])
            × (n'.election_elapsed ≡ 0)
            × (n'.election_timeout ≡ n.election_timeout))
          ⊎ (n'.role ≡ follower))

  check_quorum-Checked :
      (n : Node P)
      → n.mode ≢ baseline
      → n.role ≡ leader
      → Checked n.election_elapsed n (check_quorum P n)
        × ((check_quorum P n).current_term ≡ n.current_term)
  unfolding check_quorum become_follower log_event reset_election_timer clear_heard
      has_heard_from_quorum quorum
  check_quorum-Checked n checks leads = ground arith

  tick_role-Checked :
      (r : Role) (n : Node P)
      → n.mode ≢ baseline
      → r ≡ leader
      → n.role ≡ leader
      → let n' = tick_role P r n in
        Checked n.election_elapsed n n' × (n'.current_term ≡ n.current_term)
  unfolding tick_role has_heard_from_quorum quorum
  tick_role-Checked leader n checks _ leads =
      ground (arith, check_quorum-Checked (heartbeat P n), heartbeat-Watch n)
  tick_role-Checked _ n checks itself leads = absurd (ground arith)

  tick-Checked :
      (n : Node P)
      → n.mode ≢ baseline
      → n.role ≡ leader
      → Checked (n.election_elapsed + 1) n (tick P n) × ((tick P n).current_term ≡ n.current_term)
  unfolding tick tick_view advance_clock has_heard_from_quorum quorum
  tick-Checked n checks leads =
      let woken = advance_clock P n in
      ground (
        arith,
        tick_role-Checked n.role woken checks leads leads,
        tick_probe-Calm P (tick_role P n.role woken),
      )

  -- What has `k` ticks to go until it no longer leads, of a leader with timeout `t`.
  abbrev Countdown : Node P → ℕ → Node P → Type 0
  Countdown from k n =
      (n.settings ≡ from.settings)
      × (members_of P n ≡ members_of P from)
      × (n.current_term ≡ from.current_term)
      × ((n.role ≢ leader)
          ⊎ ((n.role ≡ leader)
              × (n.election_timeout ≡ from.election_timeout)
              × (n.election_elapsed < from.election_timeout)
              × (((n.heard_from ≡ []) × (from.election_timeout ≤ n.election_elapsed + k))
                  ⊎ (2 * from.election_timeout ≤ n.election_elapsed + k))))

  heard_nobody :
      (n : Node P)
      → 2 ≤ length (members_of P n)
      → n.heard_from ≡ []
      → has_heard_from_quorum P n ≡ false
  unfolding has_heard_from_quorum quorum count_marked
  heard_nobody n several nobody = rw nobody (ground arith)

  tick-Countdown :
      PlatformLaws P
      → (from : Node P) → 0 < from.base_election
      → from.mode ≢ baseline
      → 2 ≤ length (members_of P from)
      → (k : ℕ) (n : Node P) → Countdown from (suc k) n
      → Countdown from k (tick P n)
  tick-Countdown laws from positive checks several k n (settings, members, term, count) =
      let checks' : n.mode ≢ baseline = λ e. checks (ground arith) in
      (
        tick-settings P n ∙ settings,
        (tick-roster P n).1 ∙ members,
        ground (
          arith,
          tick-Checked n checks',
          tick-patient P laws n (rw settings positive) checks',
          count,
        ),
        ground (
          arith,
          tick-Checked n checks',
          tick-patient P laws n (rw settings positive) checks',
          heard_nobody n (rw members several),
          count,
        ),
      )

  ticks-Countdown :
      PlatformLaws P
      → (from : Node P) → 0 < from.base_election
      → from.mode ≢ baseline
      → 2 ≤ length (members_of P from)
      → (k : ℕ) (n : Node P) → Countdown from k n
      → Countdown from 0 (ticks P k n)
  unfolding ticks
  ticks-Countdown laws from positive checks several zero n count = count
  ticks-Countdown laws from positive checks several (suc k) n count =
      ticks-Countdown laws from positive checks several k (tick P n)
        (tick-Countdown laws from positive checks several k n count)

  -- Outside baseline mode a leader that hears nobody gives up its leadership within two of its election
  -- timeouts, keeps its term, and does not lead again. Its timer is running, and the roster has two
  -- members or more.
  pub ticks_step_down :
      PlatformLaws P
      → (k : ℕ) (n : Node P) → 0 < n.base_election
      → n.mode ≢ baseline
      → n.role ≡ leader
      → 2 ≤ length (members_of P n)
      → n.election_elapsed < n.election_timeout
      → 2 * n.election_timeout ≤ k
      → let n' = ticks P k n in (n'.role ≢ leader) × (n'.current_term ≡ n.current_term)
  ticks_step_down laws k n positive checks leads several running enough =
      let (settings, members, term, ended) =
        ticks-Countdown laws n positive checks several k n
          (refl, refl, refl, inr (leads, refl, running, inr (omega arith))) in
      (ground (arith, ended), term)
