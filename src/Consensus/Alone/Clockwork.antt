-- ===== src/Consensus/Alone/Clockwork.antt =====
-- One tick of a replica that does not lead, and of one that does, as internal/consensus/node.go makes
-- it: what becomes of the timer, the term and the counters.
use crossfault.Prelude.{◌+◌, ◌*◌, ◌<◌, ◌≤◌, ◌≡◌, ◌≢◌, ◌⊎◌, Bool, ap, false, true, u64, arith}
use crossfault.Platform.{Platform, PlatformLaws}
use crossfault.Consensus.State.{
  Node, baseline, leader, candidate, pre_candidate, log_event, reset_election_timer,
}
use crossfault.Consensus.Node.{start_campaign}
use crossfault.Consensus.Node.Tick.{
  decline, straw_poll, begin_election, tick_role, advance_clock, tick,
}
use crossfault.Consensus.Node.Quiet.{broadcast_vote_req-Kept}
use crossfault.Consensus.Node.Guard.{tick_role_lem, tick_probe-Calm}

module _ (P : Platform) where
  -- The timer after a reset.
  abbrev pub Reset : Node P → Node P → Type 0
  Reset n n' =
      (n'.election_elapsed ≡ 0)
      × (n.base_election ≤ n'.election_timeout)
      × (n'.election_timeout < 2 * n.base_election)

  pub start_campaign-Reset :
      PlatformLaws P
      → (n : Node P) (after : Bool) → 0 < n.base_election
      → let n' = start_campaign P n after in
        Reset n n'
        × (n'.role ≡ candidate)
        × (n'.current_term ≡ u64 (n.current_term + 1))
        × (n'.elections_started ≡ n.elections_started)
  unfolding start_campaign log_event reset_election_timer
  start_campaign-Reset laws n after positive =
      let short = laws.intn-lt n.rng n.base_election positive in
      let k = broadcast_vote_req-Kept P _ false in
      (
        (
          k.election_elapsed,
          omega (arith, k.election_timeout),
          omega (arith, k.election_timeout, short),
        ),
        k.role,
        k.current_term,
        ap (λ c. c.elections_started) k.counters,
      )

  straw_poll-Reset :
      PlatformLaws P
      → (n : Node P) → 0 < n.base_election
      → let n' = straw_poll P n in
        Reset n n'
        × (n'.role ≡ pre_candidate)
        × (n'.current_term ≡ n.current_term)
        × (n'.voted_for ≡ n.voted_for)
  unfolding straw_poll log_event reset_election_timer
  straw_poll-Reset laws n positive =
      let short = laws.intn-lt n.rng n.base_election positive in
      let k = broadcast_vote_req-Kept P _ true in
      (
        (
          k.election_elapsed,
          omega (arith, k.election_timeout),
          omega (arith, k.election_timeout, short),
        ),
        k.role,
        k.current_term,
        k.voted_for,
      )

  -- However it comes out, an election that is due sets the timer anew.
  pub begin_election-Reset :
      PlatformLaws P → (n : Node P) → 0 < n.base_election → Reset n (begin_election P n)
  unfolding begin_election decline log_event reset_election_timer
  begin_election-Reset laws n positive =
      let started = record n {
        counters = record (n.counters) { elections_started = n.elections_started + 1 };
      } in
      ground (
        arith,
        laws.intn-lt n.rng n.base_election positive,
        straw_poll-Reset laws started positive,
        start_campaign-Reset laws started false positive,
      )

  -- A tick of a node in baseline mode that does not lead either only counts, or campaigns.
  pub tick-baseline :
      PlatformLaws P
      → (n : Node P) → 0 < n.base_election
      → n.mode ≡ baseline
      → n.role ≢ leader
      → let n' = tick P n in
        (n'.role ≢ leader)
        × (((n.election_timeout ≤ n.election_elapsed + 1)
              × Reset n n'
              × (n'.role ≡ candidate)
              × (n'.current_term ≡ u64 (n.current_term + 1)))
            ⊎ ((n.election_elapsed + 1 < n.election_timeout)
                × (n'.election_elapsed ≡ n.election_elapsed + 1)
                × (n'.election_timeout ≡ n.election_timeout)
                × (n'.current_term ≡ n.current_term)))
  unfolding tick advance_clock begin_election
  tick-baseline laws n positive base not_leading =
      let woken = advance_clock P n in
      let started = record woken {
        counters = record (woken.counters) { elections_started = woken.elections_started + 1 };
      } in
      ground (
        arith,
        tick_role_lem P n.role woken not_leading,
        start_campaign-Reset laws started false positive,
        tick_probe-Calm P (tick_role P n.role woken),
      )

  -- Outside baseline mode a node that does not lead keeps its term and its vote, whatever its timer
  -- makes it do.
  pub tick-patient :
      PlatformLaws P
      → (n : Node P) → 0 < n.base_election
      → n.mode ≢ baseline
      → n.role ≢ leader
      → let n' = tick P n in
        (n'.role ≢ leader)
        × (n'.current_term ≡ n.current_term)
        × (n'.voted_for ≡ n.voted_for)
        × (((n.election_timeout ≤ n.election_elapsed + 1) × Reset n n')
            ⊎ ((n.election_elapsed + 1 < n.election_timeout)
                × (n'.election_elapsed ≡ n.election_elapsed + 1)
                × (n'.election_timeout ≡ n.election_timeout)))
  unfolding tick advance_clock begin_election decline log_event reset_election_timer
  tick-patient laws n positive other behind =
      let woken = advance_clock P n in
      let started = record woken {
        counters = record (woken.counters) { elections_started = woken.elections_started + 1 };
      } in
      ground (
        arith,
        tick_role_lem P n.role woken behind,
        straw_poll-Reset laws started positive,
        laws.intn-lt n.rng n.base_election positive,
        tick_probe-Calm P (tick_role P n.role woken),
      )
