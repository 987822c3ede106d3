-- ===== src/Consensus/Alone/Livelock.antt =====
-- The livelock that internal/consensus/node.go describes at beginElection: baseline Raft on a node that
-- hears nobody.
use crossfault.Prelude.{suc, ◌+◌, ◌*◌, ◌^◌, ◌<◌, ◌≤◌, ◌≡◌, ◌≢◌, ◌⊎◌, refl, ℕ, arith}
use crossfault.Platform.{Platform, PlatformLaws}
use crossfault.Consensus.State.{Node, baseline, leader}
use crossfault.Consensus.Node.Tick.{tick}
use crossfault.Consensus.Node.Fixed.{tick-settings}
use crossfault.Consensus.Alone.{ticks, ticks-beats}
use crossfault.Consensus.Alone.Clockwork.{tick-baseline}

module _ (P : Platform) where
  -- A node that does not lead, with its timer within its bounds, and room for the terms of `k` ticks.
  abbrev Restless : ℕ → ℕ → Node P → Type 0
  Restless base k n =
      (n.role ≢ leader)
      × (n.mode ≡ baseline)
      × (n.base_election ≡ base)
      × (n.election_elapsed < 2 * base)
      × (n.election_timeout ≤ 2 * base)
      × (n.current_term + k < 2 ^ 64)

  tick-Restless :
      PlatformLaws P
      → (base : ℕ) → 0 < base
      → (k : ℕ) (n : Node P) → Restless base (suc k) n
      → let n' = tick P n in
        Restless base k n'
        × (((n'.current_term ≡ n.current_term + 1) × (n'.election_elapsed ≡ 0))
            ⊎ ((n'.current_term ≡ n.current_term) × (n'.election_elapsed ≡ n.election_elapsed + 1)))
  tick-Restless laws base positive k n (behind, in_baseline, same_base, early, short, room) =
      ground (arith, tick-baseline P laws n (omega arith) in_baseline behind, tick-settings P n)

  -- In baseline mode a node that hears nobody and does not lead campaigns forever: as long as its clock
  -- is all that moves it, each stretch of twice the base timeout raises its term at least once, and it
  -- never leads. Its timer stands within its bounds at the start, and uint64 has room for the terms.
  pub ticks-livelock :
      PlatformLaws P
      → (j k : ℕ) (n : Node P) → 0 < n.base_election
      → n.mode ≡ baseline
      → n.role ≢ leader
      → n.election_elapsed < 2 * n.base_election
      → n.election_timeout ≤ 2 * n.base_election
      → n.current_term + k < 2 ^ 64
      → j * (2 * n.base_election) ≤ k + n.election_elapsed
      → let n' = ticks P k n in (n.current_term + j ≤ n'.current_term) × (n'.role ≢ leader)
  ticks-livelock laws j k n positive base behind early short room enough =
      let beats =
        ticks-beats P (Restless n.base_election) (λ x. x.current_term) (2 * n.base_election)
          (λ i x r. r.3) (tick-Restless laws n.base_election positive) j k n
          (behind, base, refl, early, short, room) enough in
      (beats.0, beats.1.0)
