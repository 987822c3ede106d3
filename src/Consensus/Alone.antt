-- ===== src/Consensus/Alone.antt =====
-- A replica that hears from nobody: nothing but its own clock moves it, so its life is a run of calls
-- of Tick in internal/consensus/node.go.
pub mod Clockwork
pub mod Livelock
pub mod Silence
pub mod Passing
pub mod Standstill
pub mod StepDown
use crossfault.Prelude.{ℕ, zero, suc, ◌+◌, ◌*◌, ◌<◌, ◌≤◌, ◌≡◌, ◌⊎◌, refl, arith}
use crossfault.Platform.{Platform}
use crossfault.Consensus.State.{Node}
use crossfault.Consensus.Node.Tick.{tick}

module _ (P : Platform) where
  unfoldable pub ticks : ℕ → Node P → Node P
  ticks zero n = n
  ticks (suc k) n = ticks k (tick P n)

  pub ticks-suc : (k : ℕ) (n : Node P) → ticks (suc k) n ≡ tick P (ticks k n)
  unfolding ticks
  ticks-suc zero n = refl
  ticks-suc (suc k) n = ticks-suc k (tick P n)

  -- A count that goes up whenever the election timer starts anew, which happens within every `w` ticks.
  -- `Q k` holds of a node that has `k` ticks to go.
  module _ (Q : ℕ → Node P → Type 0) (count : Node P → ℕ) (w : ℕ)
      (early : (k : ℕ) (n : Node P) → Q k n → n.election_elapsed < w)
      (beat : (k : ℕ) (n : Node P)
        → Q (suc k) n
        → let n' = tick P n in
          Q k n'
          × (((count n' ≡ count n + 1) × (n'.election_elapsed ≡ 0))
              ⊎ ((count n' ≡ count n) × (n'.election_elapsed ≡ n.election_elapsed + 1)))) where
    one_more : (j : ℕ) → suc j * w ≡ w + j * w
    one_more j = omega arith

    pub ticks-beats :
        (j k : ℕ) (n : Node P)
        → Q k n
        → j * w ≤ k + n.election_elapsed
        → let n' = ticks k n in (count n + j ≤ count n') × Q 0 n'
    unfolding ticks
    ticks-beats zero zero n q enough = (omega arith, q)
    ticks-beats (suc j) zero n q enough = absurd (omega (arith, one_more j, early 0 n q))
    ticks-beats zero (suc k) n q enough =
        let (q', moved) = beat k n q in ground (arith, ticks-beats zero k (tick P n) q')
    ticks-beats (suc j) (suc k) n q enough =
        let (q', moved) = beat k n q in
        ground (
          arith,
          one_more j,
          early (suc k) n q,
          ticks-beats j k (tick P n) q',
          ticks-beats (suc j) k (tick P n) q',
        )
