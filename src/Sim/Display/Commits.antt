-- ===== src/Sim/Display/Commits.antt =====
-- The highest commit index of a frame of internal/sim/snapshot.go.
use crossfault.Prelude.{ℕ, ◌≤◌, ◌≡◌, refl, ◌⊎◌, inl, List, [], ◌∷◌, All, ltb, if◌then◌else◌, arith}
use crossfault.Platform.{Platform}
use crossfault.Consensus.State.{Mode}
use crossfault.Consensus.Snapshot.{Snapshot}
use crossfault.Sim.Network.{Network}
use crossfault.Sim.Display.{highest_commit, state_of}

-- One of the snapshots has the commit index.
abbrev pub Attains : ℕ → List Snapshot → Type 0
Attains c [] = ⊥
Attains c (s ∷ ss) = (s.commit_index ≡ c) ⊎ Attains c ss

highest_commit-ge : (top : ℕ) (ss : List Snapshot) → top ≤ highest_commit top ss
unfolding highest_commit
highest_commit-ge top [] = omega arith
highest_commit-ge top (s ∷ ss) =
    ground (arith, highest_commit-ge s.commit_index ss, highest_commit-ge top ss)

highest_commit_bound :
    (top : ℕ) (ss : List Snapshot) → All (λ s. s.commit_index ≤ highest_commit top ss) ss
unfolding highest_commit
highest_commit_bound top [] = tt
highest_commit_bound top (s ∷ ss) =
    let next = if ltb top s.commit_index then s.commit_index else top in
    (ground (arith, highest_commit-ge next ss), highest_commit_bound next ss)

highest_commit-Attains :
    (top : ℕ) (ss : List Snapshot)
    → (highest_commit top ss ≡ top) ⊎ Attains (highest_commit top ss) ss
unfolding highest_commit
highest_commit-Attains top [] = inl refl
highest_commit-Attains top (s ∷ ss) =
    ground (arith, highest_commit-Attains s.commit_index ss, highest_commit-Attains top ss)

module _ (P : Platform) where
  -- The highest commit index of a frame is at least that of every node in it, and is 0 or that of one
  -- of them.
  pub state_of_max_commit :
      (n : Network P) (mode : Mode)
      → let s = state_of P n mode in
        All (λ x. x.commit_index ≤ s.max_commit) s.nodes
        × ((s.max_commit ≡ 0) ⊎ Attains s.max_commit s.nodes)
  unfolding state_of
  state_of_max_commit n mode = (highest_commit_bound 0 _, highest_commit-Attains 0 _)
