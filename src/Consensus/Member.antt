-- ===== src/Consensus/Member.antt =====
-- A member of the cluster under internal/consensus: whose it is, whom it knows, and its election timer.
pub mod Handling
pub mod Stepping
pub mod Linked
use crossfault.Prelude.{◌*◌, ◌<◌, ◌≤◌, ◌≡◌, ◌≢◌, ◌⊎◌, arith, List, NodeId}
use crossfault.Platform.{Platform}
use crossfault.Consensus.State.{Node, baseline, leader, members_of}

module _ (P : Platform) where
  -- The election timer runs within its bounds. Only a leader in baseline mode lets it run on.
  abbrev pub TimerSet : Node P → Type 0
  TimerSet n =
      (0 < n.base_election)
      × (n.base_election ≤ n.election_timeout)
      × (n.election_timeout < 2 * n.base_election)
      × ((n.election_elapsed < n.election_timeout) ⊎ ((n.role ≡ leader) × (n.mode ≡ baseline)))

  -- The replica of member `id` in a cluster of `members`.
  abbrev pub Member : List NodeId → NodeId → Node P → Type 0
  Member members id n = (n.id ≡ id) × (n.view.owner ≡ id) × (members_of P n ≡ members) × TimerSet n

  -- What an operation may do to a member: it keeps its settings and its roster, and it leaves the timer
  -- alone or sets it anew.
  abbrev pub Timely : Node P → Node P → Type 0
  Timely n n' =
      (n'.settings ≡ n.settings)
      × (n'.view.owner ≡ n.view.owner)
      × (members_of P n' ≡ members_of P n)
      × (((n'.election_elapsed ≡ n.election_elapsed)
            × (n'.election_timeout ≡ n.election_timeout)
            × ((n'.role ≡ n.role) ⊎ (n.role ≢ leader)))
          ⊎ ((n'.election_elapsed ≡ 0)
              × (n.base_election ≤ n'.election_timeout)
              × (n'.election_timeout < 2 * n.base_election)))

  pub Timely-Member :
      (members : List NodeId) (id : NodeId) (n n' : Node P)
      → Timely n n'
      → Member members id n
      → Member members id n'
  Timely-Member members id n n' timely member = ground arith
