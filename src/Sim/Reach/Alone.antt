-- ===== src/Sim/Reach/Alone.antt =====
-- A replica of a running cluster of internal/sim/network.go that no message reaches any more.
use crossfault.Prelude.{
  ℕ, ◌+◌, ◌*◌, ◌^◌, ◌<◌, ◌≤◌, ◌≡◌, ◌≢◌, refl, sym, ◌∙◌, some, List, [], ◌∷◌, NodeId, NodeId-Key,
  bytes_lt, lookup, All, All-lookup, times_named, length, arith,
}
use crossfault.Prelude.Sorting.{place, sort, length-sort}
use crossfault.Platform.{Platform, PlatformLaws}
use crossfault.Consensus.State.{Node, cross_fault, leader}
use crossfault.Consensus.Alone.{ticks}
use crossfault.Consensus.Alone.Standstill.{ticks_stand_down}
use crossfault.Sim.Network.{Network}
use crossfault.Sim.Reach.{Reachable}
use crossfault.Sim.Reach.Members.{Seat, Reachable-Seat}

times_named-place :
    (a x : NodeId) (ms : List NodeId) → times_named a (place bytes_lt x ms) ≡ times_named a (x ∷ ms)
unfolding place times_named
times_named-place a x [] = refl
times_named-place a x (m ∷ ms) = ground (arith, times_named-place a x ms)

times_named-sort :
    (a : NodeId) (ms : List NodeId) → times_named a (sort bytes_lt ms) ≡ times_named a ms
unfolding sort times_named
times_named-sort a [] = refl
times_named-sort a (m ∷ ms) =
    omega (arith, times_named-place a m (sort bytes_lt ms), times_named-sort a ms)

module _ (P : Platform) where
  -- In every network that a cross-fault cluster of two or more can come to, a member that does not lead
  -- and that no further message reaches stands down for good: after `w` ticks of its own, more than the
  -- silence window, it starts no further election and changes neither its role nor its term nor its
  -- vote, while each stretch of twice the base timeout counts at least one declined election. Its name
  -- is in the roster once, what it heard it heard before, and its tick counter does not wrap in the
  -- first `w` ticks.
  pub Reachable_stands_down :
      PlatformLaws P
      → (w j k : ℕ) (net : Network P) (id : NodeId) (n : Node P) → Reachable P net
      → lookup id net.nodes ≡ some n
      → times_named id net.order ≤ 1
      → 2 ≤ length net.order
      → n.mode ≡ cross_fault
      → n.role ≢ leader
      → All (λ e. e.1 ≤ n.tick) n.last_heard
      → n.base_election < w
      → n.tick + w < 2 ^ 64
      → j * (2 * n.base_election) ≤ k
      → let cut = ticks P w n in
        let later = ticks P k cut in
        (later.elections_started ≡ cut.elections_started)
        × (later.role ≡ cut.role)
        × (later.current_term ≡ n.current_term)
        × (later.voted_for ≡ n.voted_for)
        × (cut.declined_to_run + j ≤ later.declined_to_run)
  Reachable_stands_down laws w j k net id n r found once several cross behind before late room
        enough =
      let (member, linked) =
        All-lookup (Seat P net.order) id net.nodes (Reachable-Seat P laws net r) found in
      let (itself, owner, roster, timer) = member in
      ticks_stand_down P laws w j k n timer.0 cross behind
        (
          owner ∙ sym itself,
          rw (itself, roster, times_named-sort id net.order) once,
          rw (roster, length-sort bytes_lt net.order) several,
        )
        (ground (arith, timer)) (omega (arith, timer)) before late room enough
