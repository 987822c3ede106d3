-- ===== src/Sim/Leaders.antt =====
-- Leader of internal/sim/network.go: whom a proposal goes to.
use crossfault.Prelude.{
  ℕ, ◌+◌, ◌≤◌, ◌≡◌, refl, true, false, some, List, [], ◌∷◌, NodeId, no_node, contains, same_self,
  Bool-cases, inl, inr, arith,
}
use crossfault.Platform.{Platform}
use crossfault.Sim.Network.{Network}
use crossfault.Sim.Cluster.{leads, count_leaders, leader_of}

module _ (P : Platform) where
  count_leaders-le :
      (n : Network P) (ids : List NodeId) (found : NodeId) (count : ℕ)
      → count ≤ (count_leaders P n ids found count).1
  unfolding count_leaders
  count_leaders-le n [] found count = omega arith
  count_leaders-le n (id ∷ ids) found count =
      ground (arith, count_leaders-le n ids id (count + 1), count_leaders-le n ids found count)

  count_leaders_none :
      (n : Network P) (ids : List NodeId) (found : NodeId) (count : ℕ)
      → (count_leaders P n ids found count).1 ≡ count
      → ((count_leaders P n ids found count).0 ≡ found)
        × ((m : NodeId) → contains ids m ≡ true → leads P n m ≡ false)
  unfolding count_leaders contains
  count_leaders_none n [] found count h = (refl, λ m member. absurd (cc))
  count_leaders_none n (id ∷ ids) found count h = elim (Bool-cases (leads P n id)) [
    | inl leader_there ↦ absurd (ground (arith, count_leaders-le n ids id (count + 1)))
    | inr follows ↦
        let rest = count_leaders_none n ids found count (ground arith) in
        (ground (arith, rest.0), λ m member. ground (arith, rest.1 m))
  ]

  count_leaders_one :
      (n : Network P) (ids : List NodeId) (found : NodeId) (count : ℕ)
      → (count_leaders P n ids found count).1 ≡ count + 1
      → let id = (count_leaders P n ids found count).0 in
        (leads P n id ≡ true)
        × (contains ids id ≡ true)
        × ((m : NodeId) → contains ids m ≡ true → leads P n m ≡ true → m ≡ id)
  unfolding count_leaders contains
  count_leaders_one n [] found count h = absurd (omega arith)
  count_leaders_one n (id ∷ ids) found count h = elim (Bool-cases (leads P n id)) [
    | inl leader_there ↦
        let rest = count_leaders_none n ids id (count + 1) (ground arith) in
        (
          ground (arith, rest.0),
          ground (arith, rest.0, same_self id),
          λ m member leads_too. ground (arith, rest.0, rest.1 m),
        )
    | inr follows ↦
        let rest = count_leaders_one n ids found count (ground arith) in
        (
          ground (arith, rest.0),
          ground (arith, rest.1),
          λ m member leads_too. ground (arith, rest.2 m),
        )
  ]

  -- A leader that the network reports is a member, leads, and is the only member that does.
  pub leader_of_only :
      (n : Network P) {id : NodeId}
      → leader_of P n ≡ some id
      → (leads P n id ≡ true)
        × (contains n.order id ≡ true)
        × ((m : NodeId) → contains n.order m ≡ true → leads P n m ≡ true → m ≡ id)
  unfolding leader_of
  leader_of_only n {id} h =
      let one = count_leaders_one n n.order no_node 0 (ground arith) in
      let this : (count_leaders P n n.order no_node 0).0 ≡ id = ground arith in
      (ground (arith, one.0), ground (arith, one.1), λ m member leads_too. ground (arith, one.2 m))
