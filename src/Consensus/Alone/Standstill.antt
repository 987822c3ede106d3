-- ===== src/Consensus/Alone/Standstill.antt =====
-- The election guard of internal/consensus/node.go on a node that hears nobody: it stands down each
-- time its timer runs out, where baseline Raft would campaign.
use crossfault.Prelude.{
  ℕ, zero, suc, ◌^◌, ◌<◌, All, refl, ◌+◌, ◌*◌, ◌<◌, ◌≤◌, ◌≡◌, ◌≢◌, ◌⊎◌, sym, ap, ◌∙◌, true, false,
  List, [], ◌∷◌, NodeId, NodeId-Key, contains, times_named, length, arith,
}
use crossfault.Platform.{Platform, PlatformLaws}
use crossfault.Netmatrix.View.{
  View, can_send, bidirectional, two_way, bidirectional_peers, view_quorum,
  has_bidirectional_quorum,
}
use crossfault.Consensus.State.{Node, baseline, cross_fault, leader, members_of}
use crossfault.Consensus.Node.Tick.{tick}
use crossfault.Consensus.Node.Fixed.{tick-settings}
use crossfault.Consensus.Node.Guard.{tick-declines}
use crossfault.Consensus.Alone.{ticks, ticks-beats}
use crossfault.Consensus.Alone.Clockwork.{tick-patient}
use crossfault.Consensus.Alone.Passing.{Cut, tick-Cut_still, ticks-Cut, tick-roster, ticks-roster}

two_way-le :
    (v : View) (id : NodeId) (ms : List NodeId)
    → ((m : NodeId) → contains ms m ≡ true → m ≢ id → can_send v m id ≡ false)
    → length (two_way v id ms) ≤ times_named id ms
unfolding two_way times_named bidirectional contains
two_way-le v id [] cut = omega arith
two_way-le v id (m ∷ ms) cut =
    ground (arith, two_way-le v id ms (λ x member. cut x (ground arith)), cut m (ground arith))

module _ (P : Platform) where
  -- A node that hears no other member has no two-way majority, if the roster names it at most once and
  -- names somebody else.
  Cut-guard :
      (n : Node P)
      → Cut P n
      → times_named n.id (members_of P n) ≤ 1
      → 2 ≤ length (members_of P n)
      → has_bidirectional_quorum n.view n.id ≡ false
  unfolding has_bidirectional_quorum bidirectional_peers view_quorum
  Cut-guard n cut once several = ground (arith, two_way-le n.view n.id (members_of P n) cut)

  -- A node that waits on its own: `ran` elections started, in term `term`, with its timer within its
  -- bounds.
  abbrev Waiting : Node P → Node P → Type 0
  Waiting from n =
      (n.role ≡ from.role)
      × (n.current_term ≡ from.current_term)
      × (n.voted_for ≡ from.voted_for)
      × (n.elections_started ≡ from.elections_started)
      × (n.settings ≡ from.settings)
      × (members_of P n ≡ members_of P from)
      × (n.view.owner ≡ from.view.owner)
      × (n.election_elapsed < 2 * from.base_election)
      × (n.election_timeout ≤ 2 * from.base_election)
      × Cut P n

  -- A cluster member as its own roster has it.
  abbrev Seated : Node P → Type 0
  Seated n =
      (n.view.owner ≡ n.id)
      × (times_named n.id (members_of P n) ≤ 1)
      × (2 ≤ length (members_of P n))

  Waiting-guard :
      (from n : Node P)
      → Seated from
      → Waiting from n
      → has_bidirectional_quorum n.view n.id ≡ false
  Waiting-guard from n (owned, once, several) w =
      let same_id : n.id ≡ from.id = ap (λ s. s.id) w.4 in
      Cut-guard n w.9 (rw (same_id, w.5) once) (rw w.5 several)

  tick-Waiting :
      PlatformLaws P
      → (from : Node P) → 0 < from.base_election
      → from.mode ≡ cross_fault
      → from.role ≢ leader
      → Seated from
      → (n : Node P) → Waiting from n
      → let n' = tick P n in
        Waiting from n'
        × (((n'.declined_to_run ≡ n.declined_to_run + 1) × (n'.election_elapsed ≡ 0))
            ⊎ ((n'.declined_to_run ≡ n.declined_to_run)
                × (n'.election_elapsed ≡ n.election_elapsed + 1)))
  tick-Waiting laws from positive cross behind seated n w =
      let guard = Waiting-guard from n seated w in
      let window : n.base_election ≡ from.base_election = ap (λ s. s.base_election) w.4 in
      let cross' : n.mode ≡ cross_fault = ap (λ s. s.mode) w.4 ∙ cross in
      let behind' : n.role ≢ leader = λ e. behind (sym w.0 ∙ e) in
      let owned : n.view.owner ≡ n.id = w.6 ∙ seated.0 ∙ sym (ap (λ s. s.id) w.4) in
      let cut' = tick-Cut_still P n cross' owned w.9 in
      let same = tick-declines P n cross' behind' guard in
      let timer = tick-patient P laws n (omega (arith, window)) (λ e. ground arith) behind' in
      (
        (
          same.0 ∙ w.0,
          same.1 ∙ w.1,
          same.2 ∙ w.2,
          same.4 ∙ w.3,
          tick-settings P n ∙ w.4,
          (tick-roster P n).1 ∙ w.5,
          (tick-roster P n).0 ∙ w.6,
          ground (arith, timer, window, w.7),
          ground (arith, timer, window, w.8),
          cut',
        ),
        ground (arith, timer, same.5),
      )

  -- What no tick takes from a node that does not lead outside baseline mode.
  abbrev Patient : Node P → Node P → Type 0
  Patient from n =
      (n.role ≢ leader)
      × (n.settings ≡ from.settings)
      × (n.current_term ≡ from.current_term)
      × (n.voted_for ≡ from.voted_for)
      × (n.election_elapsed < 2 * from.base_election)
      × (n.election_timeout ≤ 2 * from.base_election)

  tick-Patient :
      PlatformLaws P
      → (from : Node P) → 0 < from.base_election
      → from.mode ≢ baseline
      → (n : Node P) → Patient from n
      → Patient from (tick P n)
  tick-Patient laws from positive other n (behind, kept, term, vote, early, short) =
      ground
        (arith, tick-patient P laws n (rw kept positive) (rw kept other) behind, tick-settings P n)

  ticks-Patient :
      PlatformLaws P
      → (from : Node P) → 0 < from.base_election
      → from.mode ≢ baseline
      → (k : ℕ) (n : Node P) → Patient from n
      → Patient from (ticks P k n)
  unfolding ticks
  ticks-Patient laws from positive other zero n p = p
  ticks-Patient laws from positive other (suc k) n p =
      ticks-Patient laws from positive other k (tick P n)
        (tick-Patient laws from positive other n p)

  -- In cross-fault mode a node that does not lead and hears nobody stands down for good: after `w`
  -- ticks, more than the silence window, it starts no further election and changes neither its role nor
  -- its term nor its vote, while each stretch of twice the base timeout counts at least one declined
  -- election; and its term and its vote are those it had when it was last heard. The node is listed
  -- once in a roster of two or more, its timer stands within its bounds, and it heard its peers before.
  pub ticks_stand_down :
      PlatformLaws P
      → (w j k : ℕ) (n : Node P) → 0 < n.base_election
      → n.mode ≡ cross_fault
      → n.role ≢ leader
      → Seated n
      → n.election_elapsed < 2 * n.base_election
      → n.election_timeout ≤ 2 * n.base_election
      → All (λ e. e.1 ≤ n.tick) n.last_heard
      → n.base_election < w
      → n.tick + w < 2 ^ 64
      → j * (2 * n.base_election) ≤ k
      → let cut = ticks P w n in
        let later = ticks P k cut in
        (later.elections_started ≡ cut.elections_started)
        × (later.role ≡ cut.role)
        × (later.current_term ≡ n.current_term)
        × (later.voted_for ≡ n.voted_for)
        × (cut.declined_to_run + j ≤ later.declined_to_run)
  ticks_stand_down laws w j k n positive cross behind seated early short before late room enough =
      let cut = ticks P w n in
      let p =
        ticks-Patient laws n positive (λ e. ground arith) w n
          (behind, refl, refl, refl, early, short) in
      let (settings, owner, members, heard, time) = ticks-roster P w n room in
      let window : cut.base_election ≡ n.base_election = ap (λ s. s.base_election) settings in
      let same_id : cut.id ≡ n.id = ap (λ s. s.id) settings in
      let seated' : Seated cut =
        (owner ∙ seated.0 ∙ sym same_id, rw (same_id, members) seated.1, rw members seated.2) in
      let down = ticks-Cut P w n cross seated.0 before room late in
      let (beats, w') =
        ticks-beats P (λ i. Waiting cut) (λ x. x.declined_to_run) (2 * cut.base_election)
          (λ i x q. q.7)
          (λ i x q.
            tick-Waiting laws cut (rw window positive) (ap (λ s. s.mode) settings ∙ cross) p.0
              seated' x q)
          j k cut (refl, refl, refl, refl, refl, refl, refl, rw window p.4, rw window p.5, down)
          (rw window (omega arith)) in
      (w'.3, w'.0, w'.1 ∙ p.2, w'.2 ∙ p.3, beats)
