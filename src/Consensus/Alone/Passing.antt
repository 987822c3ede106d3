-- ===== src/Consensus/Alone/Passing.antt =====
-- What passes with the time of internal/consensus/node.go and what stays, on a node that hears nobody.
use crossfault.Prelude.{All}
use crossfault.Prelude.{
  Option-cases, All-lookup, All, inl, inr, zero, suc, ℕ, ◌+◌, ◌^◌, ◌<◌, ◌≤◌, ◌≡◌, ◌≢◌, subst, sym,
  ap, ◌∙◌, ◌⊎◌, refl, ap, ◌∙◌, true, false, u64, arith, List, [], ◌∷◌, NodeId, NodeId-Key, lookup,
  contains,
}
use crossfault.Platform.{Platform}
use crossfault.Netmatrix.View.{set_edge, tick_view, can_send, observe_silence}
use crossfault.Consensus.State.{Node, cross_fault, members_of}
use crossfault.Consensus.Node.Tick.{
  mark_silent, is_silent, watch_peer, watch_peers, detect_silence, tick_role, tick_probe,
  advance_clock, tick,
}
use crossfault.Consensus.Node.Quiet.{broadcast_probe-Kept}
use crossfault.Consensus.Node.Fixed.{tick-settings}
use crossfault.Consensus.Node.Guard.{tick_probe-Calm}
use crossfault.Consensus.Alone.{ticks, ticks-suc}
use Prim.Native.Nat.{ℕ}
use crossfault.Consensus.Alone.Silence.{tick_role-Watching, tick-can_send}

module _ (P : Platform) where
  watch_peers-roster :
      (n : Node P) (ms : List NodeId)
      → ((watch_peers P n ms).view.owner ≡ n.view.owner)
        × ((watch_peers P n ms).view.members ≡ n.view.members)
  unfolding watch_peers watch_peer mark_silent observe_silence set_edge
  watch_peers-roster n [] = (refl, refl)
  watch_peers-roster n (m ∷ ms) = grind (arith, watch_peers-roster (watch_peer P n m) ms)

  tick_probe-roster :
      (n : Node P)
      → ((tick_probe P n).view.owner ≡ n.view.owner)
        × ((tick_probe P n).view.members ≡ n.view.members)
  unfolding tick_probe detect_silence
  tick_probe-roster n =
      let watched = watch_peers P n (members_of P n) in
      ground (
        arith,
        watch_peers-roster n (members_of P n),
        broadcast_probe-Kept P (record watched { probe_elapsed = 0 }),
      )

  -- What a node knows of its peers, but for the edges, and how a tick moves it.
  pub tick-roster :
      (n : Node P)
      → ((tick P n).view.owner ≡ n.view.owner)
        × ((tick P n).view.members ≡ n.view.members)
        × ((tick P n).last_heard ≡ n.last_heard)
        × ((tick P n).tick ≡ u64 (n.tick + 1))
  unfolding tick tick_view advance_clock
  tick-roster n =
      let woken = advance_clock P n in
      let acted = tick_role P n.role woken in
      ground
        (arith, tick_probe-roster acted, tick_probe-Calm P acted, tick_role-Watching P n.role woken)

  pub ticks-roster :
      (k : ℕ) (n : Node P)
      → n.tick + k < 2 ^ 64
      → let n' = ticks P k n in
        (n'.settings ≡ n.settings)
        × (n'.view.owner ≡ n.view.owner)
        × (n'.view.members ≡ n.view.members)
        × (n'.last_heard ≡ n.last_heard)
        × (n'.tick ≡ n.tick + k)
  unfolding ticks
  ticks-roster zero n room = (refl, refl, refl, refl, omega arith)
  ticks-roster (suc k) n room =
      ground (arith, ticks-roster k (tick P n), tick-roster n, tick-settings P n)

  -- A peer last heard by the time t, or never, is silent once more than the window has passed.
  is_silent_late :
      (n : Node P) (m : NodeId) (t : ℕ)
      → All (λ e. e.1 ≤ t) n.last_heard
      → n.tick < 2 ^ 64
      → t + n.base_election < n.tick
      → is_silent P n m ≡ true
  unfolding is_silent
  is_silent_late n m t before room late = elim (Option-cases (lookup m n.last_heard)) [
    | inl never ↦ ground arith
    | inr (last, found) ↦
        let earlier : last ≤ t = All-lookup (λ e. e.1 ≤ t) m n.last_heard before found in
        ground arith
  ]

  -- A peer's inbound edge is believed down.
  abbrev pub Cut : Node P → Type 0
  Cut n =
      (m : NodeId) → contains (members_of P n) m ≡ true → m ≢ n.id → can_send n.view m n.id ≡ false

  tick-Cut :
      (n : Node P)
      → n.mode ≡ cross_fault
      → n.view.owner ≡ n.id
      → ((m : NodeId)
          → (is_silent P (advance_clock P n) m ≡ true)
            ⊎ ((contains (members_of P n) m ≡ true) → m ≢ n.id → can_send n.view m n.id ≡ false))
      → Cut (tick P n)
  tick-Cut n cross owned down m member other =
      let same_id : (tick P n).id ≡ n.id = ap (λ s. s.id) (tick-settings P n) in
      let same_members : members_of P (tick P n) ≡ members_of P n = (tick-roster n).1 in
      let other' : m ≢ n.id = λ e. other (e ∙ sym same_id) in
      rw same_id (
        ground (
          arith,
          tick-can_send P n m cross owned other',
          down m,
          subst (λ ms. contains ms m ≡ true) same_members member,
        ))

  -- An edge that is down stays down as long as nobody is heard.
  pub tick-Cut_still :
      (n : Node P) → n.mode ≡ cross_fault → n.view.owner ≡ n.id → Cut n → Cut (tick P n)
  tick-Cut_still n cross owned cut = tick-Cut n cross owned (λ m. inr (cut m))

  -- Once silence has lasted for longer than the window, every inbound edge is down.
  pub ticks-Cut :
      (k : ℕ) (n : Node P)
      → n.mode ≡ cross_fault
      → n.view.owner ≡ n.id
      → All (λ e. e.1 ≤ n.tick) n.last_heard
      → n.tick + k < 2 ^ 64
      → n.base_election < k
      → Cut (ticks P k n)
  ticks-Cut zero n cross owned before room late = absurd (omega arith)
  ticks-Cut (suc k) n cross owned before room late =
      let x = ticks P k n in
      let (settings, owner, members, heard, time) = ticks-roster k n (omega arith) in
      let before' : All (λ e. e.1 ≤ n.tick) x.last_heard = rw heard before in
      let window : x.base_election ≡ n.base_election = ap (λ s. s.base_election) settings in
      rw (ticks-suc P k n) (
        tick-Cut x (ap (λ s. s.mode) settings ∙ cross)
          (owner ∙ owned ∙ sym (ap (λ s. s.id) settings))
          (λ m. inl (
            unfold advance_clock in
            is_silent_late (advance_clock P x) m n.tick before' (omega (arith, time))
              (omega (arith, time, window)))))
