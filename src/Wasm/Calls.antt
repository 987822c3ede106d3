-- ===== src/Wasm/Calls.antt =====
-- What the calls of cmd/wasm/main.go promise to the page.
use crossfault.Prelude.{
  ℕ, zero, suc, ◌+◌, ◌≤◌, ◌≡◌, ◌≢◌, ◌↔◌, ◌⊎◌, inl, inr, refl, true, false, none, some, List, [],
  ◌∷◌, NodeId, Bytes, NodeId-Key, lookup, u64, bytes_discrete, ℕ_discrete, Option-cases, arith,
}
use crossfault.Platform.{Platform}
use crossfault.Consensus.State.{Mode, baseline, pre_vote, cross_fault}
use crossfault.Consensus.Snapshot.{mode_string}
use crossfault.Consensus.Node.Deliver.{propose}
use crossfault.Sim.Network.{Network, cut_link, heal_link, corrupt_link, clean_link}
use crossfault.Sim.Network
use crossfault.Sim.Cluster.{leads, leader_of, propose_to_leader}
use crossfault.Sim.Display.{state_of}
use crossfault.Sim.Keeps.{step-Fabric}
use crossfault.Sim.Leaders.{leader_of_only}
use crossfault.Wasm.Engine.{
  not_leader, Js, Engine, Answer, done, failed, Complaint, Global, Call, reset_call, step_call,
  cut_call, heal_call, corrupt_call, clean_call, propose_call, state_call, mode_from_string,
  rounds_for, rounds_arg, max_steps, step_times, on_link, call, step, reset,
}
use crossfault.Wasm.Engine

-- The name that a frame gives its mode is the one by which a reset chooses it, for every mode.
pub mode_from_string-mode_string : (m : Mode) → mode_from_string (mode_string m) ≡ m
unfolding mode_from_string mode_string bytes_discrete ℕ_discrete
mode_from_string-mode_string baseline = refl
mode_from_string-mode_string pre_vote = refl
mode_from_string-mode_string cross_fault = refl

module _ (P : Platform) where
  -- The node that leads takes the command.
  accepted :
      (n : Network P) (id : NodeId) (cmd : Bytes)
      → leader_of P n ≡ some id
      → leads P n id ≡ true
      → propose_to_leader P n cmd ≢ none
  unfolding propose_to_leader leads propose
  accepted n id cmd chosen heads h = elim (Option-cases (lookup id n.nodes)) [
    | inl missing ↦ absurd (ground arith)
    | inr (node, found) ↦ absurd (ground arith)
  ]

  propose_to_leader_iff :
      (n : Network P) (cmd : Bytes) → (propose_to_leader P n cmd ≡ none) ↔ (leader_of P n ≡ none)
  unfolding propose_to_leader
  propose_to_leader_iff n cmd = elim (Option-cases (leader_of P n)) [
    | inl nobody ↦ (λ h. nobody, λ h. rw (h, propose_to_leader))
    | inr (id, chosen) ↦
        let (heads, member, only) = leader_of_only P n chosen in
        (λ h. absurd (accepted n id cmd chosen heads h), λ h. absurd (cc))
  ]

module _ (P : Platform) (js : Js) where
  on_link_failed :
      (e : Engine P) (change : Network P → NodeId → NodeId → Network P) (args : List (js.Value))
      {why : Complaint}
      → (on_link P js change (some e) args).1 ≡ failed why
      → (on_link P js change (some e) args).0 ≡ some e
  unfolding on_link
  on_link_failed e change [] h = refl
  on_link_failed e change (v ∷ []) h = refl
  on_link_failed e change (v ∷ w ∷ rest) h = absurd (ground arith)

  -- A call that answers with an error leaves the engine as it was.
  pub call_failed :
      (g : Global P) (c : Call P js) {why : Complaint}
      → (call P js g c).1 ≡ failed why
      → (call P js g c).0 ≡ g
  unfolding call reset step on_link Engine.propose
  call_failed g (reset_call args) h = absurd (ground arith)
  call_failed g (state_call args) h = refl
  call_failed none (step_call args) h = refl
  call_failed none (cut_call args) h = refl
  call_failed none (heal_call args) h = refl
  call_failed none (corrupt_call args) h = refl
  call_failed none (clean_call args) h = refl
  call_failed none (propose_call args) h = refl
  call_failed (some e) (step_call args) h = absurd (ground arith)
  call_failed (some e) (cut_call args) h = on_link_failed e (cut_link P) args h
  call_failed (some e) (heal_call args) h = on_link_failed e (heal_link P) args h
  call_failed (some e) (corrupt_call args) h = on_link_failed e (corrupt_link P) args h
  call_failed (some e) (clean_call args) h = on_link_failed e (clean_link P) args h
  call_failed (some e) (propose_call []) h = refl
  call_failed (some e) (propose_call (v ∷ rest)) h =
      elim (Option-cases (propose_to_leader P e.net (js.to_string v))) [
        | inl refused ↦ rw (refused, Engine.propose)
        | inr (net', taken) ↦ absurd (ground arith)
      ]

  step_times-tick : (k : ℕ) (n : Network P) → ((step_times P k n).tick ≡ u64 (n.tick + k)) ⊎ (k ≡ 0)
  unfolding step_times
  step_times-tick zero n = inr refl
  step_times-tick (suc k) n =
      ground (arith, (step-Fabric P n).tick, step_times-tick k (Network.step P n))

  rounds_arg-le : (args : List (js.Value)) → rounds_arg js args ≤ max_steps
  unfolding rounds_arg rounds_for
  rounds_arg-le [] = omega arith
  rounds_arg-le (v ∷ vs) = ground arith

  -- `step` on an engine succeeds after at most 500 ticks of its network, leaves its mode alone, and moves
  -- the network's clock on by as many.
  pub step_bounded :
      (e : Engine P) (args : List (js.Value))
      → (k : ℕ) × (k ≤ max_steps)
        × (e' : Engine P) × (step P js (some e) args ≡ (some e', done))
        × (e'.mode ≡ e.mode)
        × (e'.net ≡ step_times P k e.net)
        × ((k ≡ 0) ⊎ (e'.net.tick ≡ u64 (e.net.tick + k)))
  unfolding step
  step_bounded e args =
      let k = rounds_arg js args in
      (
        k,
        rounds_arg-le args,
        record e { net = step_times P k e.net },
        refl,
        refl,
        refl,
        ground (arith, step_times-tick k e.net),
      )

  -- A write with a command is refused exactly when the frame does not show the cluster as stable; the
  -- refusal is that there is no leader.
  pub propose-stable :
      (e : Engine P) (v : js.Value) (rest : List (js.Value))
      → ((call P js (some e) (propose_call (v ∷ rest))).1 ≡ failed not_leader)
        ↔ ((state_of P e.net e.mode).stable ≡ false)
  unfolding call Engine.propose state_of
  propose-stable e v rest =
      let either = propose_to_leader_iff P e.net (js.to_string v) in
      elim (Option-cases (leader_of P e.net)) [
        | inl nobody ↦
            (λ h. rw (nobody, state_of) refl, λ h. rw (either.1 nobody, Engine.propose) refl)
        | inr (id, chosen) ↦ elim (Option-cases (propose_to_leader P e.net (js.to_string v))) [
          | inl refused ↦ absurd (ground (arith, either.0 refused))
          | inr (net', taken) ↦ (λ h. absurd (ground arith), λ h. absurd (ground arith))
        ]
      ]
