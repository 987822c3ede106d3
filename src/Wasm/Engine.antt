-- ===== src/Wasm/Engine.antt =====
-- cmd/wasm/main.go: the engine and the functions that it registers. A js.Value is a parameter with the
-- tests and conversions that the code makes of it. The texts of errors are kept as a Complaint. The
-- JSON text that `state` returns is the frame that it prints, and `none` where it is "{}".
use crossfault.Prelude.{
  ℕ, zero, suc, Bool, Option, none, some, List, [], ◌∷◌, Bytes, NodeId, same, get_elem?, ltb,
  if◌then◌else◌,
}
use crossfault.Prelude.Int.{ℤ, pos, negsuc, bits64}
use crossfault.Platform.{Platform}
use crossfault.Consensus.State.{Mode, baseline, pre_vote, cross_fault}
use crossfault.Consensus.Snapshot.{prevote_name, crossfault_name}
use crossfault.Sim.Network.{
  Network, NodeSpec, Options, cut_link, heal_link, corrupt_link, clean_link,
}
use crossfault.Sim.Network
use crossfault.Sim.Cluster.{new_network, propose_to_leader}
use crossfault.Sim.Display.{State, state_of}

-- What the code uses of syscall/js. The conversion to a number is used on numbers only.
pub record Js : Type 1 where
  pub Value : Type 0
  pub is_string : Value → Bool
  pub is_number : Value → Bool
  pub to_string : Value → Bytes
  pub to_int : Value → ℤ

pub data Complaint : Type 0 where
  not_initialised usage not_leader : Complaint

pub data Answer : Type 0 where
  done : Answer
  failed : (why : Complaint) → Answer
  shown : (page : Option State) → Answer

unfoldable pub mode_from_string : Bytes → Mode
mode_from_string s =
    if same s prevote_name
    then pre_vote
    else if same s crossfault_name
    then cross_fault
    else baseline

-- DefaultCluster of internal/sim/network.go.
abbrev pub default_cluster : List NodeSpec
default_cluster =
    record { id = b'a' ∷ b'w' ∷ b's' ∷ b'-' ∷ b'a' ∷ []; cloud = b'a' ∷ b'w' ∷ b's' ∷ [] }
    ∷ record { id = b'g' ∷ b'c' ∷ b'p' ∷ b'-' ∷ b'b' ∷ []; cloud = b'g' ∷ b'c' ∷ b'p' ∷ [] }
    ∷ record { id = b'g' ∷ b'c' ∷ b'p' ∷ b'-' ∷ b'c' ∷ []; cloud = b'g' ∷ b'c' ∷ b'p' ∷ [] }
    ∷ []

abbrev pub options_for : Mode → ℕ → Options
options_for mode seed = record {
  mode = mode;
  seed = seed;
  base_delay = 1;
  cross_cloud_delay = 2;
  election_timeout = 10;
  heartbeat_interval = 3;
  probe_interval = 2;
}

abbrev pub max_steps : ℕ
max_steps = 500

-- The rounds that a step of the simulation makes for a number.
unfoldable pub rounds_for : ℤ → ℕ
rounds_for (pos n) = if ltb max_steps n then max_steps else n
rounds_for (negsuc n) = 0

pub record Engine (P : Platform) : Type 0 where
  pub net : Network P
  pub mode : Mode
  pub opts : Options

module _ (js : Js) where
  unfoldable pub mode_arg : List (js.Value) → Mode
  mode_arg args = elim (get_elem? args 0) [
    | none ↦ cross_fault
    | some v ↦ if js.is_string v then mode_from_string (js.to_string v) else cross_fault
  ]

  unfoldable pub seed_arg : List (js.Value) → ℕ
  seed_arg args = elim (get_elem? args 1) [
    | none ↦ 42
    | some v ↦ if js.is_number v then bits64 (js.to_int v) else 42
  ]

  unfoldable pub rounds_arg : List (js.Value) → ℕ
  rounds_arg args = elim (get_elem? args 0) [
    | none ↦ 1
    | some v ↦ if js.is_number v then rounds_for (js.to_int v) else 1
  ]

module _ (P : Platform) where
  -- `eng` with its net; `none` is the engine whose net is nil.
  abbrev pub Global : Type 0
  Global = Option (Engine P)

  unfoldable pub step_times : ℕ → Network P → Network P
  step_times zero n = n
  step_times (suc k) n = step_times k (Network.step P n)

  -- `state`
  unfoldable pub frame : Global → Option State
  frame none = none
  frame (some e) = some (state_of P e.net e.mode)

module _ (P : Platform) (js : Js) where
  unfoldable pub reset : List (js.Value) → Global P × Answer
  reset args =
      let opts = options_for (mode_arg js args) (seed_arg js args) in
      (
        some (record { net = new_network P default_cluster opts; mode = opts.mode; opts = opts }),
        done,
      )

  unfoldable pub step : Global P → List (js.Value) → Global P × Answer
  step none args = (none, failed not_initialised)
  step (some e) args = (some (record e { net = step_times P (rounds_arg js args) e.net }), done)

  -- `cut`, `heal`, `corrupt` and `clean`, by what they do to a link.
  unfoldable pub on_link :
      (Network P → NodeId → NodeId → Network P) → Global P → List (js.Value) → Global P × Answer
  on_link change none args = (none, failed usage)
  on_link change (some e) [] = (some e, failed usage)
  on_link change (some e) (v ∷ []) = (some e, failed usage)
  on_link change (some e) (from ∷ to ∷ rest) =
      (some (record e { net = change e.net (js.to_string from) (js.to_string to) }), done)

  unfoldable pub propose : Global P → List (js.Value) → Global P × Answer
  propose none args = (none, failed usage)
  propose (some e) [] = (some e, failed usage)
  propose (some e) (v ∷ rest) = elim (propose_to_leader P e.net (js.to_string v)) [
    | none ↦ (some e, failed not_leader)
    | some net' ↦ (some (record e { net = net' }), done)
  ]

  -- The calls that the browser can make, by the name under which they are registered.
  pub data Call : Type 0 where
    reset_call step_call state_call cut_call heal_call corrupt_call clean_call propose_call :
        (args : List (js.Value)) → Call

  unfoldable pub call : Global P → Call → Global P × Answer
  call g (reset_call args) = reset args
  call g (step_call args) = step g args
  call g (state_call args) = (g, shown (frame P g))
  call g (cut_call args) = on_link (cut_link P) g args
  call g (heal_call args) = on_link (heal_link P) g args
  call g (corrupt_call args) = on_link (corrupt_link P) g args
  call g (clean_call args) = on_link (clean_link P) g args
  call g (propose_call args) = propose g args

  -- The session of a page: `main` resets the engine, and then the calls come.
  unfoldable pub calls : Global P → List Call → Global P
  calls g [] = g
  calls g (c ∷ cs) = calls (call g c).0 cs

  unfoldable pub session : List Call → Global P
  session cs = calls (reset []).0 cs
