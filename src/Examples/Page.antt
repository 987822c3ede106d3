-- ===== src/Examples/Page.antt =====
-- cmd/wasm/main.go under calls of a page whose values are strings and numbers.
use crossfault.Prelude.{
  ℕ, ◌+◌, ◌≤◌, ◌≡◌, ◌↔◌, ◌⊎◌, refl, Bool, true, false, [], ◌∷◌, Bytes, u64, some,
}
use crossfault.Prelude.Int.{ℤ, pos}
use crossfault.Consensus.State.{cross_fault}
use crossfault.Sim.Display.{state_of}
use crossfault.Wasm.Engine.{
  Js, Engine, not_leader, usage, failed, done, step_call, cut_call, propose_call, options_for,
  max_steps, step_times, step, call, on_link, session,
}
use crossfault.Wasm.Calls.{call_failed, step_bounded, propose-stable}
use crossfault.Wasm.Session.{Runs, session-Runs}
use crossfault.Examples.Toy.{toy, a, b}
use crossfault.Examples.Fabric.{net}

data Value : Type 0 where
  text : Bytes → Value
  number : ℤ → Value

abbrev is_text : Value → Bool
is_text (text s) = true
is_text (number z) = false

abbrev is_number_value : Value → Bool
is_number_value (text s) = false
is_number_value (number z) = true

abbrev text_of : Value → Bytes
text_of (text s) = s
text_of (number z) = []

abbrev number_of : Value → ℤ
number_of (text s) = pos 0
number_of (number z) = z

abbrev page : Js
page = record {
  Value = Value;
  is_string = is_text;
  is_number = is_number_value;
  to_string = text_of;
  to_int = number_of;
}

abbrev engine : Engine toy
engine = record { net = net; mode = cross_fault; opts = options_for cross_fault 42 }

too_few : (call toy page (some engine) (cut_call (text a ∷ []))).1 ≡ failed usage
unfolding call on_link
too_few = refl

call_failed_example : (call toy page (some engine) (cut_call (text a ∷ []))).0 ≡ some engine
call_failed_example = call_failed toy page (some engine) (cut_call (text a ∷ [])) too_few

step_bounded_example :
    (k : ℕ) × (k ≤ max_steps)
    × (e' : Engine toy) × (step toy page (some engine) (number (pos 900) ∷ []) ≡ (some e', done))
    × (e'.mode ≡ cross_fault)
    × (e'.net ≡ step_times toy k net)
    × ((k ≡ 0) ⊎ (e'.net.tick ≡ u64 (7 + k)))
step_bounded_example = step_bounded toy page engine (number (pos 900) ∷ [])

propose-stable_example :
    ((call toy page (some engine) (propose_call (text b ∷ []))).1 ≡ failed not_leader)
    ↔ ((state_of toy net cross_fault).stable ≡ false)
propose-stable_example = propose-stable toy page engine (text b) []

session-Runs_example :
    Runs toy page (session toy page (cut_call (text a ∷ text b ∷ []) ∷ step_call [] ∷ []))
session-Runs_example = session-Runs toy page (cut_call (text a ∷ text b ∷ []) ∷ step_call [] ∷ [])
