-- ===== src/Sim/Display/Events.antt =====
-- The events of a frame of internal/sim/snapshot.go.
use crossfault.Prelude.{
  ℕ, ◌-◌, ◌≤◌, ◌≡◌, refl, sym, subst, ◌⊎◌, inl, inr, List, [], ◌++◌, length, take, ltb, Bool-cases,
  length-drop, take-append-drop, arith,
}
use crossfault.Prelude.Sorting.{sort, sort-perm}
use crossfault.Prelude.Rising.{IsRising, sort-IsRising}
use mathlib.Core.List.{Perm}
use crossfault.Consensus.State.{Event}
use crossfault.Sim.Display.{earlier, max_shown, newest_events}

abbrev pub tick_of : Event → ℕ
tick_of e = e.tick

-- The events of a frame are at most 120, and together with the older ones that are left out they are
-- all the events, in the order of their ticks; none is left out of fewer than 120.
pub newest_events_lem :
    (all : List Event)
    → (older : List Event) × Perm (older ++ newest_events all) all
      × IsRising tick_of 0 (older ++ newest_events all)
      × (length (newest_events all) ≤ max_shown)
      × ((older ≡ []) ⊎ (length (newest_events all) ≡ max_shown))
unfolding newest_events
newest_events_lem all =
    let sorted = sort earlier all in
    let k = length sorted - max_shown in
    elim (Bool-cases (ltb max_shown (length sorted))) [
      | inl full ↦
          let whole = sym (take-append-drop k sorted) in
          let size = length-drop k sorted in
          rw full (
            take k sorted,
            subst (λ l. Perm l all) whole (sort-perm earlier all),
            subst (IsRising tick_of 0) whole (sort-IsRising tick_of all),
            ground arith,
            inr (ground arith),
          )
      | inr fits ↦
          rw fits ([], sort-perm earlier all, sort-IsRising tick_of all, ground arith, inl refl)
    ]
