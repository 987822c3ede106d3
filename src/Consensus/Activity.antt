-- ===== src/Consensus/Activity.antt =====
-- The activity log of internal/consensus/events.go.
use crossfault.Prelude.{
  ap, sym, ◌+◌, ◌-◌, ◌≤◌, ◌≡◌, [], ◌∷◌, ◌++◌, length, drop, ltb, Bool-cases, inl, inr, arith,
  length-append, length-drop, length-drop,
}
use crossfault.Platform.{Platform}
use crossfault.Consensus.State.{Node, Event, Happening, cap_events, log_event, max_events}

module _ (P : Platform) where
  abbrev pub event_of : Node P → Happening → Event
  event_of n what = record { tick = n.tick; node = n.id; term = n.current_term; what = what }

  -- Noting an event leaves at most 400 events, and they are the newest ones: what was there and the
  -- event behind it, without as many of the oldest as there are too many.
  pub log_event_newest :
      (n : Node P) (what : Happening)
      → let events' = (log_event P n what).events in
        (length events' ≤ max_events)
        × (events' ≡ drop (length n.events + 1 - max_events) (n.events ++ event_of n what ∷ []))
  unfolding log_event cap_events
  log_event_newest n what =
      let all = n.events ++ event_of n what ∷ [] in
      let longer = length-append n.events (event_of n what ∷ []) in
      elim (Bool-cases (ltb max_events (length all))) [
        | inl full ↦
            rw (full, cap_events)
              (
                omega (arith, length-drop (length all - max_events) all),
                ap (λ k. drop k all) (omega arith),
              )
        | inr fits ↦
            let none_over : length n.events + 1 - max_events ≡ 0 = ground arith in
            rw (fits, cap_events) (ground arith, sym (ap (λ k. drop k all) none_over))
      ]
