-- ===== src/Sim/Detour.antt =====
-- What findRelay of internal/sim/network.go answers, in terms of what the sender believes and which links
-- work.
use crossfault.Prelude.{
  ◌≡◌, ◌≢◌, refl, ◌⊎◌, inl, inr, Bool, true, false, ◌&&◌, ◌||◌, Option, none, some, NodeId,
  NodeId-Key, lookup, same, Option-cases, arith, if◌then◌else◌,
}
use crossfault.Prelude.{sym, contains, subst, ◌∙◌}
use crossfault.Platform.{Platform}
use crossfault.Consensus.State.{Node}
use crossfault.Netmatrix.View.{View, can_send, relay}
use crossfault.Netmatrix.Routes.{Routes, relay-Routes}
use crossfault.Crypt.Envelope.{Envelope}
use crossfault.Sim.Network.{Edge-Key, Network, is_down, find_relay}

pub around_lem :
    (relays : Bool) (o : Option NodeId) {via : NodeId}
    → (if relays then o else none) ≡ some via
    → (relays ≡ true) × (o ≡ some via)
around_lem relays o h = ground arith

passes :
    (at a b : Bool) (over : NodeId) {via : NodeId}
    → (if at || (a || b) then none else some over) ≡ some via
    → (over ≡ via) × (at ≡ false) × (a ≡ false) × (b ≡ false)
passes at a b over h = ground arith

stops :
    (at broken : Bool) (over : NodeId)
    → (if at || broken then none else some over) ≡ none
    → (at || broken) ≡ true
stops at broken over h = ground arith

module _ (P : Platform) where
  -- Both hops over `via`, as a view has them.
  abbrev pub BelievesIn : View → Envelope → NodeId → Type 0
  BelievesIn v env via =
      (contains v.members via ≡ true)
      × (can_send v env.from via ≡ true)
      × (can_send v via env.to ≡ true)

  -- Why a sender finds no way around a broken link: it does not know that the link is broken, it believes in no
  -- way, or a link of the way that it believes in is broken.
  abbrev pub NoWay : Network P → Envelope → View → Type 0
  NoWay n env v =
      (can_send v env.from env.to ≡ true)
      ⊎ (((via : NodeId)
            → contains v.members via ≡ true
            → (can_send v env.from via && can_send v via env.to) ≡ false)
          ⊎ ((via : NodeId) × BelievesIn v env via
              × ((is_down P n env.from via || is_down P n via env.to) ≡ true)))

  find_relay_over :
      (n : Network P) (from to : NodeId) {src : Node P} {over : NodeId}
      → lookup from n.nodes ≡ some src
      → relay src.view from to ≡ some over
      → find_relay P n from to ≡ (
          if same over to || (is_down P n from over || is_down P n over to)
          then none
          else some over)
  unfolding find_relay
  find_relay_over n from to found known = rw (found, known, find_relay) refl

  pub find_relay-some :
      (n : Network P) (env : Envelope) {via : NodeId}
      → find_relay P n env.from env.to ≡ some via
      → (via ≢ env.from)
        × (via ≢ env.to)
        × (is_down P n env.from via ≡ false)
        × (is_down P n via env.to ≡ false)
        × ((src : Node P) × (lookup env.from n.nodes ≡ some src) × BelievesIn src.view env via)
  unfolding find_relay
  find_relay-some n env {via} h = elim (Option-cases (lookup env.from n.nodes)) [
    | inl missing ↦ absurd (ground arith)
    | inr (src, found) ↦ elim (Option-cases (relay src.view env.from env.to)) [
      | inl nowhere ↦ absurd (ground arith)
      | inr (over, known) ↦
          let route =
            subst (Routes src.view env.from env.to) known (relay-Routes src.view env.from env.to) in
          let (is_over, other, out, on) =
            passes (same over env.to) (is_down P n env.from over) (is_down P n over env.to) over
              (sym (find_relay_over n env.from env.to found known) ∙ h) in
          let differs : over ≢ env.to = ground (arith, other) in
          elim route [
            | inl (direct, up) ↦ absurd (differs direct)
            | inr (broken, member, there, onward, ne_from, ne_to) ↦
                subst
                  (λ x.
                    (x ≢ env.from)
                    × (x ≢ env.to)
                    × (is_down P n env.from x ≡ false)
                    × (is_down P n x env.to ≡ false)
                    × ((s : Node P) × (lookup env.from n.nodes ≡ some s) × BelievesIn s.view env x))
                  is_over (ne_from, ne_to, out, on, (src, found, (member, there, onward)))
          ]
    ]
  ]

  pub find_relay-none :
      (n : Network P) (env : Envelope)
      → find_relay P n env.from env.to ≡ none
      → (src : Node P) → lookup env.from n.nodes ≡ some src
      → NoWay n env src.view
  find_relay-none n env h src found = elim (Option-cases (relay src.view env.from env.to)) [
    | inl nowhere ↦
        let route =
          subst (Routes src.view env.from env.to) nowhere (relay-Routes src.view env.from env.to) in
        inr (inl route.1)
    | inr (over, known) ↦
        let route =
          subst (Routes src.view env.from env.to) known (relay-Routes src.view env.from env.to) in
        let stopped =
          stops (same over env.to) (is_down P n env.from over || is_down P n over env.to) over
            (sym (find_relay_over n env.from env.to found known) ∙ h) in
        elim route [
          | inl (direct, up) ↦ inl up
          | inr (broken, member, there, onward, ne_from, ne_to) ↦
              inr (inr (over, (member, there, onward), ground (arith, stopped, ne_to)))
        ]
  ]
