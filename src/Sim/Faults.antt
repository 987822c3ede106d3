-- ===== src/Sim/Faults.antt =====
-- The adversary of internal/sim/network.go: what cutting a link means, and what can become of a message
-- that is put on the wire.
use crossfault.Prelude.{
  ap, ◌+◌, ◌≡◌, ◌≢◌, refl, ◌⊎◌, inl, inr, true, false, not, ◌&&◌, ◌||◌, none, some, [], ◌∷◌, ◌++◌,
  NodeId, NodeId-Key, no_node, lookup, lookup-insert, lookup-erase, get_or, same, Bool-cases,
  Option-cases, arith, if◌then◌else◌,
}
use crossfault.Prelude.{u64, ◌∙◌}
use crossfault.Platform.{Platform, PlatformLaws}
use crossfault.Consensus.State.{Node}
use crossfault.Sim.Network.{delay_for}
use crossfault.Crypt.Envelope.{Envelope}
use crossfault.Sim.Network.{
  Edge-Key, InFlight, Network, is_down, is_corrupt, cut_link, heal_link, note_fault, find_relay,
  rewrite, send_relayed, send_direct, direct_flight, enqueue,
}
use crossfault.Sim.Gateway.{Rewritten, rewrite-Rewritten}
use crossfault.Sim.Detour.{BelievesIn, NoWay, around_lem, find_relay-some, find_relay-none}

module _ (P : Platform) where
  -- Cutting a link breaks this direction, healing it restores it, and neither touches any other
  -- direction of any link.
  pub is_down-cut_link :
      (n : Network P) (from to a b : NodeId)
      → (is_down P (cut_link P n from to) a b ≡ ((same from a && same to b) || is_down P n a b))
        × (is_down P (heal_link P n from to) a b
            ≡ (not (same from a && same to b) && is_down P n a b))
  unfolding is_down cut_link heal_link note_fault get_or
  is_down-cut_link n from to a b =
      let cut_there = lookup-insert (from, to) (a, b) true n.down in
      let healed_there = lookup-erase (from, to) (a, b) n.down in
      (ground (arith, cut_there), ground (arith, healed_there))

  -- A message on the direct link.
  abbrev pub GoesDirect : Network P → Envelope → Network P → InFlight → Type 0
  GoesDirect n env n' m =
      (is_down P n env.from env.to ≡ false)
      × (m.via ≡ no_node)
      × (m.due_tick ≡ u64 (n.tick + delay_for P n env.from env.to))
      × (n'.relayed ≡ n.relayed)
      × (((is_corrupt P n env.from env.to ≡ false) × (m.env ≡ env) × (n'.corrupted ≡ n.corrupted))
          ⊎ ((is_corrupt P n env.from env.to ≡ true)
              × Rewritten P env m.env
              × (n'.corrupted ≡ n.corrupted + 1)))

  -- A message around a broken link, over a third node that its sender believes in and two links that work.
  abbrev pub GoesAround : Network P → Envelope → Network P → InFlight → Type 0
  GoesAround n env n' m =
      (is_down P n env.from env.to ≡ true)
      × (n.relaying ≡ true)
      × (m.env ≡ env)
      × (m.due_tick
          ≡ u64 (n.tick + u64 (delay_for P n env.from m.via + delay_for P n m.via env.to)))
      × (m.via ≢ env.from)
      × (m.via ≢ env.to)
      × (is_down P n env.from m.via ≡ false)
      × (is_down P n m.via env.to ≡ false)
      × ((src : Node P) × (lookup env.from n.nodes ≡ some src) × BelievesIn P src.view env m.via)
      × (n'.relayed ≡ n.relayed + 1)
      × (n'.corrupted ≡ n.corrupted)

  -- A message that is dropped.
  abbrev pub IsLost : Network P → Envelope → Network P → Type 0
  IsLost n env n' =
      (is_down P n env.from env.to ≡ true)
      × (n'.in_flight ≡ n.in_flight)
      × (n'.dropped ≡ n.dropped + 1)
      × (n'.relayed ≡ n.relayed)
      × (n'.corrupted ≡ n.corrupted)
      × (n.relaying ≡ true
          → (src : Node P) → lookup env.from n.nodes ≡ some src
          → NoWay P n env src.view)

  -- The network before and after a message is put on it.
  abbrev pub EnqueueRule : Network P → Envelope → Network P → Type 0
  EnqueueRule n env n' =
      IsLost n env n'
      ⊎ ((m : InFlight) × (n'.in_flight ≡ n.in_flight ++ m ∷ [])
          × (n'.dropped ≡ n.dropped)
          × (GoesDirect n env n' m ⊎ GoesAround n env n' m))

  -- A message that is put on the network is dropped and counted, which happens only on a broken link, and in
  -- a network that relays only if its sender takes the link for sound, believes in no way around it, or
  -- believes in one of which a link is broken; or it is in flight on a working link, due after the delay of
  -- the link, unchanged, or, exactly if a hostile gateway sits there, counted as corrupted and with one byte of
  -- its payload inverted, if that has any, and all else as it was; or it is in flight unchanged around a
  -- broken link, in a network that relays, due after the delays of both hops, over two links that work and a
  -- third node that its sender believes in. The platform's laws hold.
  pub enqueue-EnqueueRule :
      PlatformLaws P → (n : Network P) (env : Envelope) → EnqueueRule n env (enqueue P n env)
  unfolding enqueue send_relayed send_direct
  enqueue-EnqueueRule laws n env =
      let route = if n.relaying then find_relay P n env.from env.to else none in
      elim (Bool-cases (is_down P n env.from env.to)) [
        | inr works ↦ elim (Bool-cases (is_corrupt P n env.from env.to)) [
          | inl hostile_there ↦
              let (changed, flight, drops, relays, corrupts, delay, now) =
                rewrite-Rewritten P laws n env in
              let m = direct_flight P (rewrite P n env).0 (rewrite P n env).1 in
              let due : m.due_tick ≡ u64 (n.tick + delay_for P n env.from env.to) =
                ap (λ t. u64 (t + delay_for P (rewrite P n env).0 m.env.from m.env.to)) now
                ∙ ap (λ d. u64 (n.tick + d)) delay in
              rw (works, hostile_there)
                (inr (
                  m,
                  ap (λ l. l ++ m ∷ []) flight,
                  drops,
                  inl (refl, refl, due, relays, inr (refl, changed, corrupts)),
                ))
          | inr clean ↦
              rw (works, clean)
                (inr (
                  direct_flight P n env,
                  refl,
                  refl,
                  inl (refl, refl, refl, refl, inl (refl, refl, refl)),
                ))
        ]
        | inl broken ↦ elim (Option-cases route) [
          | inl nowhere ↦
              rw (broken, nowhere)
                (inl (
                  refl,
                  refl,
                  refl,
                  refl,
                  refl,
                  λ relays src found.
                      find_relay-none P n env (ground (arith, relays, nowhere)) src found,
                ))
          | inr (via, around) ↦
              let (relays, known) = around_lem n.relaying (find_relay P n env.from env.to) around in
              let (third, other, out, on, believed) = find_relay-some P n env known in
              rw (broken, around)
                (inr (
                  _,
                  refl,
                  refl,
                  inr (refl, relays, refl, refl, third, other, out, on, believed, refl, refl),
                ))
        ]
      ]
