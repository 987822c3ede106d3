-- ===== src/Sim/Gateway.antt =====
-- The hostile gateway of internal/sim/network.go, as a payload is before and behind it.
use crossfault.Prelude.{
  ap, ◌+◌, ◌≡◌, ◌≢◌, refl, ◌⊎◌, inl, inr, true, some, [], ◌∷◌, NodeId-Key, Bool-cases, arith,
}
use crossfault.Prelude.{◌==◌, Bytes, get_elem?, length, ℕ, zero, suc, ◌-◌, ◌<◌}
use crossfault.Platform.{Platform, PlatformLaws}
use crossfault.Crypt.Envelope.{tamper}
use crossfault.Sim.Network.{flip_at, delay_for, crosses_clouds}
use crossfault.Crypt.Envelope.{Envelope}
use crossfault.Sim.Network.{Edge-Key, Network, rewrite}

-- A payload with one byte inverted, 255 - b being b ^ 0xff.
abbrev pub FlippedOnce : Bytes → Bytes → Type 0
FlippedOnce bs bs' =
    (i : ℕ) × (b : ℕ) × (get_elem? bs i ≡ some b)
    × (get_elem? bs' i ≡ some (255 - b))
    × (length bs' ≡ length bs)
    × ((j : ℕ) → j ≢ i → get_elem? bs' j ≡ get_elem? bs j)

behind_same : (x y : ℕ) (bs : Bytes) (j : ℕ) → j ≢ 0 → get_elem? (x ∷ bs) j ≡ get_elem? (y ∷ bs) j
behind_same x y bs zero other = absurd (other refl)
behind_same x y bs (suc j) other = refl

beyond_same :
    (x : ℕ) (bs bs' : Bytes) (k : ℕ)
    → ((j : ℕ) → j ≢ k → get_elem? bs' j ≡ get_elem? bs j)
    → (j : ℕ) → j ≢ suc k
    → get_elem? (x ∷ bs') j ≡ get_elem? (x ∷ bs) j
beyond_same x bs bs' k rest zero other = refl
beyond_same x bs bs' k rest (suc j) other = rest j (λ e. other (ap (λ i. suc i) e))

flip_at-FlippedOnce : (i : ℕ) (bs : Bytes) → i < length bs → FlippedOnce bs (flip_at i bs)
unfolding flip_at
flip_at-FlippedOnce i [] h = absurd (omega arith)
flip_at-FlippedOnce zero (b ∷ bs) h = (0, b, refl, refl, refl, behind_same (255 - b) b bs)
flip_at-FlippedOnce (suc i) (b ∷ bs) h =
    let (k, c, before, after, size, rest) = flip_at-FlippedOnce i bs (omega arith) in
    (suc k, c, before, after, omega (arith, size), beyond_same b bs (flip_at i bs) k rest)

no_bytes : (bs : Bytes) → (length bs == 0) ≡ true → bs ≡ []
no_bytes [] h = refl
no_bytes (b ∷ bs) h = absurd (ground arith)

module _ (P : Platform) where
  -- An envelope as it leaves a hostile gateway.
  abbrev pub Rewritten : Envelope → Envelope → Type 0
  Rewritten env env' =
      (record env' { payload = env.payload } ≡ env)
      × (((env.payload ≡ []) × (env'.payload ≡ [])) ⊎ FlippedOnce env.payload env'.payload)

  pub rewrite-Rewritten :
      PlatformLaws P
      → (n : Network P) (env : Envelope)
      → let (n', env') = rewrite P n env in
        Rewritten env env'
        × (n'.in_flight ≡ n.in_flight)
        × (n'.dropped ≡ n.dropped)
        × (n'.relayed ≡ n.relayed)
        × (n'.corrupted ≡ n.corrupted + 1)
        × (delay_for P n' env'.from env'.to ≡ delay_for P n env.from env.to)
        × (n'.tick ≡ n.tick)
  unfolding rewrite tamper delay_for crosses_clouds
  rewrite-Rewritten laws n env =
      let size = length env.payload in
      elim (Bool-cases (length env.payload == 0)) [
        | inl empty ↦
            let none_there : env.payload ≡ [] = no_bytes env.payload empty in
            rw (empty, rewrite)
              ((refl, inl (none_there, none_there)), refl, refl, refl, refl, refl, refl)
        | inr some_bytes ↦
            let i = (P.intn n.rng size).0 in
            rw (some_bytes, rewrite)
              (
                (
                  refl,
                  inr (
                      flip_at-FlippedOnce i env.payload
                        (laws.intn-lt n.rng size (ground (arith, some_bytes)))),
                ),
                refl,
                refl,
                refl,
                refl,
                refl,
                refl,
              )
      ]
