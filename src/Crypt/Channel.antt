-- ===== src/Crypt/Channel.antt =====
-- A transcript of internal/crypt/chain.go as a channel: whatever a hostile network does with a stream,
-- the receiver sees part of it, in order and nothing twice.
use mathlib.Core.Logic.Or
use mathlib.Core.List.Sublist
use mathlib.Core.List.{
  Mem, Mem-prop, Sublist, Sublist-prop, not-mem-nil, mem-cast, eq-or-mem_of_mem-cons, nil-sublist,
}
use native.Mathlib.Bridge.{le_prop}
use crossfault.Prelude.{
  ℕ, ◌+◌, ◌<◌, ◌≤◌, ◌^◌, ◌≡◌, ◌⊎◌, inl, inr, refl, sym, ap, subst, List, [], ◌∷◌, All, length, u64,
  arith,
}
use crossfault.Platform.{Platform, PlatformLaws, Collision}
use crossfault.Crypt.Identity.{Identity, Keyring, Result-cases, ok}
use crossfault.Crypt.Envelope.{Envelope, digest, seal, open_envelope}
use crossfault.Crypt.Transcript.{Transcript, next, accept}
use crossfault.Crypt.Encoding.{IsWire}
use crossfault.Crypt.Tampering.{OnlySigns, open-same_sig}
use crossfault.Crypt.Stream.{Rises, receive, sent_of, receive-Rises}

Rises-below : (n m : ℕ) (es : List Envelope) → n ≤ m → Rises m es → Rises n es
Rises-below n m [] h r = tt
Rises-below n m (e ∷ es) h r = (omega (arith, r), r.1)

-- Later items that are not the head are in the tail.
Rises-tail :
    (y : Envelope) (ys xs : List Envelope)
    → Rises y.seq xs
    → All (λ x. Mem x (y ∷ ys)) xs
    → All (λ x. Mem x ys) xs
Rises-tail y ys [] r a = tt
Rises-tail y ys (x ∷ xs) r a = (
  Or.elim Mem-prop (eq-or-mem_of_mem-cons a.0) (λ e. absurd (ground (arith, ap (λ z. z.seq) e)))
      (λ m. m),
  Rises-tail y ys xs (Rises-below y.seq x.seq xs (omega (arith, r)) r.1) a.1,
)

Rises-mem : (n : ℕ) (x : Envelope) (ys : List Envelope) → Rises n ys → Mem x ys → n < x.seq
Rises-mem n x [] s m = absurd (not-mem-nil m)
Rises-mem n x (y ∷ ys) s m =
    Or.elim le_prop (eq-or-mem_of_mem-cons m) (λ e. ground (arith, ap (λ z. z.seq) e))
      (λ m'. omega (arith, s, Rises-mem y.seq x ys s.1 m'))

-- Of two rising lists, the one with items of the other is a sublist of it.
Rises-Sublist :
    (n m : ℕ) (xs ys : List Envelope)
    → Rises n xs
    → Rises m ys
    → All (λ x. Mem x ys) xs
    → Sublist xs ys
Rises-Sublist n m [] ys r s a = nil-sublist ys
Rises-Sublist n m (x ∷ xs) [] r s a = absurd (not-mem-nil a.0)
Rises-Sublist n m (x ∷ xs) (y ∷ ys) r s a =
    Or.elim Sublist-prop (eq-or-mem_of_mem-cons a.0)
      (λ e.
        let later : Rises y.seq xs = subst (λ z. Rises z.seq xs) e r.1 in
        subst (λ z. Sublist (z ∷ xs) (y ∷ ys)) (sym e)
          (Sublist.cons-cons y
            (Rises-Sublist y.seq y.seq xs ys later s.1 (Rises-tail y ys xs later a.1))))
      (λ there.
        let above : Rises y.seq (x ∷ xs) = (Rises-mem y.seq x ys s.1 there, r.1) in
        Sublist.cons y (Rises-Sublist n y.seq (x ∷ xs) ys r s.1 (Rises-tail y ys (x ∷ xs) above a)))

module _ (P : Platform) where
  -- Nobody but the sender signs: an envelope that opens carries the signature of one that was sent,
  -- which no key verifies on another digest.
  abbrev pub Genuine : Keyring → List Envelope → Envelope → Type 0
  Genuine k sent e =
      open_envelope P k e ≡ ok tt
      → (e0 : Envelope) × Mem e0 sent
        × (e.sig ≡ e0.sig)
        × IsWire e0
        × OnlySigns P e0.sig (digest P e0)

  sent_of-Rises :
      (s : Transcript) (id : Identity) (es : List Envelope)
      → s.send_seq + length es < 2 ^ 64
      → Rises s.send_seq (sent_of P s id es)
  unfolding sent_of next seal
  sent_of-Rises s id [] room = tt
  sent_of-Rises s id (e ∷ es) room =
      let s' = (next P s id e).0 in
      let number : s'.send_seq ≡ u64 (s.send_seq + 1) = refl in
      (omega arith, sent_of-Rises s' id es (omega (arith, number)))

  accept-opens :
      (t : Transcript) (k : Keyring) (e : Envelope) {t' : Transcript}
      → accept P t k e ≡ ok t'
      → open_envelope P k e ≡ ok tt
  unfolding accept
  accept-opens t k e h = ground arith

  genuine-sent :
      PlatformLaws P
      → (k : Keyring) (sent : List Envelope) (e : Envelope) → IsWire e
      → Genuine k sent e
      → open_envelope P k e ≡ ok tt
      → Mem e sent ⊎ Collision P
  genuine-sent laws k sent e w genuine opened =
      let (e0, listed, carried, w0, only) = genuine opened in
      elim (open-same_sig P laws k e0 e w0 w carried only opened) [
        | inl same ↦ inl (mem-cast (ground arith) listed)
        | inr clash ↦ inr clash
      ]

  receive-sent :
      PlatformLaws P
      → (k : Keyring) (sent : List Envelope) (r : Transcript) (arrivals : List Envelope)
      → All (λ e. IsWire e × Genuine k sent e) arrivals
      → All (λ e. Mem e sent) (receive P r k arrivals).1 ⊎ Collision P
  unfolding receive
  receive-sent laws k sent r [] genuine = inl tt
  receive-sent laws k sent r (e ∷ es) genuine = elim (Result-cases (accept P r k e)) [
    | inl (r', taken) ↦
        rw (taken, receive)
          (elim (genuine-sent laws k sent e genuine.0.0 genuine.0.1 (accept-opens r k e taken)) [
            | inl here ↦ elim (receive-sent laws k sent r' es genuine.1) [
              | inl rest ↦ inl (here, rest)
              | inr clash ↦ inr clash
            ]
            | inr clash ↦ inr clash
          ])
    | inr (why, refused) ↦ rw (refused, receive) (receive-sent laws k sent r es genuine.1)
  ]

  -- Whatever a network delays, repeats, reorders, drops, alters or makes up, the envelopes that a
  -- transcript accepts are a sublist of those that were sent: in the order of sending, none twice and
  -- none changed, unless two inputs with one SHA-256 digest are at hand. The arriving envelopes have
  -- the sizes of IsWire, one that opens carries the signature of an envelope that was sent, which no
  -- key verifies on another digest, the platform's laws hold, and no sequence number wraps.
  pub receive-Sublist :
      PlatformLaws P
      → (k : Keyring) (id : Identity) (s r : Transcript) (es arrivals : List Envelope)
      → s.send_seq + length es < 2 ^ 64
      → All (λ e. IsWire e × Genuine k (sent_of P s id es) e) arrivals
      → Sublist (receive P r k arrivals).1 (sent_of P s id es) ⊎ Collision P
  receive-Sublist laws k id s r es arrivals room genuine =
      elim (receive-sent laws k (sent_of P s id es) r arrivals genuine) [
        | inl listed ↦ inl (
            Rises-Sublist r.recv_seq s.send_seq _ _ (receive-Rises P r k arrivals)
              (sent_of-Rises s id es room) listed)
        | inr clash ↦ inr clash
      ]
