-- ===== src/Consensus/Node/Rejection.antt =====
-- Deliver of internal/consensus/handlers.go as the choke point for what comes over a hostile wire.
use crossfault.Prelude.{
  ◌≡◌, ◌≢◌, ◌⊎◌, refl, subst, ◌∙◌, some, [], Bytes, NodeId-Key, lookup, Option-cases, inl, inr,
  arith,
}
use crossfault.Platform.{Platform, PlatformLaws, Collision}
use crossfault.Crypt.Identity.{Identity, Keyring, Result-cases, ok, err, Error}
use crossfault.Crypt.Envelope.{Envelope, seal, digest, tamper, open_envelope}
use crossfault.Crypt.Transcript.{Transcript, accept}
use crossfault.Crypt.Encoding.{IsWire}
use crossfault.Crypt.Tampering.{OnlySigns, open-tampered}
use crossfault.Consensus.State.{Node, log_event}
use crossfault.Consensus.Node.Deliver.{refused, deliver}

module _ (P : Platform) where
  -- A node without what a refused message may leave behind: its two counters of refusals, the
  -- activity log and the outbox.
  unfoldable pub protocol : Node P → Node P
  protocol n = record n {
    outbox = [];
    events = [];
    counters = record (n.counters) { dropped_bad_sig = 0; dropped_replay = 0 };
  }

  protocol-refused :
      (n : Node P) (env : Envelope) (e : Error)
      → (protocol (refused P n env e) ≡ protocol n) × ((refused P n env e).outbox ≡ n.outbox)
  unfolding refused protocol log_event
  protocol-refused n env Error.replay = (refl, refl)
  protocol-refused n env _ = (refl, refl)

  -- A message from a stranger, or one that the sender's transcript refuses, changes nothing of the
  -- node but the outbox, the activity log and the two counters of refusals, and nothing is answered.
  pub deliver-refused :
      (n : Node P) (env : Envelope)
      → ((tr : Transcript)
          → lookup env.from n.recv_tr ≡ some tr
          → (e : Error) × (accept P tr n.ring env ≡ err e))
      → (protocol (deliver P n env) ≡ protocol n) × ((deliver P n env).outbox ≡ [])
  unfolding deliver
  deliver-refused n env refusing = elim (Option-cases (lookup env.from n.recv_tr)) [
    | inl stranger ↦ rw (stranger, deliver) (unfold protocol in refl, refl)
    | inr (tr, member) ↦
        let (e, why) = refusing tr member in
        let done = protocol-refused (record n { outbox = [] }) env e in
        rw (member, deliver, why) (done.0 ∙ unfold protocol in refl, done.1)
  ]

  accept-opens :
      (t : Transcript) (k : Keyring) (e : Envelope) {t' : Transcript}
      → accept P t k e ≡ ok t'
      → open_envelope P k e ≡ ok tt
  unfolding accept
  accept-opens t k e h = elim (Result-cases (open_envelope P k e)) [
    | inl (u, opened) ↦ opened
    | inr (why, refused_) ↦ absurd (ground arith)
  ]

  tampered-refused :
      PlatformLaws P
      → (k : Keyring) (id : Identity) (e0 : Envelope) (mutate : Bytes → Bytes) (tr : Transcript)
      → let sealed = seal P id e0 in
        IsWire sealed
        → IsWire (tamper mutate sealed)
        → OnlySigns P sealed.sig (digest P sealed)
        → mutate sealed.payload ≢ sealed.payload
        → ((e : Error) × (accept P tr k (tamper mutate sealed) ≡ err e)) ⊎ Collision P
  unfolding tamper
  tampered-refused laws k id e0 mutate tr w w' only changed =
      let sealed = seal P id e0 in
      elim (Result-cases (accept P tr k (tamper mutate sealed))) [
        | inr refusal ↦ inl refusal
        | inl (t', taken) ↦
            elim (open-tampered P laws k id e0 (tamper mutate sealed) w w' refl only
              (accept-opens tr k (tamper mutate sealed) taken)) [
                | inr found ↦ inr found
                | inl one ↦ absurd (changed one.payload)
              ]
      ]

  -- A sealed envelope whose payload was changed on the way changes nothing of any node but the outbox,
  -- the activity log and the two counters of refusals, and draws no answer, unless two inputs with
  -- one SHA-256 digest are at hand. Both envelopes have the sizes of IsWire, the platform's laws hold,
  -- and no key verifies the signature on another digest.
  pub deliver-tampered :
      PlatformLaws P
      → (n : Node P) (id : Identity) (e0 : Envelope) (mutate : Bytes → Bytes)
      → let sealed = seal P id e0 in
        IsWire sealed
        → IsWire (tamper mutate sealed)
        → OnlySigns P sealed.sig (digest P sealed)
        → mutate sealed.payload ≢ sealed.payload
        → ((protocol (deliver P n (tamper mutate sealed)) ≡ protocol n)
            × ((deliver P n (tamper mutate sealed)).outbox ≡ []))
          ⊎ Collision P
  deliver-tampered laws n id e0 mutate w w' only changed =
      let env = tamper mutate (seal P id e0) in
      elim (Option-cases (lookup env.from n.recv_tr)) [
        | inl stranger ↦ inl (deliver-refused n env (λ tr member. absurd (cc)))
        | inr (tr, member) ↦ elim (tampered-refused laws n.ring id e0 mutate tr w w' only changed) [
          | inr found ↦ inr found
          | inl refusal ↦ inl (
              deliver-refused n env (λ tr' member'.
                let one : tr ≡ tr' = cc in
                subst (λ t. (e : Error) × (accept P t n.ring env ≡ err e)) one refusal))
        ]
      ]
