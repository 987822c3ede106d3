-- ===== src/Crypt/Tampering.antt =====
-- What a hostile transit path can do to a sealed envelope: internal/crypt/envelope.go Seal, Open.
use crossfault.Prelude.{
  ◌≡◌, ◌⊎◌, inl, inr, Bytes, bytes_discrete, length, some, lookup, NodeId-Key, Option-cases, subst,
  true, arith,
}
use crossfault.Platform.{Platform, PlatformLaws, Collision}
use crossfault.Crypt.Identity.{Identity, Keyring, ok}
use crossfault.Crypt.Envelope.{Envelope, preimage, digest, seal, open_envelope}
use crossfault.Crypt.Encoding.{IsWire, SameSigned, preimage_inj}

module _ (P : Platform) where
  -- Ed25519's promise for one signature: no key verifies it on a digest that was not signed.
  abbrev pub OnlySigns : Bytes → Bytes → Type 0
  OnlySigns sig dig = (key d : Bytes) → length d ≡ 32 → P.verify_with key d sig ≡ true → d ≡ dig

  -- The keyring holds the public half of the identity's key.
  pub record Knows (k : Keyring) (id : Identity) : Type 0 where
    pub listed : lookup id.id k.key_of ≡ some id.public_key
    pub paired : id.public_key ≡ P.public_of id.priv

  -- What an identity seals opens under a keyring that lists its public key, by the platform's laws.
  pub open-seal :
      PlatformLaws P
      → (k : Keyring) (id : Identity) (e : Envelope) → Knows k id
      → open_envelope P k (seal P id e) ≡ ok tt
  unfolding open_envelope seal preimage
  open-seal laws k id e known =
      let dig = P.sha256 (preimage (record e { from = id.id })) in
      ground (
        arith,
        known.listed,
        known.paired,
        laws.length-sign id.priv dig,
        laws.verify-sign id.priv dig,
      )

  open_verified :
      (k : Keyring) (e : Envelope)
      → open_envelope P k e ≡ ok tt
      → (key : Bytes) × (P.verify_with key (digest P e) e.sig ≡ true)
  unfolding open_envelope
  open_verified k e h = elim (Option-cases (lookup e.from k.key_of)) [
    | inl missing ↦ absurd (ground arith)
    | inr (key, found) ↦ (key, ground arith)
  ]

  -- An envelope that opens with the signature of another has its signed fields, or two inputs share a
  -- digest.
  pub open-same_sig :
      PlatformLaws P
      → (k : Keyring) (e0 e : Envelope) → IsWire e0
      → IsWire e
      → e.sig ≡ e0.sig
      → OnlySigns e0.sig (digest P e0)
      → open_envelope P k e ≡ ok tt
      → SameSigned e e0 ⊎ Collision P
  unfolding digest
  open-same_sig laws k e0 e w0 w carried only opened =
      let verified = open_verified k e opened in
      let on_this =
        subst (λ s. P.verify_with verified.0 (digest P e) s ≡ true) carried verified.1 in
      let one_digest = only verified.0 (digest P e) (laws.length-sha256 _) on_this in
      elim (bytes_discrete (preimage e) (preimage e0)) [
        | yes q ↦ inl (preimage_inj e e0 w w0 q)
        | no differ ↦ inr (preimage e, preimage e0, differ, one_digest)
      ]

  -- An envelope that carries a sealed envelope's signature and opens is that envelope in every
  -- signed field, unless two inputs with one SHA-256 digest are at hand. Both have the sizes of
  -- IsWire, the platform's laws hold, and no key verifies the signature on another digest.
  pub open-tampered :
      PlatformLaws P
      → (k : Keyring) (id : Identity) (e0 e : Envelope) → IsWire (seal P id e0)
      → IsWire e
      → e.sig ≡ (seal P id e0).sig
      → OnlySigns (seal P id e0).sig (digest P (seal P id e0))
      → open_envelope P k e ≡ ok tt
      → SameSigned e (seal P id e0) ⊎ Collision P
  open-tampered laws k id e0 e w0 w carried only opened =
      open-same_sig laws k (seal P id e0) e w0 w carried only opened
