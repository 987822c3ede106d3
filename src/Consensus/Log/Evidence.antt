-- ===== src/Consensus/Log/Evidence.antt =====
-- What a chain head of internal/consensus/log.go proves about the log behind it.
use crossfault.Prelude.{
  ℕ, suc, ◌+◌, ◌<◌, ◌^◌, ◌≡◌, refl, sym, ◌∙◌, ◌⊎◌, inl, inr, List, [], ◌∷◌, Bytes, bytes_discrete,
  length, u32, put_uint32, length-big_endian, big_endian_inj, append_inj, All, arith,
}
use crossfault.Messages.{Entry}
use crossfault.Platform.{Platform, Collision}
use crossfault.Crypt.Encoding.{word_inj}
use crossfault.Crypt.Transcript.{zero_hash}
use crossfault.Consensus.Log.{Log, log_len, last_hash, entry_preimage, entry_domain, compute_hash}
use crossfault.Consensus.Log.Chain.{ChainFrom, IsChained, head_hash, last_hash-head_hash}

-- The sizes that an entry has in memory.
abbrev pub Fits : Entry → Type 0
Fits e = (e.term < 2 ^ 64) × (length e.command < 2 ^ 32)

record SameInput (e e' : Entry) (h h' : Bytes) : Type 0 where
  term : e.term ≡ e'.term
  command : e.command ≡ e'.command
  prev : h ≡ h'

entry_preimage_inj :
    (e e' : Entry) (i : ℕ) (h h' : Bytes)
    → i < 2 ^ 64
    → Fits e
    → Fits e'
    → entry_preimage e.term i e.command h ≡ entry_preimage e'.term i e'.command h'
    → SameInput e e' h h'
unfolding entry_preimage
entry_preimage_inj e e' i h h' room f f' q =
    let body = (append_inj entry_domain entry_domain _ _ refl q).1 in
    let term = word_inj e.term e'.term _ _ f.0 f'.0 body in
    let index = word_inj i i _ _ room room term.1 in
    let size =
      append_inj (put_uint32 (u32 (length e.command))) (put_uint32 (u32 (length e'.command))) _ _
        (length-big_endian 4 _ ∙ sym (length-big_endian 4 _)) index.1 in
    let counted =
      big_endian_inj 4 (u32 (length e.command)) (u32 (length e'.command)) (omega arith)
        (omega arith) size.0 in
    let parts = append_inj e.command e'.command h h' (omega arith) size.1 in
    record { term = term.0; command = parts.0; prev = parts.1 }

module _ (P : Platform) where
  chains-equal :
      (i : ℕ) (h h' : Bytes) (es es' : List Entry)
      → i + length es < 2 ^ 64
      → All Fits es
      → All Fits es'
      → ChainFrom P h i es
      → ChainFrom P h' i es'
      → length es ≡ length es'
      → head_hash P h es ≡ head_hash P h' es'
      → ((es ≡ es') × (h ≡ h')) ⊎ Collision P
  unfolding compute_hash
  chains-equal i h h' [] [] room f f' c c' n q = inl (refl, q)
  chains-equal i h h' [] (e' ∷ es') room f f' c c' n q = absurd (omega arith)
  chains-equal i h h' (e ∷ es) [] room f f' c c' n q = absurd (omega arith)
  chains-equal i h h' (e ∷ es) (e' ∷ es') room f f' c c' n q =
      elim (chains-equal (suc i) e.hash e'.hash es es' (omega arith) f.1 f'.1 c.3 c'.3 (omega arith)
        q) [
          | inr found ↦ inr found
          | inl (tails, hashes) ↦
              let input = entry_preimage e.term i e.command h in
              let input' = entry_preimage e'.term i e'.command h' in
              let one_digest : P.sha256 input ≡ P.sha256 input' = sym c.2 ∙ hashes ∙ c'.2 in
              elim (bytes_discrete input input') [
                | no differ ↦ inr (input, input', differ, one_digest)
                | yes same_input ↦
                    let s = entry_preimage_inj e e' i h h' (omega arith) f.0 f'.0 same_input in
                    inl (
                      ground
                          (arith, s.term, s.command, s.prev, c.0, c.1, c'.0, c'.1, tails, hashes),
                      s.prev,
                    )
              ]
        ]

  -- Two chained logs of one length with one chain head are the same log, unless two inputs with one
  -- SHA-256 digest are at hand. Their terms fit in 64 bits, their commands are shorter than 2^32
  -- bytes, and their indices do not wrap.
  pub last_hash-binding :
      (l l' : Log)
      → IsChained P l
      → IsChained P l'
      → All Fits l.entries
      → All Fits l'.entries
      → log_len l + 1 < 2 ^ 64
      → log_len l ≡ log_len l'
      → last_hash l ≡ last_hash l'
      → (l ≡ l') ⊎ Collision P
  last_hash-binding l l' c c' f f' room n q =
      let heads = sym (last_hash-head_hash P l) ∙ q ∙ last_hash-head_hash P l' in
      elim (chains-equal 1 zero_hash zero_hash l.entries l'.entries (omega arith) f f' c c' n
        heads) [ inl (one, _) ↦ inl (λ i. record { entries = one i }) | inr found ↦ inr found ]
