-- ===== src/Crypt/Stream.antt =====
-- A whole stream of envelopes between two transcripts: internal/crypt/chain.go Next, Accept, Gaps.
use crossfault.Prelude.{
  ℕ, ◌+◌, ◌<◌, ◌^◌, ◌≡◌, refl, subst, ap, ◌∙◌, Bool, true, false, ◌&&◌, List, [], ◌∷◌, length, u64,
  arith, inl, inr, Option-cases, lookup, NodeId-Key, if◌then◌else◌,
}
use crossfault.Platform.{Platform, PlatformLaws}
use crossfault.Crypt.Identity.{Identity, Keyring, Result-cases, ok, err}
use crossfault.Crypt.Envelope.{Envelope, seal, open_envelope}
use crossfault.Crypt.Transcript.{Transcript, next, accept, advance, is_gap}
use crossfault.Crypt.Tampering.{Knows, open-seal}

abbrev pub Rises : ℕ → List Envelope → Type 0
Rises n [] = Unit {0}
Rises n (e ∷ es) = (n < e.seq) × Rises e.seq es

-- The two ends agree on the last envelope sent.
pub record InSync (s r : Transcript) : Type 0 where
  pub heads : s.send_head ≡ r.recv_head
  pub seqs : s.send_seq ≡ r.recv_seq

abbrev pub lost_some : List Envelope → Bool
lost_some [] = false
lost_some (_ ∷ _) = true

module _ (P : Platform) where
  -- The receiver of a stream: an envelope that Accept refuses leaves the transcript as it was.
  unfoldable pub receive : Transcript → Keyring → List Envelope → Transcript × List Envelope
  receive t k [] = (t, [])
  receive t k (e ∷ es) = elim (accept P t k e) [
    | ok t' ↦ let later = receive t' k es in (later.0, e ∷ later.1)
    | err _ ↦ receive t k es
  ]

  -- The sender of a stream.
  unfoldable pub send_all : Transcript → Identity → List Envelope → Transcript
  send_all s id [] = s
  send_all s id (e ∷ es) = send_all (next P s id e).0 id es

  pub accept-seq :
      (t : Transcript) (k : Keyring) (e : Envelope) {t' : Transcript}
      → accept P t k e ≡ ok t'
      → (t.recv_seq < e.seq) × (t'.recv_seq ≡ e.seq)
  unfolding accept
  accept-seq t k e h = elim (Option-cases (lookup e.from k.key_of)) [
    | inl missing ↦ ground arith
    | inr (key, found) ↦ ground arith
  ]

  -- The envelopes that a transcript accepts out of any stream have strictly rising numbers, the first
  -- above the one it had seen: no replay is accepted.
  pub receive-Rises :
      (t : Transcript) (k : Keyring) (es : List Envelope) → Rises t.recv_seq (receive t k es).1
  unfolding receive
  receive-Rises t k [] = tt
  receive-Rises t k (e ∷ es) = elim (Result-cases (accept P t k e)) [
    | inl (t', taken) ↦
        let (higher, now_at) = accept-seq t k e taken in
        rw (taken, receive)
          (higher, subst (λ n. Rises n (receive t' k es).1) now_at (receive-Rises t' k es))
    | inr (why, refused) ↦ rw (refused, receive) (receive-Rises t k es)
  ]

  send_seq-send_all :
      (s : Transcript) (id : Identity) (lost : List Envelope)
      → s.send_seq + length lost < 2 ^ 64
      → (send_all s id lost).send_seq ≡ s.send_seq + length lost
  unfolding send_all next
  send_seq-send_all s id [] room = omega arith
  send_seq-send_all s id (e ∷ es) room = omega (arith, send_seq-send_all (next P s id e).0 id es)

  pub accept-fresh :
      (t : Transcript) (k : Keyring) (e : Envelope)
      → open_envelope P k e ≡ ok tt
      → t.recv_seq < e.seq
      → accept P t k e ≡ ok (advance P t e)
  unfolding accept
  accept-fresh t k e opened higher = rw opened (ground arith)

  advance-gaps :
      (t : Transcript) (e : Envelope)
      → (advance P t e).gaps ≡ t.gaps + (if is_gap P t e then 1 else 0)
  unfolding advance
  advance-gaps t e = ground arith

  -- An envelope follows on exactly if nothing was lost before it.
  is_gap-send_all :
      (id : Identity) (s r : Transcript) (lost : List Envelope) (e : Envelope)
      → InSync s r
      → s.send_seq + length lost + 1 < 2 ^ 64
      → is_gap P r (next P (send_all s id lost) id e).1 ≡ (r.started && lost_some lost)
  unfolding is_gap next send_all seal
  is_gap-send_all id s r [] e sync room = ground (arith, sync.heads, sync.seqs)
  is_gap-send_all id s r (x ∷ xs) e sync room =
      ground (arith, sync.seqs, send_seq-send_all s id (x ∷ xs))

  -- From two ends in step, after any number of lost envelopes the next one is accepted and the ends
  -- are in step again; a loss counts as one gap if the receiver had heard something before, and no
  -- loss as none. The receiver's keyring lists the sender, the platform's laws hold, and no sequence
  -- number wraps.
  pub accept-after_loss :
      PlatformLaws P
      → (k : Keyring) (id : Identity) (s r : Transcript) (lost : List Envelope) (e : Envelope)
      → Knows P k id
      → InSync s r
      → s.send_seq + length lost + 1 < 2 ^ 64
      → let sent = next P (send_all s id lost) id e in
        (r' : Transcript) × (accept P r k sent.1 ≡ ok r')
        × InSync sent.0 r'
        × (r'.gaps ≡ r.gaps + (if r.started && lost_some lost then 1 else 0))
  unfolding next seal
  accept-after_loss laws k id s r lost e known sync room =
      let t = send_all s id lost in
      let sent = (next P t id e).1 in
      let number = send_seq-send_all s id lost (omega arith) in
      let opened =
        open-seal P laws k id (record e { seq = u64 (t.send_seq + 1); prev_hash = t.send_head })
          known in
      (
        advance P r sent,
        accept-fresh r k sent opened (omega (arith, number, sync.seqs)),
        unfold advance in record { heads = refl; seqs = refl },
        advance-gaps r sent
            ∙ ap (λ b. r.gaps + (if b then 1 else 0)) (is_gap-send_all id s r lost e sync room),
      )

  -- What the sender puts on the wire.
  unfoldable pub sent_of : Transcript → Identity → List Envelope → List Envelope
  sent_of s id [] = []
  sent_of s id (e ∷ es) = let step = next P s id e in step.1 ∷ sent_of step.0 id es

  -- From two ends in step and without losses, the receiver accepts every envelope in order, counts no
  -- gap, and the ends stay in step. The receiver's keyring lists the sender, the platform's laws hold,
  -- and no sequence number wraps.
  pub receive-sent_of :
      PlatformLaws P
      → (k : Keyring) (id : Identity) (s r : Transcript) (es : List Envelope) → Knows P k id
      → InSync s r
      → s.send_seq + length es < 2 ^ 64
      → let got = receive r k (sent_of s id es) in
        (got.1 ≡ sent_of s id es) × InSync (send_all s id es) got.0 × (got.0.gaps ≡ r.gaps)
  unfolding receive sent_of send_all
  receive-sent_of laws k id s r [] known sync room = (refl, sync, refl)
  receive-sent_of laws k id s r (e ∷ es) known sync room =
      let (r', taken, sync', gaps') =
        accept-after_loss laws k id s r [] e known sync (omega arith) in
      let number : (next P s id e).0.send_seq ≡ u64 (s.send_seq + 1) = unfold next in refl in
      let rest =
        receive-sent_of laws k id (next P s id e).0 r' es known sync' (omega (arith, number)) in
      rw (taken, receive)
        (ap (λ l. (next P s id e).1 ∷ l) rest.0, rest.1, ground (arith, rest.2, gaps'))
