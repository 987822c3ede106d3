-- ===== src/Crypt/Transcript.antt =====
-- internal/crypt/chain.go: the hash-chained stream of envelopes from and to one peer.
use crossfault.Prelude.{
  ℕ, ◌+◌, ◌==◌, Bool, true, false, not, ◌&&◌, ◌||◌, Option, none, some, Bytes, NodeId, u64, leb,
  same, replicate, if◌then◌else◌,
}
use crossfault.Platform.{Platform}
use crossfault.Crypt.Identity.{Identity, Keyring, Result, ok, err, replay, ◌>>◌}
use crossfault.Crypt.Envelope.{Envelope, envelope_hash, seal, open_envelope}

abbrev pub zero_hash : Bytes
zero_hash = replicate 32 0

pub record Transcript : Type 0 where
  pub peer : NodeId
  pub send_head : Bytes
  pub send_seq : ℕ
  pub recv_head : Bytes
  pub recv_seq : ℕ
  pub started : Bool
  pub gaps : ℕ
  pub last_gap_from : ℕ
  pub last_gap_to : ℕ

abbrev pub new_transcript : NodeId → Transcript
new_transcript peer = record {
  peer = peer;
  send_head = zero_hash;
  send_seq = 0;
  recv_head = zero_hash;
  recv_seq = 0;
  started = false;
  gaps = 0;
  last_gap_from = 0;
  last_gap_to = 0;
}

-- LastGap, before it is printed: the numbers on both sides of the latest gap.
unfoldable pub last_gap : Transcript → Option (ℕ × ℕ)
last_gap t = if t.gaps == 0 then none else some (t.last_gap_from, t.last_gap_to)

module _ (P : Platform) where
  -- The transcript and the sealed envelope.
  unfoldable pub next : Transcript → Identity → Envelope → Transcript × Envelope
  unfolding seal envelope_hash
  next t id e =
      let seq = u64 (t.send_seq + 1) in
      let sealed = seal P id (record e { seq = seq; prev_hash = t.send_head }) in
      (record t { send_seq = seq; send_head = envelope_hash P sealed }, sealed)

  -- Whether an envelope follows on what came before it.
  unfoldable pub is_gap : Transcript → Envelope → Bool
  is_gap t e =
      t.started && (not (same e.prev_hash t.recv_head) || not (e.seq == u64 (t.recv_seq + 1)))

  -- The receiving side after a verified envelope with a new number.
  unfoldable pub advance : Transcript → Envelope → Transcript
  unfolding is_gap envelope_hash
  advance t e =
      let noted =
        if is_gap t e
        then record t { gaps = t.gaps + 1; last_gap_from = t.recv_seq; last_gap_to = e.seq }
        else t in
      record noted { recv_head = envelope_hash P e; recv_seq = e.seq; started = true }

  unfoldable pub accept : Transcript → Keyring → Envelope → Result Transcript
  unfolding advance
  accept t k e = do
    open_envelope P k e
    if leb e.seq t.recv_seq then err replay else ok (advance t e)
