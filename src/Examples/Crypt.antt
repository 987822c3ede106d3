-- ===== src/Examples/Crypt.antt =====
-- internal/crypt at concrete envelopes and transcripts.
use mathlib.Core.List.{Sublist, mem-cons_self, mem-cons_of_mem}
use crossfault.Crypt.Channel.{Genuine, receive-Sublist}
use crossfault.Prelude.{
  ℕ_discrete, bytes_discrete, big_endian, ◌+◌, ◌≡◌, refl, ◌⊎◌, List, [], ◌∷◌, ◌++◌, Bytes, length,
  arith, true, if◌then◌else◌, ◌&&◌, lookup, NodeId-Key,
}
use crossfault.Platform.{Collision}
use crossfault.Crypt.Identity.{lookup_key, sign, ok, err, bad_signature}
use crossfault.Crypt.Envelope.{
  verify, len_prefixed, Envelope, seal, open_envelope, digest, preimage, kind_probe, tamper,
}
use crossfault.Crypt.Transcript.{Transcript, new_transcript, zero_hash, accept, next}
use crossfault.Crypt.Encoding.{IsWire, SameSigned, preimage_inj}
use crossfault.Crypt.Tampering.{Knows, OnlySigns}
use crossfault.Crypt.Stream.{
  receive, accept-after_loss, receive-sent_of, InSync, sent_of, send_all, lost_some,
}
use crossfault.Examples.Toy.{toy, toy-laws, a, b, ring, key_pair, OnlySigns-toy}
use crossfault.Prelude.{bytes_discrete}
use crossfault.Crypt.Identity.{lookup_key, sign}
use crossfault.Prelude.{big_endian}
use crossfault.Crypt.Envelope.{verify, len_prefixed, len_prefixed}
use crossfault.Prelude.{big_endian}

abbrev probe : Envelope
probe = record {
  from = a;
  to = b;
  kind = kind_probe;
  term = 3;
  seq = 1;
  prev_hash = zero_hash;
  payload = 3 ∷ b'a' ∷ [];
  sig = [];
}

probe-IsWire : (sig : Bytes) → IsWire (record probe { sig = sig })
probe-IsWire sig = record {
  from_fits = omega arith;
  to_fits = omega arith;
  payload_fits = omega arith;
  term_fits = omega arith;
  seq_fits = omega arith;
  hash_fits = refl;
}

preimage_inj_example : SameSigned probe (record probe { sig = 7 ∷ [] })
unfolding preimage
preimage_inj_example =
    preimage_inj probe (record probe { sig = 7 ∷ [] }) (probe-IsWire []) (probe-IsWire (7 ∷ []))
      refl

known : Knows toy ring (key_pair a)
unfolding lookup bytes_discrete ℕ_discrete
known = record { listed = refl; paired = refl }

-- A forger raises the term in the payload of a sealed probe; the keyring refuses it.
tampered_probe_test :
    open_envelope toy ring (tamper (λ p. 9 ∷ p) (seal toy (key_pair a) probe)) ≡ err bad_signature
unfolding open_envelope lookup_key lookup bytes_discrete verify seal sign digest preimage
    len_prefixed big_endian tamper ℕ_discrete
tampered_probe_test = refl

-- A sealed envelope with its own signature, as it arrives untouched.
abbrev sealed : Envelope
sealed = seal toy (key_pair a) probe

sealed-IsWire : IsWire sealed
unfolding seal
sealed-IsWire = probe-IsWire (toy.sign_with a (digest toy probe))

sealed-OnlySigns : OnlySigns toy sealed.sig (digest toy sealed)
unfolding seal digest preimage
sealed-OnlySigns = OnlySigns-toy a (digest toy probe) (toy-laws.length-sha256 (preimage probe))

-- Two probes to b are lost on the way before the third one arrives.
abbrev lost : List Envelope
lost = probe ∷ record probe { term = 4 } ∷ []

abbrev sending : Transcript
sending = record (new_transcript b) { send_seq = 5 }

abbrev receiving : Transcript
receiving = record (new_transcript a) { recv_seq = 5; started = true }

in_step : InSync sending receiving
in_step = record { heads = refl; seqs = refl }

accept-after_loss_example :
    let sent = next toy (send_all toy sending (key_pair a) lost) (key_pair a) probe in
    (r' : Transcript) × (accept toy receiving ring sent.1 ≡ ok r')
    × InSync sent.0 r'
    × (r'.gaps ≡ receiving.gaps + (if receiving.started && lost_some lost then 1 else 0))
accept-after_loss_example =
    accept-after_loss toy toy-laws ring (key_pair a) sending receiving lost probe known in_step
      (omega arith)

receive-sent_of_example :
    let got = receive toy receiving ring (sent_of toy sending (key_pair a) lost) in
    (got.1 ≡ sent_of toy sending (key_pair a) lost)
    × InSync (send_all toy sending (key_pair a) lost) got.0
    × (got.0.gaps ≡ receiving.gaps)
receive-sent_of_example =
    receive-sent_of toy toy-laws ring (key_pair a) sending receiving lost known in_step
      (omega arith)

-- A replayed stream: every envelope arrives twice.
abbrev replayed : List Envelope
replayed = sent_of toy sending (key_pair a) lost ++ sent_of toy sending (key_pair a) lost

replayed_test : length (receive toy receiving ring replayed).1 ≡ 2
unfolding receive sent_of accept open_envelope lookup bytes_discrete next ℕ_discrete big_endian
    preimage len_prefixed
replayed_test = refl

abbrev first_sent : Transcript × Envelope
first_sent = next toy sending (key_pair a) probe

abbrev second_sent : Transcript × Envelope
second_sent = next toy first_sent.0 (key_pair a) (record probe { term = 4 })

abbrev both_sent : List Envelope
both_sent = sent_of toy sending (key_pair a) lost

first-Genuine : IsWire first_sent.1 × Genuine toy ring both_sent first_sent.1
unfolding next seal digest preimage sent_of
first-Genuine =
    let wire : IsWire first_sent.1 = record {
      from_fits = omega arith;
      to_fits = omega arith;
      payload_fits = omega arith;
      term_fits = omega arith;
      seq_fits = omega arith;
      hash_fits = refl;
    } in
    (
      wire,
      λ opened. (
        first_sent.1,
        mem-cons_self,
        refl,
        wire,
        OnlySigns-toy a (digest toy first_sent.1) (toy-laws.length-sha256 (preimage first_sent.1)),
      ),
    )

second-Genuine : IsWire second_sent.1 × Genuine toy ring both_sent second_sent.1
unfolding next seal digest preimage sent_of
second-Genuine =
    let wire : IsWire second_sent.1 = record {
      from_fits = omega arith;
      to_fits = omega arith;
      payload_fits = omega arith;
      term_fits = omega arith;
      seq_fits = omega arith;
      hash_fits = toy-laws.length-sha256 (preimage first_sent.1);
    } in
    (
      wire,
      λ opened. (
        second_sent.1,
        mem-cons_of_mem first_sent.1 mem-cons_self,
        refl,
        wire,
        OnlySigns-toy a (digest toy second_sent.1)
            (toy-laws.length-sha256 (preimage second_sent.1)),
      ),
    )

-- The second envelope arrives before the first and once more after it.
abbrev scrambled : List Envelope
scrambled = second_sent.1 ∷ first_sent.1 ∷ second_sent.1 ∷ []

receive-Sublist_example : Sublist (receive toy receiving ring scrambled).1 both_sent ⊎ Collision toy
receive-Sublist_example =
    receive-Sublist toy toy-laws ring (key_pair a) sending receiving lost scrambled (omega arith)
      (second-Genuine, (first-Genuine, (second-Genuine, tt)))
