-- ===== src/Examples/Committed.antt =====
-- Replica b of internal/consensus with one committed entry, which the leader's request leaves alone.
use crossfault.Codec.{decode_append_req}
use crossfault.Crypt.Envelope.{len_prefixed}
use crossfault.Crypt.Envelope.{preimage}
use crossfault.Prelude.{big_endian}
use crossfault.Prelude.{refl, ◌≡◌, some, [], ◌∷◌, length, arith}
use crossfault.Messages.{AppendReq}
use crossfault.Consensus.State.{Node}
use crossfault.Consensus.Ballot.{clock, message, command, acts}
use crossfault.Consensus.Durable.{Durable, Respects}
use crossfault.Consensus.Durable.Lifetime.{RunsWithin, acts-Durable}
use crossfault.Crypt.Envelope.{Envelope, seal}
use crossfault.Prelude.{lookup, insert, bytes_discrete, ℕ_discrete}
use crossfault.Crypt.Identity.{lookup_key}
use crossfault.Crypt.Envelope.{open_envelope, verify}
use crossfault.Crypt.Transcript.{accept}
use crossfault.Consensus.Log.{
  matches, append_from_leader, entry_at, truncate_from, append, append_chained, chained,
}
use crossfault.Consensus.State.{reset_election_timer}
use crossfault.Consensus.Node.{send}
use crossfault.Consensus.Node.Handlers.{handle_append_req, follow, take_entries, follow_commit}
use crossfault.Consensus.Node.Deliver.{deliver, dispatch, note_heard}
use crossfault.Consensus.Ballot.{act}
use crossfault.Examples.Toy.{toy, a, b, key_pair}
use crossfault.Examples.Log.{length-stale_log}
use crossfault.Examples.Replica.{replica, wire}

abbrev holder : Node toy
holder = record replica { commit_index = 1 }

-- Two entries behind the first one, the first of which conflicts with what the replica has.
abbrev correction : Envelope
correction =
    seal toy (key_pair a)
      (record wire { payload = 3 ∷ 1 ∷ 1 ∷ 2 ∷ 97 ∷ 1 ∷ 2 ∷ 121 ∷ 3 ∷ 3 ∷ 122 ∷ [] })

correction-Respects :
    (m : AppendReq) → decode_append_req toy correction.payload ≡ some m → Respects toy holder m
unfolding seal
correction-Respects m read =
    let prev : m.prev_index ≡ 1 = ground arith in
    let two : length m.entries ≡ 2 = ground arith in
    (omega arith, λ j old new below at_log at_m. absurd (omega arith))

holder-RunsWithin : RunsWithin toy holder (message correction ∷ clock ∷ command b ∷ [])
holder-RunsWithin = (correction-Respects, (tt, (tt, tt)))

acts-Durable_example :
    Durable toy holder (acts toy holder (message correction ∷ clock ∷ command b ∷ []))
acts-Durable_example =
    acts-Durable toy holder (message correction ∷ clock ∷ command b ∷ [])
      (omega (arith, length-stale_log)) holder-RunsWithin

-- The replica takes the correction and commits its first entry.
corrected_test : (acts toy holder (message correction ∷ [])).commit_index ≡ 2
unfolding acts act deliver accept open_envelope verify lookup_key seal dispatch note_heard
    handle_append_req matches follow take_entries follow_commit append_from_leader entry_at
    truncate_from send lookup insert bytes_discrete ℕ_discrete reset_election_timer append
    append_chained chained big_endian preimage len_prefixed
corrected_test = refl
