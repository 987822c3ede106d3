-- ===== src/Examples/Delivery.antt =====
-- Deliver, Propose and the commit rule of internal/consensus at concrete replicas.
use crossfault.Consensus.Log.{up_to_date}
use crossfault.Crypt.Identity.{lookup_key}
use crossfault.Crypt.Envelope.{verify, len_prefixed}
use crossfault.Prelude.{big_endian}
use crossfault.Codec.{encode_append_req}
use crossfault.Codec.{decode_append_req, encode_append_resp}
use crossfault.Prelude.{
  ℕ, ◌+◌, ◌^◌, ◌<◌, ◌≡◌, ◌≢◌, refl, ◌⊎◌, true, some, [], ◌∷◌, Bytes, NodeId-Key, lookup, length,
  arith, bytes_discrete, ℕ_discrete,
}
use crossfault.Platform.{Collision}
use crossfault.Messages.{AppendReq}
use crossfault.Crypt.Identity.{Error, err, bad_signature}
use crossfault.Crypt.Envelope.{Envelope, seal, open_envelope, tamper, digest, preimage}
use crossfault.Crypt.Encoding.{IsWire}
use crossfault.Crypt.Tampering.{Knows, OnlySigns}
use crossfault.Crypt.Transcript.{Transcript, new_transcript, accept, advance}
use crossfault.Consensus.Log.{log_len, append, append_chained, chained, matches, entry_at, term_at}
use crossfault.Consensus.Log.Chain.{IsChained}
use crossfault.Consensus.State.{Node, leader}
use crossfault.Consensus.Node.Handlers.{handle_append_req, advance_commit}
use crossfault.Consensus.Node.Deliver.{dispatch, note_heard, deliver, propose}
use crossfault.Consensus.Node.Tick.{tick}
use crossfault.Consensus.Node.Commit.{CommitRule, advance_commit-CommitRule, heartbeat_overstates}
use crossfault.Consensus.Node.Rejection.{protocol, deliver-tampered}
use crossfault.Consensus.Node.Misaddressed.{deliver-misaddressed}
use crossfault.Consensus.Node.{become_follower, send}
use crossfault.Consensus.State.{reset_election_timer}
use crossfault.Consensus.Node.Handlers.{handle_vote_req, cast_vote, grants_vote}
use crossfault.Codec.{encode_vote_req}
use crossfault.Crypt.Envelope.{kind_request_vote}
use crossfault.Prelude.{insert, false}
use crossfault.Consensus.Node.LogKept.{deliver-IsChained}
use crossfault.Consensus.Node.Proposing.{ProposeRule, propose-ProposeRule}
use crossfault.Consensus.Node.Outbox.{outbox_forgotten}
use crossfault.Examples.Toy.{toy, toy-laws, a, c, key_pair, OnlySigns-toy}
use crossfault.Examples.Log.{stale_log, stale_log-IsChained, length-stale_log}
use crossfault.Examples.Replica.{replica, heartbeat_of_a, wire}

unsigned-refused :
    (tr : Transcript)
    → lookup wire.from replica.recv_tr ≡ some tr
    → (e : Error) × (accept toy tr replica.ring wire ≡ err e)
unfolding accept open_envelope lookup bytes_discrete ℕ_discrete
unsigned-refused tr member = (bad_signature, refl)

-- A path that turns term 3 into term 9 in the payload.
abbrev raise_term : Bytes → Bytes
raise_term [] = []
raise_term (t ∷ rest) = 9 ∷ rest

sealed-IsWire : IsWire (seal toy (key_pair a) wire)
unfolding seal encode_append_req
sealed-IsWire = record {
  from_fits = omega arith;
  to_fits = omega arith;
  payload_fits = omega arith;
  term_fits = omega arith;
  seq_fits = omega arith;
  hash_fits = refl;
}

tampered-IsWire : IsWire (tamper raise_term (seal toy (key_pair a) wire))
unfolding seal tamper encode_append_req
tampered-IsWire = record {
  from_fits = omega arith;
  to_fits = omega arith;
  payload_fits = omega arith;
  term_fits = omega arith;
  seq_fits = omega arith;
  hash_fits = refl;
}

sealed-OnlySigns :
    OnlySigns toy (seal toy (key_pair a) wire).sig (digest toy (seal toy (key_pair a) wire))
unfolding seal digest preimage
sealed-OnlySigns = OnlySigns-toy a (digest toy wire) (toy-laws.length-sha256 (preimage wire))

changed : raise_term (seal toy (key_pair a) wire).payload ≢ (seal toy (key_pair a) wire).payload
unfolding seal encode_append_req
changed = ground arith

deliver-tampered_example :
    ((protocol toy (deliver toy replica (tamper raise_term (seal toy (key_pair a) wire)))
        ≡ protocol toy replica)
      × ((deliver toy replica (tamper raise_term (seal toy (key_pair a) wire))).outbox ≡ []))
    ⊎ Collision toy
deliver-tampered_example =
    deliver-tampered toy toy-laws replica (key_pair a) wire raise_term sealed-IsWire tampered-IsWire
      sealed-OnlySigns changed

known : Knows toy replica.ring (key_pair a)
unfolding lookup bytes_discrete ℕ_discrete
known = record { listed = refl; paired = refl }

linked : lookup a replica.recv_tr ≡ some (new_transcript a)
unfolding lookup bytes_discrete ℕ_discrete
linked = refl

-- A request of a for votes in term 4.
abbrev candidacy : Envelope
candidacy = record wire {
  kind = kind_request_vote;
  payload =
      encode_vote_req toy
        (record { term = 4; candidate = a; last_index = 9; last_term = 3; pre_vote = false });
}

newer : 0 < candidacy.seq
newer = omega arith

deliver-misaddressed_example :
    let elsewhere = seal toy (key_pair a) (record candidacy { to = c }) in
    deliver toy replica elsewhere
    ≡ record (deliver toy replica (seal toy (key_pair a) (record candidacy { to = replica.id }))) {
      recv_tr = insert a (advance toy (new_transcript a) elsewhere) replica.recv_tr;
    }
deliver-misaddressed_example =
    deliver-misaddressed toy toy-laws replica (key_pair a) candidacy c refl known linked newer

-- The vote of b goes to a, by the request that a sealed for c.
steered_test :
    (deliver toy replica (seal toy (key_pair a) (record candidacy { to = c }))).voted_for ≡ a
unfolding deliver lookup bytes_discrete seal ℕ_discrete accept open_envelope verify lookup_key
    dispatch note_heard handle_vote_req cast_vote grants_vote up_to_date become_follower
    reset_election_timer send insert preimage len_prefixed big_endian encode_vote_req append
steered_test = refl

room :
    (m : AppendReq)
    → decode_append_req toy (seal toy (key_pair a) wire).payload ≡ some m
    → log_len replica.log + length m.entries < 2 ^ 64
unfolding seal encode_append_req
room m decoded = ground (arith, length-stale_log)

deliver-IsChained_example : IsChained toy (deliver toy replica (seal toy (key_pair a) wire)).log
deliver-IsChained_example =
    deliver-IsChained toy replica (seal toy (key_pair a) wire) stale_log-IsChained room

abbrev leading : Node toy
leading = record replica { role = leader; match_index = (a, 2) ∷ [] }

propose-ProposeRule_example : ProposeRule toy leading (9 ∷ []) (propose toy leading (9 ∷ []))
propose-ProposeRule_example =
    propose-ProposeRule toy leading (9 ∷ []) (omega (arith, length-stale_log)) stale_log-IsChained

outbox_forgotten_example :
    (tick toy (record replica { outbox = wire ∷ [] }) ≡ tick toy replica)
    × ((env : Envelope)
        → deliver toy (record replica { outbox = wire ∷ [] }) env ≡ deliver toy replica env)
outbox_forgotten_example = outbox_forgotten toy replica (wire ∷ [])

advance_commit-CommitRule_example : CommitRule toy leading (advance_commit toy leading).commit_index
advance_commit-CommitRule_example = advance_commit-CommitRule toy leading

agreed : matches stale_log 1 1 ≡ true
unfolding matches append append_chained chained entry_at term_at
agreed = refl

sending : lookup a replica.send_tr ≡ some (new_transcript a)
unfolding lookup bytes_discrete ℕ_discrete
sending = refl

heartbeat_overstates_example :
    (env : Envelope) × (claim : ℕ) × ((handle_append_req toy replica a heartbeat_of_a).outbox
      ≡ env ∷ [])
    × (env.payload
        ≡ encode_append_resp toy
            (record { term = 3; success = true; match_index = claim; conflict_index = 0 }))
    × (1 < claim)
heartbeat_overstates_example =
    heartbeat_overstates toy replica a heartbeat_of_a sending (omega arith) refl agreed
      (omega (arith, length-stale_log))
