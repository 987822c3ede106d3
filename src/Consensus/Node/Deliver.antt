-- ===== src/Consensus/Node/Deliver.antt =====
-- Deliver of internal/consensus/handlers.go, the one door for messages, and Propose. A payload that does
-- not decode is dropped.
use crossfault.Codec.{
  decode_append_req, decode_append_resp, decode_probe_req, decode_probe_resp, decode_vote_req,
  decode_vote_resp,
}
use crossfault.Prelude.{
  ◌+◌, ◌==◌, true, not, ◌||◌, Option, none, some, [], Bytes, NodeId, NodeId-Key, lookup, insert,
  ltb, if◌then◌else◌,
}
use crossfault.Platform.{Platform}
use crossfault.Crypt.Identity.{ok, err, Error, replay}
use crossfault.Crypt.Envelope.{
  Envelope, kind_append_entries, kind_append_resp, kind_request_vote, kind_vote_resp, kind_pre_vote,
  kind_pre_vote_resp, kind_probe, kind_probe_resp,
}
use crossfault.Crypt.Transcript.{Transcript, accept}
use crossfault.Netmatrix.View.{observe_inbound}
use crossfault.Consensus.Log.{append}
use crossfault.Consensus.State.{Node, drop_forged, proposed, log_event}
use crossfault.Consensus.Node.{broadcast_append}
use crossfault.Consensus.Node.Handlers.{
  is_leader, handle_append_req, handle_append_resp, handle_vote_req, handle_vote_resp,
  handle_probe_req, handle_probe_resp,
}

module _ (P : Platform) where
  -- A handler behind its decoder.
  abbrev pub decoded : {M : Type 0} → Node P → Option M → (M → Node P) → Node P
  decoded n none handle = n
  decoded n (some m) handle = handle m

  unfoldable pub dispatch : Node P → Envelope → Node P
  dispatch n env =
      let k = env.kind in
      if k == kind_append_entries
      then decoded n (decode_append_req P env.payload) (handle_append_req P n env.from)
      else if k == kind_append_resp
      then decoded n (decode_append_resp P env.payload) (handle_append_resp P n env.from)
      else if (k == kind_request_vote) || (k == kind_pre_vote)
      then decoded n (decode_vote_req P env.payload) (handle_vote_req P n env.from)
      else if (k == kind_vote_resp) || (k == kind_pre_vote_resp)
      then decoded n (decode_vote_resp P env.payload) (handle_vote_resp P n env.from)
      else if k == kind_probe
      then decoded n (decode_probe_req P env.payload) (handle_probe_req P n env.from)
      else if k == kind_probe_resp
      then decoded n (decode_probe_resp P env.payload) (handle_probe_resp P n env.from)
      else n

  -- A message that the transcript refuses is counted, and noted in the activity log unless it is a replay.
  unfoldable pub refused : Node P → Envelope → Error → Node P
  refused n env replay = record n {
    counters = record (n.counters) { dropped_replay = n.dropped_replay + 1 };
  }
  refused n env _ =
      log_event P
        (record n { counters = record (n.counters) { dropped_bad_sig = n.dropped_bad_sig + 1 } })
        (drop_forged env.kind env.from)

  -- What a verified message says of the link that it came over.
  unfoldable pub note_heard : Node P → NodeId → Transcript → Node P
  note_heard n from tr = record n {
    recv_tr = insert from tr n.recv_tr;
    heard_from = insert from true n.heard_from;
    inbound_up = insert from true n.inbound_up;
    last_heard = insert from n.tick n.last_heard;
    view = observe_inbound n.view from;
    counters = record (n.counters) {
      dropped_chain = if ltb n.dropped_chain tr.gaps then tr.gaps else n.dropped_chain;
    };
  }

  unfoldable pub deliver : Node P → Envelope → Node P
  deliver n0 env =
      let n = record n0 { outbox = [] } in
      elim (lookup env.from n.recv_tr) [
        | none ↦ n
        | some tr ↦ elim (accept P tr n.ring env) [
          | err e ↦ refused n env e
          | ok tr' ↦ dispatch (note_heard n env.from tr') env
        ]
      ]

  -- Propose; `none` is ErrNotLeader.
  unfoldable pub propose : Node P → Bytes → Option (Node P)
  propose n cmd =
      if not (is_leader n.role)
      then none
      else some (
          broadcast_append P
            (log_event P (record n { log = append P n.log n.current_term cmd }) (proposed cmd)))
