-- ===== src/Consensus/Node/Misaddressed.antt =====
-- Deliver of internal/consensus on a request for a vote that was sealed for another node.
use crossfault.Prelude.{
  ◌<◌, ◌≡◌, refl, ap, sym, ◌∙◌, ℕ, false, none, some, Option, [], NodeId, NodeId-Key, no_node,
  Bytes, Map, lookup, ltb, Bool-cases, Option-cases, insert, inl, inr,
}
use crossfault.Platform.{Platform, PlatformLaws}
use crossfault.Codec.{decode_vote_req}
use crossfault.Messages.{VoteReq}
use crossfault.Crypt.Envelope.{Envelope, kind_request_vote, seal}
use crossfault.Crypt.Identity.{Identity}
use crossfault.Crypt.Transcript.{Transcript, advance}
use crossfault.Consensus.State.{Node, reset_election_timer}
use crossfault.Consensus.Node.{send, become_follower}
use crossfault.Consensus.Node.Handlers.{grants_vote, cast_vote, grants_pre_vote, handle_vote_req}
use crossfault.Consensus.Node.Deliver.{dispatch, decoded, note_heard, deliver}
use crossfault.Crypt.Tampering.{Knows, open-seal}
use crossfault.Crypt.Stream.{accept-fresh}
use crossfault.Crypt.Transcript.{is_gap}
use crossfault.Consensus.Node.Handlers.{believes_leader_is_live}

module _ (P : Platform) where
  -- A node with other streams from its peers.
  abbrev heard_as : Node P → Map NodeId Transcript → Node P
  heard_as n lines = record n { recv_tr = lines }

  send-heard_as :
      (n : Node P) (lines : Map NodeId Transcript) (to : NodeId) (k : ℕ) (b : Bytes)
      → send P (heard_as n lines) to k b ≡ heard_as (send P n to k b) lines
  unfolding send
  send-heard_as n lines to k b = elim (Option-cases (lookup to n.send_tr)) [
    | inl missing ↦ rw (missing, send) refl
    | inr (tr, found) ↦ rw (found, send) refl
  ]

  cast_vote-heard_as :
      (n : Node P) (lines : Map NodeId Transcript) (from : NodeId) (m : VoteReq)
      → cast_vote P (heard_as n lines) from m ≡ heard_as (cast_vote P n from m) lines
  unfolding cast_vote grants_vote reset_election_timer
  cast_vote-heard_as n lines from m = elim (Bool-cases (grants_vote P n m)) [
    | inl yes_vote ↦ rw (yes_vote, cast_vote) (send-heard_as _ lines from _ _)
    | inr no_vote ↦ rw (no_vote, cast_vote) (send-heard_as _ lines from _ _)
  ]

  handle_vote_req-heard_as :
      (n : Node P) (lines : Map NodeId Transcript) (from : NodeId) (m : VoteReq)
      → handle_vote_req P (heard_as n lines) from m ≡ heard_as (handle_vote_req P n from m) lines
  unfolding handle_vote_req become_follower reset_election_timer grants_pre_vote
      believes_leader_is_live cast_vote grants_vote
  handle_vote_req-heard_as n lines from m = elim (Bool-cases m.pre_vote) [
    | inl poll ↦ rw (poll, handle_vote_req) (send-heard_as n lines from _ _)
    | inr vote ↦ elim (Bool-cases (ltb n.current_term m.term)) [
      | inl newer ↦
          rw (vote, newer, handle_vote_req)
            (cast_vote-heard_as (become_follower P n m.term no_node) lines from
              (record m { pre_vote = false }))
      | inr older ↦
          rw (vote, older, handle_vote_req)
            (cast_vote-heard_as n lines from (record m { pre_vote = false }))
    ]
  ]

  decoded-heard_as :
      (n : Node P) (lines : Map NodeId Transcript) (from : NodeId) (o : Option VoteReq)
      → decoded P (heard_as n lines) o (handle_vote_req P (heard_as n lines) from)
        ≡ heard_as (decoded P n o (handle_vote_req P n from)) lines
  decoded-heard_as n lines from none = refl
  decoded-heard_as n lines from (some m) = handle_vote_req-heard_as n lines from m

  dispatch-vote_req :
      (n : Node P) (env : Envelope)
      → env.kind ≡ kind_request_vote
      → dispatch P n env
        ≡ decoded P n (decode_vote_req P env.payload) (handle_vote_req P n env.from)
  unfolding dispatch
  dispatch-vote_req n env vote = rw (vote, dispatch) refl

  -- A member's next envelope gets past the transcript, whoever it is for.
  deliver-vote_req :
      PlatformLaws P
      → (n : Node P) (id : Identity) (e : Envelope) {tr : Transcript} → e.kind ≡ kind_request_vote
      → Knows P n.ring id
      → lookup id.id n.recv_tr ≡ some tr
      → tr.recv_seq < e.seq
      → let x = note_heard P (record n { outbox = [] }) id.id (advance P tr (seal P id e)) in
        deliver P n (seal P id e)
        ≡ decoded P x (decode_vote_req P e.payload) (handle_vote_req P x id.id)
  unfolding deliver seal
  deliver-vote_req laws n id e {tr} vote known linked newer =
      let sealed = seal P id e in
      let opened = open-seal P laws n.ring id e known in
      rw (linked, deliver, accept-fresh P tr n.ring sealed opened newer)
        (dispatch-vote_req (note_heard P (record n { outbox = [] }) id.id (advance P tr sealed))
          sealed vote)

  -- Deliver does not look at the addressee: a request for a vote that a member seals, with a number above
  -- the last one seen from it, leaves the same node behind whoever it is addressed to, with the same vote,
  -- term, log, timers and answers, but for the hash of the envelope in the transcript with its sender. The
  -- platform's laws hold.
  pub deliver-misaddressed :
      PlatformLaws P
      → (n : Node P) (id : Identity) (e : Envelope) (to : NodeId) {tr : Transcript}
      → e.kind ≡ kind_request_vote
      → Knows P n.ring id
      → lookup id.id n.recv_tr ≡ some tr
      → tr.recv_seq < e.seq
      → let here = seal P id (record e { to = n.id }) in
        let elsewhere = seal P id (record e { to = to }) in
        deliver P n elsewhere
        ≡ record (deliver P n here) { recv_tr = insert id.id (advance P tr elsewhere) n.recv_tr }
  unfolding note_heard advance is_gap seal
  deliver-misaddressed laws n id e to {tr} vote known linked newer =
      let elsewhere = seal P id (record e { to = to }) in
      let here = seal P id (record e { to = n.id }) in
      let lines = insert id.id (advance P tr elsewhere) n.recv_tr in
      let x = note_heard P (record n { outbox = [] }) id.id (advance P tr here) in
      deliver-vote_req laws n id (record e { to = to }) vote known linked newer
      ∙ decoded-heard_as x lines id.id (decode_vote_req P e.payload)
      ∙ ap (λ y. heard_as y lines)
          (sym (deliver-vote_req laws n id (record e { to = n.id }) vote known linked newer))
