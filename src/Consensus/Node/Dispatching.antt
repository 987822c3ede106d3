-- ===== src/Consensus/Node/Dispatching.antt =====
-- What a property of the state needs to hold after Deliver of internal/consensus: that it holds after
-- each handler.
use crossfault.Codec.{
  decode_append_req, decode_append_resp, decode_probe_req, decode_probe_resp, decode_vote_req,
  decode_vote_resp,
}
use crossfault.Prelude.{
  ◌≡◌, refl, Bool, true, false, ◌==◌, ◌||◌, if◌then◌else◌, Option, none, some, [], NodeId-Key,
  lookup, Option-cases, inl, inr,
}
use crossfault.Platform.{Platform}
use crossfault.Messages.{AppendReq, AppendResp, VoteReq, VoteResp, ProbeReq, ProbeResp}
use crossfault.Crypt.Identity.{Result-cases, Error}
use crossfault.Crypt.Envelope.{
  Envelope, kind_append_entries, kind_append_resp, kind_request_vote, kind_vote_resp, kind_pre_vote,
  kind_pre_vote_resp, kind_probe, kind_probe_resp,
}
use crossfault.Crypt.Transcript.{Transcript, accept}
use crossfault.Consensus.State.{Node}
use crossfault.Consensus.Node.Handlers.{
  handle_append_req, handle_append_resp, handle_vote_req, handle_vote_resp, handle_probe_req,
  handle_probe_resp,
}
use crossfault.Consensus.Node.Deliver.{refused, note_heard, decoded, dispatch, deliver}

module _ (P : Platform) (Q : Node P → Type 0) where
  pub if_any : (c : Bool) {x y : Node P} → Q x → Q y → Q (if c then x else y)
  if_any true h h' = h
  if_any false h h' = h'

  decoded_any :
      {M : Type 0} (n : Node P) (o : Option M) {handle : M → Node P}
      → Q n
      → ((m : M) → o ≡ some m → Q (handle m))
      → Q (decoded P n o handle)
  decoded_any n none h each = h
  decoded_any n (some m) h each = each m refl

  -- What holds of the node and of what every handler makes of it holds of what dispatch makes of it.
  pub dispatch_any :
      (n : Node P) (env : Envelope)
      → Q n
      → ((m : AppendReq)
          → decode_append_req P env.payload ≡ some m
          → Q (handle_append_req P n env.from m))
      → ((m : AppendResp) → Q (handle_append_resp P n env.from m))
      → ((m : VoteReq) → Q (handle_vote_req P n env.from m))
      → ((m : VoteResp) → Q (handle_vote_resp P n env.from m))
      → ((m : ProbeReq) → Q (handle_probe_req P n env.from m))
      → ((m : ProbeResp) → Q (handle_probe_resp P n env.from m))
      → Q (dispatch P n env)
  unfolding dispatch
  dispatch_any n env kept h1 h2 h3 h4 h5 h6 =
      let k = env.kind in
      let b = env.payload in
      if_any (k == kind_append_entries) (decoded_any n (decode_append_req P b) kept h1) (
        if_any (k == kind_append_resp) (decoded_any n (decode_append_resp P b) kept (λ m q. h2 m)) (
          if_any ((k == kind_request_vote) || (k == kind_pre_vote))
            (decoded_any n (decode_vote_req P b) kept (λ m q. h3 m))
            (if_any ((k == kind_vote_resp) || (k == kind_pre_vote_resp))
              (decoded_any n (decode_vote_resp P b) kept (λ m q. h4 m))
              (if_any (k == kind_probe) (decoded_any n (decode_probe_req P b) kept (λ m q. h5 m)) (
                if_any (k == kind_probe_resp)
                  (decoded_any n (decode_probe_resp P b) kept (λ m q. h6 m)) kept)))))

  -- What holds of a node with an empty outbox, after a refusal and after the dispatch of an accepted
  -- envelope holds after Deliver.
  pub deliver_any :
      (n : Node P) (env : Envelope)
      → Q (record n { outbox = [] })
      → ((e : Error) → Q (refused P (record n { outbox = [] }) env e))
      → ((tr : Transcript)
          → Q (dispatch P (note_heard P (record n { outbox = [] }) env.from tr) env))
      → Q (deliver P n env)
  unfolding deliver
  deliver_any n env unknown refuses takes = elim (Option-cases (lookup env.from n.recv_tr)) [
    | inl stranger ↦ rw (stranger, deliver) unknown
    | inr (tr, member) ↦ elim (Result-cases (accept P tr n.ring env)) [
      | inl (tr', taken) ↦ rw (member, deliver, taken) (takes tr')
      | inr (e, why) ↦ rw (member, deliver, why) (refuses e)
    ]
  ]
