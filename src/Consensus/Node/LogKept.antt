-- ===== src/Consensus/Node/LogKept.antt =====
-- The log of a replica of internal/consensus stays hash-chained, whatever it receives.
use crossfault.Codec.{decode_append_req}
use crossfault.Prelude.{
  ℕ, ◌+◌, ◌<◌, ◌≤◌, ◌^◌, ◌≡◌, ◌⊎◌, refl, subst, sym, ◌∙◌, Bool, true, false, some, List, [], ◌∷◌,
  Bytes, NodeId, NodeId-Key, length, ◌==◌, Option-cases, Bool-cases, inl, inr, arith,
}
use crossfault.Platform.{Platform}
use crossfault.Messages.{AppendReq, AppendResp, VoteReq, VoteResp, ProbeReq}
use crossfault.Crypt.Identity.{Error}
use crossfault.Crypt.Envelope.{Envelope}
use crossfault.Consensus.Log.{Log, log_len, term_at, entry_at, matches, append_from_leader}
use crossfault.Consensus.Log.Chain.{IsChained, append_from_leader-IsChained}
use crossfault.Consensus.State.{Node, log_event, reset_election_timer}
use crossfault.Consensus.Node.{
  send, become_follower, become_leader, start_campaign, promote_to_candidate, track_peer,
  track_peers, clear_heard,
}
use crossfault.Consensus.Node.Handlers.{
  follow, follow_commit, take_entries, advance_commit, cast_vote, handle_append_req,
  handle_append_resp, handle_vote_req, handle_vote_resp, handle_probe_req, handle_probe_resp,
}
use crossfault.Consensus.Node.Deliver.{refused, note_heard, dispatch, deliver}
use crossfault.Consensus.Node.Dispatching.{deliver_any}
use crossfault.Consensus.Node.Quiet.{send-Kept, broadcast_append-Kept, broadcast_vote_req-Kept}

pub matches-in_log : (l : Log) (i t : ℕ) → matches l i t ≡ true → i ≤ log_len l
unfolding matches term_at entry_at
matches-in_log l i t h = ground arith

module _ (P : Platform) where
  send-log :
      (n : Node P) (to : NodeId) (kind : ℕ) (payload : Bytes)
      → (send P n to kind payload).log ≡ n.log
  send-log n to kind payload = (send-Kept P n to kind payload).log

  -- What an AppendReq does to the log: nothing, or what AppendFromLeader does behind an index that is
  -- in the log.
  abbrev pub LogRule : Log → AppendReq → Log → Type 0
  LogRule l m l' =
      (l' ≡ l)
      ⊎ ((m.prev_index ≤ log_len l)
          × (matches l m.prev_index m.prev_term ≡ true)
          × (l' ≡ (append_from_leader P l m.prev_index m.entries).0))

  pub follow-log : (n : Node P) (from : NodeId) (m : AppendReq) → (follow P n from m).log ≡ n.log
  unfolding follow become_follower reset_election_timer
  follow-log n from m = ground arith

  pub take_entries-log :
      (n : Node P) (from : NodeId) (m : AppendReq)
      → (take_entries P n from m).log ≡ (append_from_leader P n.log m.prev_index m.entries).0
  unfolding take_entries follow_commit
  take_entries-log n from m = grind (arith, send-log)

  pub handle_append_req-LogRule :
      (n : Node P) (from : NodeId) (m : AppendReq)
      → LogRule n.log m (handle_append_req P n from m).log
  unfolding handle_append_req
  handle_append_req-LogRule n from m =
      grind (arith, send-log, follow-log, take_entries-log, matches-in_log)

  -- The logs of all other handlers.
  advance_commit-log : (n : Node P) → (advance_commit P n).log ≡ n.log
  unfolding advance_commit log_event
  advance_commit-log n = ground arith

  pub handle_append_resp-log :
      (n : Node P) (from : NodeId) (m : AppendResp) → (handle_append_resp P n from m).log ≡ n.log
  unfolding handle_append_resp become_follower reset_election_timer
  handle_append_resp-log n from m = grind (arith, advance_commit-log)

  handle_vote_req-log :
      (n : Node P) (from : NodeId) (m : VoteReq) → (handle_vote_req P n from m).log ≡ n.log
  unfolding handle_vote_req cast_vote become_follower reset_election_timer
  handle_vote_req-log n from m = grind (arith, send-log)

  start_campaign-log : (n : Node P) (after : Bool) → (start_campaign P n after).log ≡ n.log
  unfolding start_campaign log_event reset_election_timer
  start_campaign-log n after = (broadcast_vote_req-Kept P _ false).log

  track_peers-log : (n : Node P) (ms : List NodeId) → (track_peers P n ms).log ≡ n.log
  unfolding track_peers track_peer
  track_peers-log n [] = refl
  track_peers-log n (m ∷ ms) = grind (arith, track_peers-log (track_peer P n m) ms)

  become_leader-log : (n : Node P) → (become_leader P n).log ≡ n.log
  unfolding become_leader log_event clear_heard
  become_leader-log n = (broadcast_append-Kept P _).log ∙ track_peers-log _ _

  handle_vote_resp-log :
      (n : Node P) (from : NodeId) (m : VoteResp) → (handle_vote_resp P n from m).log ≡ n.log
  unfolding handle_vote_resp become_follower reset_election_timer promote_to_candidate
  handle_vote_resp-log n from m = grind (arith, become_leader-log, start_campaign-log)

  handle_probe_req-log :
      (n : Node P) (from : NodeId) (m : ProbeReq) → (handle_probe_req P n from m).log ≡ n.log
  unfolding handle_probe_req
  handle_probe_req-log n from m = send-log _ from _ _

  -- What an envelope may do to the log: nothing, or what the request to append in it does.
  abbrev pub DispatchLogRule : Log → Envelope → Log → Type 0
  DispatchLogRule l env l' =
      (l' ≡ l) ⊎ ((m : AppendReq) × (decode_append_req P env.payload ≡ some m) × LogRule l m l')

  dispatch-log : (n : Node P) (env : Envelope) → DispatchLogRule n.log env (dispatch P n env).log
  unfolding dispatch handle_probe_resp
  dispatch-log n env = elim (Option-cases (decode_append_req P env.payload)) [
    | inr (m, req) ↦ elim (Bool-cases (env.kind == 1)) [
      | inl is_append ↦ inr (m, req, ground (arith, handle_append_req-LogRule n env.from m))
      | inr other ↦ inl (
          grind (
            arith, handle_append_resp-log, handle_vote_req-log, handle_vote_resp-log,
            handle_probe_req-log,
          ))
    ]
    | inl bad ↦ inl (
        grind (
          arith, handle_append_resp-log, handle_vote_req-log, handle_vote_resp-log,
          handle_probe_req-log,
        ))
  ]

  refused-log : (n : Node P) (env : Envelope) (e : Error) → (refused P n env e).log ≡ n.log
  unfolding refused log_event
  refused-log n env Error.replay = refl
  refused-log n env _ = refl

  deliver-log : (n : Node P) (env : Envelope) → DispatchLogRule n.log env (deliver P n env).log
  unfolding deliver note_heard
  deliver-log n env =
      let empty = record n { outbox = [] } in
      deliver_any P (λ x. DispatchLogRule n.log env x.log) n env (inl refl)
        (λ e. inl (refused-log empty env e))
        (λ tr. dispatch-log (note_heard P empty env.from tr) env)

  -- A chained log stays chained through the delivery of any envelope, as long as no index that a
  -- request in it appends would wrap.
  pub deliver-IsChained :
      (n : Node P) (env : Envelope)
      → IsChained P n.log
      → ((m : AppendReq)
          → decode_append_req P env.payload ≡ some m
          → log_len n.log + length m.entries < 2 ^ 64)
      → IsChained P (deliver P n env).log
  deliver-IsChained n env c room = elim (deliver-log n env) [
    | inl same_log ↦ subst (IsChained P) (sym same_log) c
    | inr (m, req, rule) ↦ elim rule [
      | inl same_log ↦ subst (IsChained P) (sym same_log) c
      | inr (inside, agreed, now) ↦
          let fits = room m req in
          subst (IsChained P) (sym now)
            (append_from_leader-IsChained P n.log m.prev_index m.entries inside (omega arith) c).0
    ]
  ]
