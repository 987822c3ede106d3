-- ===== src/Consensus/Durable/Handling.antt =====
-- What the handlers of internal/consensus do to the log and the commit index.
use crossfault.Prelude.{
  ℕ, ◌<◌, ◌≤◌, ◌≡◌, ◌⊎◌, refl, ap, ◌∙◌, Bool, true, false, List, [], ◌∷◌, Bytes, NodeId, NodeId-Key,
  take, ltb, if◌then◌else◌, inl, inr, arith,
}
use crossfault.Platform.{Platform}
use crossfault.Messages.{AppendReq, AppendResp, VoteReq, VoteResp, ProbeReq}
use crossfault.Consensus.Log.{log_len, last_index, entry_at, term_at, matches, append_from_leader}
use crossfault.Consensus.Log.Splice.{contents}
use crossfault.Consensus.State.{Node, leader, log_event, reset_election_timer, members_of}
use crossfault.Consensus.Node.{
  send, become_follower, become_leader, start_campaign, promote_to_candidate, track_peer,
  track_peers, clear_heard,
}
use crossfault.Consensus.Node.Handlers.{
  min64, follow, follow_commit, take_entries, may_commit, advance_commit, cast_vote,
  handle_append_req, handle_append_resp, handle_vote_req, handle_vote_resp, handle_probe_req,
}
use crossfault.Consensus.Node.Quiet.{
  Kept, send-Kept, broadcast_append-Kept, broadcast_vote_req-Kept,
}
use crossfault.Consensus.Node.LogKept.{matches-in_log}
use crossfault.Consensus.Durable.{Respects, CommitInLog, Durable}
use crossfault.Consensus.Durable.Splicing.{committed-append_from_leader}

module _ (P : Platform) where
  abbrev pub Steady : Node P → Node P → Type 0
  Steady n n' = (n'.log ≡ n.log) × (n'.commit_index ≡ n.commit_index)

  pub Kept-Steady : (n n' : Node P) → Kept P n n' → Steady n n'
  Kept-Steady n n' k = (k.log, k.commit_index)

  pub Steady-Durable : (n n' : Node P) → CommitInLog P n → Steady n n' → Durable P n n'
  Steady-Durable n n' inside (log, commit) = (
    omega (arith, commit),
    omega (arith, commit, ap log_len log),
    ap (λ l. take n.commit_index (contents l)) log,
  )

  send-Steady :
      (n : Node P) (to : NodeId) (kind : ℕ) (payload : Bytes) → Steady n (send P n to kind payload)
  send-Steady n to kind payload = Kept-Steady n _ (send-Kept P n to kind payload)

  follow-Steady : (n : Node P) (from : NodeId) (m : AppendReq) → Steady n (follow P n from m)
  unfolding follow become_follower reset_election_timer
  follow-Steady n from m = ground arith

  -- The commit index once the entries are in.
  take_entries-commit :
      (n : Node P) (from : NodeId) (m : AppendReq)
      → let l' = (append_from_leader P n.log m.prev_index m.entries).0 in
        ((take_entries P n from m).log ≡ l')
        × ((take_entries P n from m).commit_index ≡ (
            if ltb n.commit_index m.leader_commit
            then min64 m.leader_commit (last_index l')
            else n.commit_index))
  unfolding take_entries follow_commit
  take_entries-commit n from m = grind (arith, send-Steady)

  -- What a request does to log and commit index: nothing, or what `take_entries` does.
  handle_append_req-cases :
      (n : Node P) (from : NodeId) (m : AppendReq)
      → Steady n (handle_append_req P n from m)
        ⊎ ((matches n.log m.prev_index m.prev_term ≡ true)
            × ((handle_append_req P n from m).log
                ≡ (append_from_leader P n.log m.prev_index m.entries).0)
            × ((handle_append_req P n from m).commit_index ≡ (
                if ltb n.commit_index m.leader_commit
                then min64 m.leader_commit
                    (last_index (append_from_leader P n.log m.prev_index m.entries).0)
                else n.commit_index)))
  unfolding handle_append_req
  handle_append_req-cases n from m = grind (arith, send-Steady, follow-Steady, take_entries-commit)

  pub handle_append_req-Durable :
      (n : Node P) (from : NodeId) (m : AppendReq)
      → CommitInLog P n
      → Respects P n m
      → Durable P n (handle_append_req P n from m)
  handle_append_req-Durable n from m inside respects = elim (handle_append_req-cases n from m) [
    | inl steady ↦ Steady-Durable n (handle_append_req P n from m) inside steady
    | inr (agreed, log, commit) ↦
        let before = matches-in_log n.log m.prev_index m.prev_term agreed in
        let (longer, kept) = committed-append_from_leader P n m inside respects before in
        (
          ground (arith, commit, longer),
          ground (arith, commit, longer, ap log_len log),
          ap (λ l. take n.commit_index (contents l)) log ∙ kept,
        )
  ]

  may_commit-in_log :
      (n : Node P) (c : ℕ) → may_commit P n c ≡ true → (n.commit_index < c) × (c ≤ log_len n.log)
  unfolding may_commit term_at entry_at
  may_commit-in_log n c h = ground arith

  pub advance_commit-Durable : (n : Node P) → CommitInLog P n → Durable P n (advance_commit P n)
  unfolding advance_commit log_event
  advance_commit-Durable n inside = grind (arith, may_commit-in_log)

  cast_vote-Steady : (n : Node P) (from : NodeId) (m : VoteReq) → Steady n (cast_vote P n from m)
  unfolding cast_vote reset_election_timer
  cast_vote-Steady n from m = grind (arith, send-Steady)

  pub handle_vote_req-Steady :
      (n : Node P) (from : NodeId) (m : VoteReq) → Steady n (handle_vote_req P n from m)
  unfolding handle_vote_req become_follower reset_election_timer
  handle_vote_req-Steady n from m = grind (arith, send-Steady, cast_vote-Steady)

  pub start_campaign-Steady : (n : Node P) (after : Bool) → Steady n (start_campaign P n after)
  unfolding start_campaign log_event reset_election_timer
  start_campaign-Steady n after =
      let k = broadcast_vote_req-Kept P _ false in (k.log, k.commit_index)

  track_peers-Steady : (n : Node P) (ms : List NodeId) → Steady n (track_peers P n ms)
  unfolding track_peers track_peer
  track_peers-Steady n [] = (refl, refl)
  track_peers-Steady n (m ∷ ms) = grind (arith, track_peers-Steady (track_peer P n m) ms)

  become_leader-Steady : (n : Node P) → Steady n (become_leader P n)
  unfolding become_leader log_event clear_heard
  become_leader-Steady n =
      let crowned =
        clear_heard P (record n { role = leader; leader_id = n.id; heartbeat_elapsed = 0 }) in
      let (l, c) = track_peers-Steady crowned (members_of P crowned) in
      let k = broadcast_append-Kept P _ in (k.log ∙ l, k.commit_index ∙ c)

  pub handle_vote_resp-Steady :
      (n : Node P) (from : NodeId) (m : VoteResp) → Steady n (handle_vote_resp P n from m)
  unfolding handle_vote_resp become_follower reset_election_timer promote_to_candidate
  handle_vote_resp-Steady n from m = grind (arith, become_leader-Steady, start_campaign-Steady)

  pub handle_append_resp-Durable :
      (n : Node P) (from : NodeId) (m : AppendResp)
      → CommitInLog P n
      → Durable P n (handle_append_resp P n from m)
  unfolding handle_append_resp become_follower reset_election_timer
  handle_append_resp-Durable n from m inside = grind (arith, advance_commit-Durable)

  pub handle_probe_req-Steady :
      (n : Node P) (from : NodeId) (m : ProbeReq) → Steady n (handle_probe_req P n from m)
  unfolding handle_probe_req
  handle_probe_req-Steady n from m = Kept-Steady _ _ (send-Kept P _ from _ _)
