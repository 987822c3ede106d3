-- ===== src/Consensus/Node/Handlers.antt =====
-- The message handlers of internal/consensus/handlers.go.
use crossfault.Codec.{encode_append_resp, encode_probe_resp, encode_vote_resp}
use crossfault.Prelude.{
  ℕ, ◌+◌, ◌-◌, ◌==◌, Bool, true, false, not, ◌&&◌, ◌||◌, none, some, List, [], ◌∷◌, NodeId, no_node,
  NodeId-Key, insert, get_or, same, contains, u64, ltb, leb, get_elem?, length, if◌then◌else◌,
}
use crossfault.Prelude.Sorting.{sort, above}
use crossfault.Messages.{
  AppendReq, AppendResp, VoteReq, VoteResp, ProbeReq, ProbeResp, to_strings, to_node_ids,
}
use crossfault.Platform.{Platform}
use crossfault.Crypt.Envelope.{
  kind_append_resp, kind_vote_resp, kind_pre_vote_resp, kind_probe_resp,
}
use crossfault.Netmatrix.View.{View, set_edge}
use crossfault.Consensus.Log.{last_index, term_at, matches, append_from_leader, up_to_date}
use crossfault.Consensus.State.{
  Node, Role, follower, pre_candidate, candidate, leader, committed_through, log_event,
  reset_election_timer, members_of, quorum,
}
use crossfault.Consensus.Node.{
  send, become_follower, become_leader, promote_to_candidate, heard_now,
}

abbrev pub is_follower : Role → Bool
is_follower follower = true
is_follower _ = false

abbrev pub is_pre_candidate : Role → Bool
is_pre_candidate pre_candidate = true
is_pre_candidate _ = false

abbrev pub is_candidate : Role → Bool
is_candidate candidate = true
is_candidate _ = false

abbrev pub is_leader : Role → Bool
is_leader leader = true
is_leader _ = false

abbrev pub min64 : ℕ → ℕ → ℕ
min64 a b = if ltb a b then a else b

-- The loop of mergeInbound: the edges from every other member to the peer, as the peer reports them.
unfoldable pub merge_inbound : View → NodeId → List NodeId → List NodeId → View
unfolding contains set_edge
merge_inbound v peer up [] = v
merge_inbound v peer up (m ∷ ms) =
    merge_inbound (if same m peer then v else set_edge v m peer (contains up m)) peer up ms

module _ (P : Platform) where
  unfoldable pub matches_of : Node P → List NodeId → List ℕ
  matches_of n [] = []
  matches_of n (m ∷ ms) =
      if same m n.id then matches_of n ms else get_or m 0 n.match_index ∷ matches_of n ms

  -- Whether `advanceCommit` may commit an index.
  unfoldable pub may_commit : Node P → ℕ → Bool
  may_commit n index =
      ltb n.commit_index index
      && (elim (term_at n.log index) [ none ↦ false | some term ↦ term == n.current_term ])

  -- An index out of range, which is a panic, cannot be met while the node is among its members.
  unfoldable pub advance_commit : Node P → Node P
  advance_commit n =
      let ranked = sort above (last_index n.log ∷ matches_of n (members_of P n)) in
      elim (get_elem? ranked (quorum P n - 1)) [
        | none ↦ n
        | some index ↦
            if may_commit n index
            then log_event P
                (record n {
                  commit_index = index;
                  counters = record (n.counters) { committed = index };
                })
                (committed_through index)
            else n
      ]

  abbrev pub refuse_append : Node P → NodeId → ℕ → Node P
  refuse_append n from conflict = send P n from kind_append_resp (
      encode_append_resp P (record {
        term = n.current_term;
        success = false;
        match_index = 0;
        conflict_index = conflict;
      }))

  -- The commit index follows the leader's, as far as the log reaches.
  unfoldable pub follow_commit : Node P → ℕ → Node P
  follow_commit n leader_commit =
      let index = min64 leader_commit (last_index n.log) in
      if ltb n.commit_index leader_commit
      then record n { commit_index = index; counters = record (n.counters) { committed = index } }
      else n

  -- The entries, the commit index and the answer, once the log is known to match.
  unfoldable pub take_entries : Node P → NodeId → AppendReq → Node P
  take_entries n from m =
      let spliced = record n { log = (append_from_leader P n.log m.prev_index m.entries).0 } in
      let done = follow_commit spliced m.leader_commit in
      send P done from kind_append_resp (
        encode_append_resp P (record {
          term = done.current_term;
          success = true;
          match_index = last_index done.log;
          conflict_index = 0;
        }))

  -- What a node does first on a request of its own or a higher term.
  unfoldable pub follow : Node P → NodeId → AppendReq → Node P
  follow n from m =
      let adopted =
        if ltb n.current_term m.term || not (is_follower n.role)
        then become_follower P n m.term from
        else n in
      reset_election_timer P (record adopted { leader_id = from })

  unfoldable pub handle_append_req : Node P → NodeId → AppendReq → Node P
  handle_append_req n from m =
      if ltb m.term n.current_term
      then refuse_append n from 0
      else let following = follow n from m in
        if matches following.log m.prev_index m.prev_term
        then take_entries following from m
        else refuse_append following from (min64 m.prev_index (u64 (last_index following.log + 1)))

  unfoldable pub handle_append_resp : Node P → NodeId → AppendResp → Node P
  handle_append_resp n from m =
      if ltb n.current_term m.term
      then become_follower P n m.term no_node
      else if not (is_leader n.role) || ltb m.term n.current_term
      then n
      else if m.success
      then advance_commit (record n {
        match_index = insert from m.match_index n.match_index;
        next_index = insert from (u64 (m.match_index + 1)) n.next_index;
      })
      else record n {
        next_index =
            insert from (if m.conflict_index == 0 then 1 else m.conflict_index) n.next_index;
      }

  unfoldable pub believes_leader_is_live : Node P → Bool
  believes_leader_is_live n =
      not (same n.leader_id no_node) && ltb n.election_elapsed n.election_timeout

  unfoldable pub grants_pre_vote : Node P → VoteReq → Bool
  grants_pre_vote n m =
      ltb n.current_term m.term
      && (up_to_date n.log m.last_term m.last_index && not (believes_leader_is_live n))

  unfoldable pub grants_vote : Node P → VoteReq → Bool
  grants_vote n m =
      (m.term == n.current_term)
      && ((same n.voted_for no_node || same n.voted_for m.candidate)
          && up_to_date n.log m.last_term m.last_index)

  abbrev pub answer_vote : Node P → NodeId → ℕ → Bool → Bool → Node P
  answer_vote n from kind granted pre =
      send P n from kind
        (encode_vote_resp P (record { term = n.current_term; granted = granted; pre_vote = pre }))

  -- The vote itself, once the term is settled.
  unfoldable pub cast_vote : Node P → NodeId → VoteReq → Node P
  cast_vote n from m =
      let granted = grants_vote n m in
      let voted =
        if granted then reset_election_timer P (record n { voted_for = m.candidate }) else n in
      answer_vote voted from kind_vote_resp granted false

  unfoldable pub handle_vote_req : Node P → NodeId → VoteReq → Node P
  handle_vote_req n from m =
      if m.pre_vote
      then answer_vote n from kind_pre_vote_resp (grants_pre_vote n m) true
      else cast_vote (if ltb n.current_term m.term then become_follower P n m.term no_node else n)
          from m

  unfoldable pub handle_vote_resp : Node P → NodeId → VoteResp → Node P
  handle_vote_resp n from m =
      if m.pre_vote
      then (if not (is_pre_candidate n.role) || not m.granted
          then n
          else let counted = record n { pre_votes = insert from true n.pre_votes } in
            if leb (quorum P counted) (length counted.pre_votes)
            then promote_to_candidate P counted
            else counted)
      else if ltb n.current_term m.term
      then become_follower P n m.term no_node
      else if not (is_candidate n.role) || (not (m.term == n.current_term) || not m.granted)
      then n
      else let counted = record n { votes = insert from true n.votes } in
        if leb (quorum P counted) (length counted.votes) then become_leader P counted else counted

  unfoldable pub handle_probe_req : Node P → NodeId → ProbeReq → Node P
  handle_probe_req n from m =
      let merged = record n {
        view = merge_inbound n.view from (to_node_ids m.inbound_up) (members_of P n);
      } in
      send P merged from kind_probe_resp (
        encode_probe_resp P (record {
          term = merged.current_term;
          from = merged.id;
          inbound_up = to_strings (heard_now merged.inbound_up);
        }))

  unfoldable pub handle_probe_resp : Node P → NodeId → ProbeResp → Node P
  handle_probe_resp n from m = record n {
    view = merge_inbound n.view from (to_node_ids m.inbound_up) (members_of P n);
  }
