-- ===== src/Consensus/Node/TwoLeaders.antt =====
-- Two leaders of one term in internal/consensus: what follows from a leader that forgets its vote when
-- CheckQuorum makes it stand down.
use crossfault.Codec.{decode_vote_resp, encode_vote_resp}
use crossfault.Prelude.{
  ◌≤◌, ◌≡◌, ◌≢◌, refl, sym, ap, ◌∙◌, true, false, some, [], ◌∷◌, ◌++◌, NodeId, no_node, NodeId-Key,
  lookup, insert, length, same, same_self, arith,
}
use crossfault.Platform.{Platform}
use crossfault.Messages.{VoteReq, VoteResp}
use crossfault.Crypt.Envelope.{Envelope, kind_vote_resp}
use crossfault.Crypt.Transcript.{Transcript}
use crossfault.Consensus.Log.{up_to_date, last_index, last_term}
use crossfault.Consensus.State.{
  Node, baseline, leader, candidate, log_event, reset_election_timer, quorum,
}
use crossfault.Consensus.Node.{become_follower, clear_heard, has_heard_from_quorum, vote_req}
use crossfault.Consensus.Node.Handlers.{grants_vote, cast_vote, handle_vote_req, handle_vote_resp}
use crossfault.Consensus.Node.Tick.{check_quorum}
use crossfault.Consensus.Node.Commit.{send-outbox}
use crossfault.Consensus.Node.Votes.{handle_vote_resp-leader}
use crossfault.Consensus.Ballot.Handling.{become_leader-Wins}

module _ (P : Platform) where
  stood_down :
      (n : Node P)
      → n.mode ≢ baseline
      → n.election_timeout ≤ n.election_elapsed
      → has_heard_from_quorum P (record n { election_elapsed = 0 }) ≡ false
      → let down = check_quorum P n in
        (down.current_term ≡ n.current_term)
        × (down.voted_for ≡ no_node)
        × (down.log ≡ n.log)
        × (down.send_tr ≡ n.send_tr)
  unfolding check_quorum become_follower clear_heard log_event reset_election_timer
  stood_down n guarded late unheard = ground arith

  granted_vote :
      (n : Node P) (m : VoteReq)
      → m.term ≡ n.current_term
      → same n.voted_for no_node ≡ true
      → up_to_date n.log m.last_term m.last_index ≡ true
      → grants_vote P n m ≡ true
  unfolding grants_vote
  granted_vote n m one_term free current = ground arith

  -- The answer to a request that gets the vote.
  granted-outbox :
      (n : Node P) (from : NodeId) (m : VoteReq) {tr : Transcript}
      → m.pre_vote ≡ false
      → m.term ≡ n.current_term
      → grants_vote P n m ≡ true
      → lookup from n.send_tr ≡ some tr
      → (env : Envelope) × ((handle_vote_req P n from m).outbox ≡ n.outbox ++ env ∷ [])
        × (env.payload
            ≡ encode_vote_resp P
                (record { term = n.current_term; granted = true; pre_vote = false }))
  unfolding handle_vote_req cast_vote reset_election_timer
  granted-outbox n from m {tr} real one_term granted linked =
      let voted = reset_election_timer P (record n { voted_for = m.candidate }) in
      let (env, sent, says) =
        send-outbox P voted from kind_vote_resp
          (encode_vote_resp P
            (record { term = voted.current_term; granted = true; pre_vote = false }))
          {tr = tr} linked in
      (env, ground arith, says)

  won-term :
      (p : Node P) (from : NodeId) (m : VoteResp)
      → m.term ≡ p.current_term
      → (handle_vote_resp P p from m).role ≡ leader
      → p.role ≡ candidate
      → m.pre_vote ≡ false
      → (handle_vote_resp P p from m).current_term ≡ p.current_term
  unfolding handle_vote_resp
  won-term p from m one_term leads runs real =
      ground (arith, become_leader-Wins P (record p { votes = insert from true p.votes }))

  -- A leader outside baseline mode that has not heard from a majority for its timeout stands down,
  -- and then answers the request for a vote of a candidate of its own term, which it has a
  -- transcript with and whose log is up to date. If the answer decodes to what was encoded and one
  -- vote of this node completes the candidate's majority, the answer makes the candidate leader of
  -- the same term: one term has had two leaders.
  pub two_leaders :
      ((m : VoteResp) → decode_vote_resp P (encode_vote_resp P m) ≡ some m)
      → (n p : Node P) {tr : Transcript} → n.role ≡ leader
      → n.mode ≢ baseline
      → n.election_timeout ≤ n.election_elapsed
      → has_heard_from_quorum P (record n { election_elapsed = 0 }) ≡ false
      → lookup p.id n.send_tr ≡ some tr
      → p.role ≡ candidate
      → p.current_term ≡ n.current_term
      → up_to_date n.log (last_term p.log) (last_index p.log) ≡ true
      → quorum P p ≤ length (insert n.id true p.votes)
      → let down = check_quorum P n in
        (env : Envelope) × (answer : VoteResp) × ((handle_vote_req P down p.id
            (vote_req P p false)).outbox
          ≡ down.outbox ++ env ∷ [])
        × (decode_vote_resp P env.payload ≡ some answer)
        × ((handle_vote_resp P p n.id answer).role ≡ leader)
        × ((handle_vote_resp P p n.id answer).current_term ≡ n.current_term)
  unfolding vote_req
  two_leaders json n p {tr} leads guarded late unheard linked runs one_term current enough =
      let down = check_quorum P n in
      let m = vote_req P p false in
      let (term, free, log, tr_kept) = stood_down n guarded late unheard in
      let same_term : m.term ≡ down.current_term = one_term ∙ sym term in
      let granted =
        granted_vote down m same_term (ap (λ v. same v no_node) free ∙ same_self no_node)
          (ap (λ l. up_to_date l m.last_term m.last_index) log ∙ current) in
      let (env, sent, says) =
        granted-outbox down p.id m {tr = tr} refl same_term granted
          (ap (lookup p.id) tr_kept ∙ linked) in
      let answer : VoteResp = record {
        term = down.current_term;
        granted = true;
        pre_vote = false;
      } in
      let wins =
        (handle_vote_resp-leader P p n.id answer (λ h. absurd (ground arith))).1
          (runs, refl, sym same_term, refl, enough) in
      (
        env,
        answer,
        sent,
        ap (decode_vote_resp P) says ∙ json answer,
        wins,
        won-term p n.id answer (sym same_term) wins runs refl ∙ one_term,
      )
