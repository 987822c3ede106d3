-- ===== src/Consensus/Election/Answers.antt =====
-- What a peer of internal/consensus answers to a request for a vote that persuades it, in a straw poll and in earnest.
use crossfault.Codec.{decode_vote_resp, encode_vote_resp}
use crossfault.Prelude.{
  ◌<◌, ◌≡◌, refl, ap, ◌∙◌, true, false, some, [], ◌∷◌, NodeId, NodeId-Key, no_node, same_self,
  arith, Bool, ℕ, ◌++◌,
}
use crossfault.Platform.{Platform}
use crossfault.Messages.{VoteReq, VoteResp}
use crossfault.Crypt.Envelope.{kind_vote_resp, kind_pre_vote_resp}
use crossfault.Consensus.Log.{up_to_date}
use crossfault.Consensus.State.{Node, reset_election_timer}
use crossfault.Consensus.Node.{send, become_follower}
use crossfault.Consensus.Node.Handlers.{
  believes_leader_is_live, grants_pre_vote, grants_vote, cast_vote, handle_vote_req,
}
use crossfault.Consensus.Node.Commit.{send-outbox}
use crossfault.Consensus.Node.Quiet.{send-Kept}
use crossfault.Consensus.Member.Linked.{HasLine, HasLine-send}
use crossfault.Consensus.Election.{asked, answer_of, Willing}

module _ (P : Platform)
    (json : (m : VoteResp) → decode_vote_resp P (encode_vote_resp P m) ≡ some m) where
  -- An answer that is sent on an empty outbox is read back.
  sent-answer :
      (p : Node P) (to : NodeId) (kind : ℕ) (a : VoteResp)
      → p.outbox ≡ []
      → HasLine P p to
      → answer_of P (send P p to kind (encode_vote_resp P a)) ≡ some a
  unfolding answer_of
  sent-answer p to kind a empty (tr, linked) =
      let (env, sent, says) = send-outbox P p to kind (encode_vote_resp P a) {tr = tr} linked in
      let alone = sent ∙ ap (λ o. o ++ env ∷ []) empty in
      rw alone (ap (decode_vote_resp P) says ∙ json a)

  pub poll-answer :
      (m : VoteReq) (p : Node P)
      → m.pre_vote ≡ true
      → Willing P m p
      → answer_of P (asked P m p)
        ≡ some (record { term = p.current_term; granted = true; pre_vote = true })
  unfolding asked handle_vote_req grants_pre_vote believes_leader_is_live
  poll-answer m p poll (older, current, idle, line) =
      let quiet_p = record p { outbox = [] } in
      let answer : Bool → VoteResp =
        λ g. record { term = p.current_term; granted = g; pre_vote = true } in
      let grants : grants_pre_vote P quiet_p m ≡ true = ground arith in
      rw (poll, asked, handle_vote_req)
        (sent-answer quiet_p m.candidate kind_pre_vote_resp (answer (grants_pre_vote P quiet_p m))
            refl line
          ∙ ap (λ g. some (answer g)) grants)

  cast_vote-answer :
      (p : Node P) (from : NodeId) (m : VoteReq)
      → grants_vote P p m ≡ true
      → p.outbox ≡ []
      → HasLine P p from
      → answer_of P (cast_vote P p from m)
        ≡ some (record { term = p.current_term; granted = true; pre_vote = false })
  unfolding cast_vote reset_election_timer
  cast_vote-answer p from m granted empty line =
      rw (granted, cast_vote)
        (sent-answer (reset_election_timer P (record p { voted_for = m.candidate })) from
          kind_vote_resp _ empty line)

  vote-cast :
      (p : Node P) (from : NodeId) (m : VoteReq)
      → m.pre_vote ≡ false
      → p.current_term < m.term
      → handle_vote_req P p from m ≡ cast_vote P (become_follower P p m.term no_node) from m
  unfolding handle_vote_req
  vote-cast p from m real older = ground arith

  newcomer-grants :
      (p : Node P) (m : VoteReq)
      → up_to_date p.log m.last_term m.last_index ≡ true
      → grants_vote P (become_follower P p m.term no_node) m ≡ true
  unfolding grants_vote become_follower reset_election_timer
  newcomer-grants p m current = ground (arith, same_self no_node)

  pub vote-answer :
      (m : VoteReq) (p : Node P)
      → m.pre_vote ≡ false
      → Willing P m p
      → answer_of P (asked P m p)
        ≡ some (record { term = m.term; granted = true; pre_vote = false })
  unfolding asked become_follower reset_election_timer
  vote-answer m p real (older, current, idle, line) =
      let quiet_p = record p { outbox = [] } in
      ap (answer_of P) (vote-cast quiet_p m.candidate m real older)
      ∙ cast_vote-answer (become_follower P quiet_p m.term no_node) m.candidate m
          (newcomer-grants quiet_p m current) refl line

module _ (P : Platform) where
  -- A straw poll leaves a willing peer as willing to vote in earnest.
  pub asked-Willing :
      (m : VoteReq) (p : Node P)
      → m.pre_vote ≡ true
      → Willing P m p
      → Willing P (record m { pre_vote = false }) (asked P m p) × ((asked P m p).id ≡ p.id)
  unfolding asked handle_vote_req believes_leader_is_live grants_pre_vote
  asked-Willing m p poll (older, current, idle, line) =
      let quiet_p = record p { outbox = [] } in
      let a : VoteResp = record {
        term = p.current_term;
        granted = grants_pre_vote P quiet_p m;
        pre_vote = true;
      } in
      let kept = send-Kept P quiet_p m.candidate kind_pre_vote_resp (encode_vote_resp P a) in
      rw (poll, asked, handle_vote_req)
        (
          (
            ground (arith, kept),
            ground (arith, kept),
            ground (arith, kept),
            HasLine-send P quiet_p m.candidate kind_pre_vote_resp (encode_vote_resp P a) m.candidate
                line,
          ),
          ap (λ s. s.id) kept.settings,
        )
