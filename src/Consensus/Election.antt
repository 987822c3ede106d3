-- ===== src/Consensus/Election.antt =====
-- An election under internal/consensus from the straw poll to the new leader, with the peers that answer:
-- beginElection, handleVoteReq, handleVoteResp, promoteToCandidate and becomeLeader at work together.
-- What the envelopes carry is exchanged, not the envelopes.
pub mod Answers
pub mod Counting
pub mod Outcome
use crossfault.Codec.{decode_vote_resp}
use crossfault.Prelude.{
  ◌<◌, ◌≡◌, Bool, true, false, Option, none, some, List, [], ◌∷◌, map, NodeId, NodeId-Key, Map,
  lookup, insert,
}
use crossfault.Platform.{Platform}
use crossfault.Messages.{VoteReq, VoteResp}
use crossfault.Consensus.Log.{up_to_date}
use crossfault.Consensus.State.{Node}
use crossfault.Consensus.Node.{vote_req}
use crossfault.Consensus.Node.Handlers.{believes_leader_is_live, handle_vote_req, handle_vote_resp}
use crossfault.Consensus.Node.Tick.{begin_election}
use crossfault.Consensus.Member.Linked.{HasLine}

module _ (P : Platform) where
  -- A peer after a request, with its answer alone in the outbox.
  unfoldable pub asked : VoteReq → Node P → Node P
  asked m p = handle_vote_req P (record p { outbox = [] }) m.candidate m

  unfoldable pub answer_of : Node P → Option VoteResp
  answer_of p = elim p.outbox [ [] ↦ none | env ∷ _ ↦ decode_vote_resp P env.payload ]

  -- The node that sent the request takes in the peers' answers, one by one.
  unfoldable pub canvass : VoteReq → Node P → List (Node P) → Node P
  canvass m n [] = n
  canvass m n (p ∷ ps) =
      let n' : Node P = elim (answer_of (asked m p)) [
        | none ↦ n
        | some answer ↦ handle_vote_resp P n p.id answer
      ] in
      canvass m n' ps

  -- The straw poll of a node whose timer ran out, and then the campaign among the same peers.
  unfoldable pub elect : Node P → List (Node P) → Node P
  elect n ps =
      let polling = begin_election P n in
      let poll = vote_req P polling true in
      let running = canvass poll polling ps in
      canvass (vote_req P running false) running (map (asked poll) ps)

  -- A peer that a request persuades: it is in an older term, its log is not ahead, it believes in no
  -- live leader, and it can answer.
  abbrev pub Willing : VoteReq → Node P → Type 0
  Willing m p =
      (p.current_term < m.term)
      × (up_to_date p.log m.last_term m.last_index ≡ true)
      × (believes_leader_is_live P p ≡ false)
      × HasLine P p m.candidate

  -- Peers whose votes are not counted yet, each listed once.
  abbrev pub NewVoices : Map NodeId Bool → List (Node P) → Type 0
  NewVoices votes [] = Unit {0}
  NewVoices votes (p ∷ ps) = (lookup p.id votes ≡ none) × NewVoices (insert p.id true votes) ps
