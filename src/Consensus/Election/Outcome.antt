-- ===== src/Consensus/Election/Outcome.antt =====
-- Whom an election of internal/consensus makes leader.
use crossfault.Codec.{decode_vote_resp, encode_vote_resp}
use crossfault.Prelude.{
  ◌+◌, ◌<◌, ◌≤◌, ◌^◌, ◌≡◌, ◌⊎◌, refl, ap, sym, subst, ◌∙◌, Bool, true, false, some, List, [], ◌∷◌,
  map, NodeId, NodeId-Key, Map, lookup, insert, length, u64, All, arith,
}
use crossfault.Platform.{Platform}
use crossfault.Messages.{VoteReq, VoteResp}
use crossfault.Netmatrix.View.{has_bidirectional_quorum}
use crossfault.Consensus.State.{
  Node, Settings, pre_vote, cross_fault, pre_candidate, leader, log_event, reset_election_timer,
  quorum,
}
use crossfault.Consensus.Node.{vote_req}
use crossfault.Consensus.Node.Tick.{straw_poll, begin_election}
use crossfault.Consensus.Node.Quiet.{broadcast_vote_req-Kept}
use crossfault.Consensus.Election.{asked, canvass, elect, Willing, NewVoices}
use crossfault.Consensus.Election.Answers.{asked-Willing}
use crossfault.Consensus.Election.Counting.{canvass-Running, canvass-leader}
use crossfault.Consensus.State.{Settings}

module _ (P : Platform) where
  -- What a straw poll starts from.
  abbrev Polling : Node P → Node P → Type 0
  Polling n n' =
      (n'.role ≡ pre_candidate)
      × (n'.current_term ≡ n.current_term)
      × (n'.log ≡ n.log)
      × (n'.settings ≡ n.settings)
      × (n'.view ≡ n.view)
      × (n'.pre_votes ≡ (n.id, true) ∷ [])

  straw_poll-Polling : (n : Node P) → Polling n (straw_poll P n)
  unfolding straw_poll log_event reset_election_timer
  straw_poll-Polling n =
      let k = broadcast_vote_req-Kept P _ true in
      (k.role, k.current_term, k.log, k.settings, k.view, k.pre_votes)

  -- The modes with a straw poll, and the guard of the last.
  abbrev pub MayPoll : Node P → Type 0
  MayPoll n =
      (n.mode ≡ pre_vote) ⊎ ((n.mode ≡ cross_fault) × (has_bidirectional_quorum n.view n.id ≡ true))

  begin_election-Polling : (n : Node P) → MayPoll n → Polling n (begin_election P n)
  unfolding begin_election
  begin_election-Polling n may =
      let started = record n {
        counters = record (n.counters) { elections_started = n.elections_started + 1 };
      } in
      ground (arith, straw_poll-Polling started)

  vote_req-polling :
      (n n' : Node P)
      → n'.current_term ≡ n.current_term
      → n'.log ≡ n.log
      → n'.settings ≡ n.settings
      → vote_req P n' true ≡ vote_req P n true
  unfolding vote_req
  vote_req-polling n n' term log settings = ground arith

  vote_req-running :
      (n n' : Node P)
      → n'.current_term ≡ u64 (n.current_term + 1)
      → n'.log ≡ n.log
      → n'.settings ≡ n.settings
      → vote_req P n' false ≡ record (vote_req P n true) { pre_vote = false }
  unfolding vote_req
  vote_req-running n n' term log settings = ground arith

  asked-All :
      (m : VoteReq) (ps : List (Node P)) (votes : Map NodeId Bool)
      → m.pre_vote ≡ true
      → All (Willing P m) ps
      → NewVoices P votes ps
      → All (Willing P (record m { pre_vote = false })) (map (asked P m) ps)
        × NewVoices P votes (map (asked P m) ps)
        × (length (map (asked P m) ps) ≡ length ps)
  asked-All m [] votes poll willing new = (tt, tt, refl)
  asked-All m (p ∷ ps) votes poll willing new =
      let (again, same_id) = asked-Willing P m p poll willing.0 in
      let (rest, voices, many) = asked-All m ps (insert p.id true votes) poll willing.1 new.1 in
      (
        (again, rest),
        (
          ap (λ x. lookup x votes) same_id ∙ new.0,
          subst (λ x. NewVoices P (insert x true votes) (map (asked P m) ps)) (sym same_id) voices,
        ),
        omega (arith, many),
      )

  -- An election that may start carries as soon as enough peers are willing: in a mode with a straw poll
  -- (and past its guard in cross-fault mode), when the election timeout of a node brings it to
  -- beginElection and its peers in older terms, with logs that are not ahead, without a live leader
  -- and with a transcript to answer, make a majority with it, it ends as the leader of the next term. A
  -- majority is two or more, each peer is listed once, answers decode to what was encoded, and the next
  -- term does not wrap.
  pub elect-leader :
      ((m : VoteResp) → decode_vote_resp P (encode_vote_resp P m) ≡ some m)
      → (n : Node P) (ps : List (Node P)) → MayPoll n
      → n.current_term + 1 < 2 ^ 64
      → 2 ≤ quorum P n
      → quorum P n ≤ 1 + length ps
      → All (Willing P (vote_req P n true)) ps
      → NewVoices P ((n.id, true) ∷ []) ps
      → ((elect P n ps).role ≡ leader) × ((elect P n ps).current_term ≡ n.current_term + 1)
  unfolding elect
  elect-leader json n ps may room majority enough willing new =
      let polling = begin_election P n in
      let (polls, term, log, settings, view, voices) = begin_election-Polling n may in
      let request = vote_req P n true in
      let same_request : vote_req P polling true ≡ request =
        vote_req-polling n polling term log settings in
      let same_quorum : quorum P polling ≡ quorum P n = unfold quorum in ground (arith, view) in
      let one_voice : length polling.pre_votes ≡ 1 = ap length voices in
      let running = canvass P request polling ps in
      let run =
        canvass-Running P json request polling ps (unfold vote_req in refl) polls willing
          (rw voices new) (omega (arith, one_voice, same_quorum))
          (omega (arith, one_voice, same_quorum)) in
      let real : VoteReq = record request { pre_vote = false } in
      let same_real : vote_req P running false ≡ real =
        vote_req-running polling running run.1 run.2 run.3
        ∙ ap (λ (m : VoteReq). record m { pre_vote = false }) same_request in
      let one_term : real.term ≡ running.current_term =
        sym (ap (λ (m : VoteReq). m.term) same_real) ∙ unfold vote_req in refl in
      let votes : running.votes ≡ (n.id, true) ∷ [] =
        run.5 ∙ ap (λ (s : Settings). (s.id, true) ∷ []) settings in
      let one_vote : length running.votes ≡ 1 = ap length votes in
      let still : quorum P running ≡ quorum P n = unfold quorum in ground (arith, run.4, view) in
      let (again, voices', many) =
        asked-All request ps ((n.id, true) ∷ []) (unfold vote_req in refl) willing new in
      let won =
        canvass-leader P json real running (map (asked P request) ps) refl one_term run.0 again
          (rw votes voices') (omega (arith, one_vote, still))
          (omega (arith, one_vote, still, many)) in
      rw (same_request, same_real) (won.0, won.1 ∙ run.1 ∙ omega (arith, term))
