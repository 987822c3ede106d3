-- ===== src/Examples/Ballots.antt =====
-- Roles, terms and votes of a replica of internal/consensus over short runs.
use crossfault.Prelude.{◌≡◌, refl, lookup, bytes_lt, bytes_discrete, ℕ_discrete, [], ◌∷◌, arith}
use crossfault.Consensus.State.{Node, follower}
use crossfault.Consensus.Node.Terms.{tick-TermStep}
use crossfault.Consensus.Node.Tick.{
  tick, tick_probe, tick_role, advance_clock, detect_silence, watch_peers, watch_peer, is_silent,
  mark_silent,
}
use crossfault.Consensus.Node.Deliver.{propose}
use crossfault.Netmatrix.View.{tick_view, new_view}
use crossfault.Prelude.Sorting.{sort}
use crossfault.Consensus.Ballot.{Move, clock, message, command, ballot, act, acts}
use crossfault.Consensus.Ballot.Refine.{
  VotesForItself, act-Move, acts-VotesForItself, acts_vote_once,
}
use crossfault.Examples.Toy.{toy, a, b}
use crossfault.Examples.Replica.{replica, running, wire}

act-Move_example : Move b (ballot toy running) (ballot toy (act toy running (message wire)))
act-Move_example = act-Move toy running (message wire) (omega arith)

acts-VotesForItself_example :
    VotesForItself b (ballot toy (acts toy running (clock ∷ message wire ∷ [])))
unfolding act
acts-VotesForItself_example =
    acts-VotesForItself toy running (clock ∷ message wire ∷ []) (ground arith) (λ runs. refl)
      (omega arith, (ground (arith, tick-TermStep toy running), tt))

-- A follower that has voted for a.
abbrev voter : Node toy
voter = record replica { voted_for = a }

still_follows : (tick toy voter).role ≡ follower
unfolding tick tick_probe tick_role advance_clock detect_silence watch_peers tick_view new_view sort
    bytes_lt watch_peer bytes_discrete ℕ_discrete is_silent lookup mark_silent
still_follows = refl

still_in_term : (acts toy voter (clock ∷ command b ∷ [])).current_term ≡ 3
unfolding acts act tick propose tick_probe tick_role advance_clock detect_silence watch_peers
    tick_view new_view sort bytes_lt watch_peer bytes_discrete ℕ_discrete is_silent lookup
    mark_silent
still_in_term = refl

acts_vote_once_example : (acts toy voter (clock ∷ command b ∷ [])).voted_for ≡ a
unfolding act
acts_vote_once_example =
    acts_vote_once toy voter (clock ∷ command b ∷ []) (ground arith)
      (omega arith, (ground (arith, tick-TermStep toy voter), tt)) (refl, (still_follows, tt))
      still_in_term
