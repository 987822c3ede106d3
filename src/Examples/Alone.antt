-- ===== src/Examples/Alone.antt =====
-- A replica of internal/consensus that hears nobody, and one that wins an election, at concrete settings.
use crossfault.Prelude.{
  ◌+◌, ◌≤◌, ◌≡◌, ◌≢◌, refl, arith, bytes_discrete, ℕ_discrete, bytes_lt, times_named, [], ◌∷◌,
}
use crossfault.Prelude.Sorting.{sort}
use crossfault.Netmatrix.View.{new_view}
use crossfault.Consensus.State.{Node, baseline, pre_vote, leader}
use crossfault.Consensus.Alone.{ticks}
use crossfault.Consensus.Alone.Livelock.{ticks-livelock}
use crossfault.Consensus.Alone.Standstill.{ticks_stand_down}
use crossfault.Consensus.Alone.StepDown.{ticks_step_down}
use crossfault.Netmatrix.View.{has_bidirectional_quorum, bidirectional, can_send}
use crossfault.Crypt.Transcript.{new_transcript}
use crossfault.Consensus.Log.{up_to_date, append}
use crossfault.Consensus.Node.{vote_req}
use crossfault.Consensus.Node.Handlers.{believes_leader_is_live, matches_of}
use crossfault.Consensus.Node.{broadcast_append}
use crossfault.Consensus.Node.Deliver.{propose}
use crossfault.Consensus.State.{log_event, proposed}
use crossfault.Consensus.Commitment.{acknowledge}
use crossfault.Consensus.Commitment.Proposal.{proposal-commits}
use crossfault.Consensus.Log.Splice.{contents}
use crossfault.Prelude.{◌++◌}
use crossfault.Consensus.Election.{elect}
use crossfault.Consensus.Election.Outcome.{elect-leader}
use crossfault.Consensus.State.{quorum}
use crossfault.Prelude.{inr, contains, lookup, insert, get_or, NodeId-Key}
use crossfault.Examples.Replica.{toy-json}
use crossfault.Examples.Toy.{b, key_pair}
use crossfault.Examples.Toy.{toy, toy-laws, a, c}
use crossfault.Examples.Replica.{replica}

abbrev plain : Node toy
plain = record replica { settings = record (replica.settings) { mode = baseline } }

-- Forty ticks are two stretches of twice the base timeout of ten.
ticks-livelock_example :
    let n' = ticks toy 40 plain in (3 + 2 ≤ n'.current_term) × (n'.role ≢ leader)
ticks-livelock_example =
    ticks-livelock toy toy-laws 2 40 plain (omega arith) refl (ground arith) (ground arith)
      (ground arith) (omega arith) (omega arith)

-- b heard both peers by tick 7, its time.
abbrev cut_off : Node toy
cut_off = record replica { last_heard = (a, 5) ∷ (c, 7) ∷ []; tick = 7 }

ticks_stand_down_example :
    let cut = ticks toy 11 cut_off in
    let later = ticks toy 60 cut in
    (later.elections_started ≡ cut.elections_started)
    × (later.role ≡ cut.role)
    × (later.current_term ≡ 3)
    × (later.voted_for ≡ [])
    × (cut.declined_to_run + 3 ≤ later.declined_to_run)
unfolding new_view sort bytes_lt bytes_discrete ℕ_discrete times_named
ticks_stand_down_example =
    ticks_stand_down toy toy-laws 11 3 60 cut_off (omega arith) refl (ground arith)
      (refl, omega arith, omega arith) (ground arith) (ground arith)
      (omega arith, (omega arith, tt)) (omega arith) (omega arith) (omega arith)

abbrev crowned : Node toy
crowned = record replica {
  settings = record (replica.settings) { mode = pre_vote };
  role = leader;
  election_timeout = 12;
  election_elapsed = 4;
}

ticks_step_down_example :
    let n' = ticks toy 24 crowned in (n'.role ≢ leader) × (n'.current_term ≡ 3)
unfolding new_view sort bytes_lt bytes_discrete ℕ_discrete
ticks_step_down_example =
    ticks_step_down toy toy-laws 24 crowned (omega arith) (ground arith) refl (omega arith)
      (omega arith) (omega arith)

-- b, whose timer ran out, and a, in the same term with the same log.
abbrev peer_a : Node toy
peer_a = record replica {
  settings = record (replica.settings) { id = a; ident = key_pair a };
  send_tr = (b, new_transcript b) ∷ (c, new_transcript c) ∷ [];
}

-- b believes in two-way links with everybody, so its guard lets it run; a's vote completes the majority.
elect-leader_example :
    ((elect toy replica (peer_a ∷ [])).role ≡ leader)
    × ((elect toy replica (peer_a ∷ [])).current_term ≡ 3 + 1)
unfolding new_view sort bytes_lt bytes_discrete ℕ_discrete quorum vote_req up_to_date
    believes_leader_is_live has_bidirectional_quorum bidirectional can_send lookup insert get_or
    append
elect-leader_example =
    elect-leader toy toy-json replica (peer_a ∷ []) (inr (refl, refl)) (omega arith) (omega arith)
      (omega arith) ((omega arith, refl, refl, (new_transcript b, refl)), tt) (refl, tt)

-- The leader's log has two entries; its own command becomes the third.
abbrev sent_out : Node toy
sent_out =
    broadcast_append toy
      (log_event toy (record crowned { log = append toy crowned.log 3 c }) (proposed c))

proposal-commits_example :
    ((acknowledge toy 3 sent_out (a ∷ [])).commit_index ≡ 3)
    × ((acknowledge toy 3 sent_out (a ∷ [])).log ≡ append toy crowned.log 3 c)
    × (contents (acknowledge toy 3 sent_out (a ∷ [])).log ≡ contents crowned.log ++ (3, c) ∷ [])
unfolding propose append new_view sort bytes_lt bytes_discrete ℕ_discrete quorum matches_of get_or
    lookup contains insert
proposal-commits_example =
    proposal-commits toy crowned sent_out c (a ∷ []) refl (omega arith)
      (omega arith, (omega arith, tt)) (omega arith) (omega arith)
      (ground arith, refl, omega arith, tt)
