-- ===== src/Examples/Replica.antt =====
-- Replicas of internal/consensus in a cluster of three, at the states that the theorems speak of.
use crossfault.Codec.{decode_vote_resp, encode_append_req, encode_vote_resp}
use crossfault.Prelude.{
  some, ◌++◌, bytes_lt, ◌↔◌, ◌≤◌, ◌≡◌, refl, Bool, true, false, [], ◌∷◌, no_node, NodeId-Key,
  lookup, insert, length, arith, bytes_discrete, ℕ_discrete,
}
use crossfault.Prelude.Sorting.{sort}
use crossfault.Messages.{AppendReq, VoteReq, VoteResp}
use crossfault.Crypt.Envelope.{Envelope, kind_append_entries}
use crossfault.Crypt.Transcript.{new_transcript, zero_hash}
use crossfault.Netmatrix.View.{new_view}
use crossfault.Consensus.Log.{
  up_to_date, matches, append, append_chained, chained, append_from_leader,
}
use crossfault.Consensus.State.{
  Node, cross_fault, follower, candidate, leader, reset_election_timer, quorum,
}
use crossfault.Consensus.Node.{become_follower, count_marked, send, has_heard_from_quorum}
use crossfault.Consensus.Node.Handlers.{
  follow, take_entries, follow_commit, handle_vote_req, handle_append_req, handle_vote_resp,
}
use crossfault.Consensus.Node.Tick.{check_quorum}
use crossfault.Consensus.Node.TwoLeaders.{two_leaders}
use crossfault.Consensus.Node.{vote_req}
use crossfault.Consensus.Log.{last_term, last_index}
use crossfault.Consensus.Node.Votes.{
  VoteRule, handle_vote_req-VoteRule, handle_vote_resp-leader, append_req_votes_again,
}
use crossfault.Examples.Toy.{toy, a, b, c, trio, ring, key_pair}
use crossfault.Examples.Log.{stale_log}

-- Replica b at term 3, with a log of two entries.
abbrev pub replica : Node toy
replica = record {
  settings = record {
    id = b;
    cloud = [];
    mode = cross_fault;
    ident = key_pair b;
    ring = ring;
    heartbeat_interval = 3;
    base_election = 10;
    probe_interval = 2;
  };
  counters = record {
    term_bumps = 0;
    elections_started = 0;
    dropped_bad_sig = 0;
    dropped_chain = 0;
    dropped_replay = 0;
    committed = 0;
    declined_to_run = 0;
  };
  view = new_view b trio;
  log = stale_log;
  role = follower;
  current_term = 3;
  voted_for = no_node;
  leader_id = no_node;
  commit_index = 0;
  next_index = [];
  match_index = [];
  election_elapsed = 0;
  election_timeout = 15;
  heartbeat_elapsed = 0;
  probe_elapsed = 0;
  votes = [];
  pre_votes = [];
  heard_from = [];
  inbound_up = [];
  last_heard = [];
  send_tr = (a, new_transcript a) ∷ (c, new_transcript c) ∷ [];
  recv_tr = (a, new_transcript a) ∷ (c, new_transcript c) ∷ [];
  rng = 4;
  outbox = [];
  events = [];
  tick = 40;
}

-- A request to append nothing behind the first entry, from leader a of term 3.
abbrev pub heartbeat_of_a : AppendReq
heartbeat_of_a = record {
  term = 3;
  leader = a;
  prev_index = 1;
  prev_term = 1;
  entries = [];
  leader_commit = 1;
}

-- c asks for a vote in term 3.
abbrev bid : Bool → VoteReq
bid poll = record { term = 3; candidate = c; last_index = 4; last_term = 3; pre_vote = poll }

abbrev pub wire : Envelope
wire = record {
  from = a;
  to = b;
  kind = kind_append_entries;
  term = 3;
  seq = 1;
  prev_hash = zero_hash;
  payload = encode_append_req toy heartbeat_of_a;
  sig = [];
}

handle_vote_req-VoteRule_example :
    VoteRule toy replica (bid false) (handle_vote_req toy replica c (bid false))
handle_vote_req-VoteRule_example = handle_vote_req-VoteRule toy replica c (bid false)

abbrev pub running : Node toy
running = record replica { role = candidate; voted_for = b; votes = (b, true) ∷ [] }

abbrev granted : VoteResp
granted = record { term = 3; granted = true; pre_vote = false }

handle_vote_resp-leader_example : ((handle_vote_resp toy running c granted).role ≡ leader) ↔ (
    (running.role ≡ candidate)
    × (granted.pre_vote ≡ false)
    × (granted.term ≡ running.current_term)
    × (granted.granted ≡ true)
    × (quorum toy running ≤ length (insert c true running.votes)))
handle_vote_resp-leader_example = handle_vote_resp-leader toy running c granted (ground arith)

-- The vote of c makes b the leader.
elected_test : (handle_vote_resp toy running c granted).role ≡ leader
unfolding quorum new_view sort insert bytes_discrete ℕ_discrete bytes_lt
elected_test =
    (handle_vote_resp-leader toy running c granted (ground arith)).1
      (refl, refl, refl, refl, omega arith)

-- A leader that has heard from nobody for a whole election timeout.
abbrev lonely : Node toy
lonely = record replica { role = leader; voted_for = b; election_elapsed = 15 }

unheard : has_heard_from_quorum toy (record lonely { election_elapsed = 0 }) ≡ false
unfolding has_heard_from_quorum quorum new_view sort bytes_lt count_marked
unheard = refl

stale_log-up_to_date : up_to_date stale_log 3 4 ≡ true
unfolding up_to_date append append_chained chained
stale_log-up_to_date = refl

-- c runs in the same term as the leader b, and has its own vote.
abbrev rival : Node toy
rival = record replica {
  settings = record (replica.settings) { id = c; ident = key_pair c };
  role = candidate;
  voted_for = c;
  votes = (c, true) ∷ [];
}

pub toy-json : (m : VoteResp) → decode_vote_resp toy (encode_vote_resp toy m) ≡ some m
unfolding encode_vote_resp
toy-json m = ground arith

linked : lookup rival.id lonely.send_tr ≡ some (new_transcript c)
unfolding lookup bytes_discrete ℕ_discrete
linked = refl

rival-up_to_date : up_to_date lonely.log (last_term rival.log) (last_index rival.log) ≡ true
unfolding up_to_date append append_chained chained
rival-up_to_date = refl

rival_majority : quorum toy rival ≤ length (insert b true rival.votes)
unfolding quorum new_view sort insert bytes_discrete ℕ_discrete bytes_lt
rival_majority = omega arith

two_leaders_example :
    let down = check_quorum toy lonely in
    (env : Envelope) × (answer : VoteResp) × ((handle_vote_req toy down c
        (vote_req toy rival false)).outbox
      ≡ down.outbox ++ env ∷ [])
    × (decode_vote_resp toy env.payload ≡ some answer)
    × ((handle_vote_resp toy rival b answer).role ≡ leader)
    × ((handle_vote_resp toy rival b answer).current_term ≡ 3)
two_leaders_example =
    two_leaders toy toy-json lonely rival refl (ground arith) (omega arith) unheard linked refl refl
      rival-up_to_date rival_majority

heard_log-up_to_date : up_to_date (handle_append_req toy running a heartbeat_of_a).log 3 4 ≡ true
unfolding handle_append_req up_to_date matches follow reset_election_timer become_follower append
    take_entries send lookup follow_commit bytes_discrete ℕ_discrete append_from_leader
heard_log-up_to_date = refl

append_req_votes_again_example :
    let after =
      handle_vote_req toy (handle_append_req toy running a heartbeat_of_a) c (bid false) in
    (after.current_term ≡ 3) × (after.voted_for ≡ c)
append_req_votes_again_example =
    append_req_votes_again toy running a c heartbeat_of_a (bid false) (ground arith) refl refl refl
      heard_log-up_to_date
