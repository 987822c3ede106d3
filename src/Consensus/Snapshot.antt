-- ===== src/Consensus/Snapshot.antt =====
-- What a replica of internal/consensus shows of itself: Snapshot of events.go, and the String methods
-- of Mode and Role in node.go, whose "unknown" stands for integers that name no mode or role.
use crossfault.Prelude.{ℕ, Bool, List, [], ◌∷◌, Bytes, NodeId}
use crossfault.Platform.{Platform}
use crossfault.Netmatrix.View.{has_bidirectional_quorum}
use crossfault.Consensus.Log.{last_index, commands}
use crossfault.Consensus.State.{
  Mode, baseline, pre_vote, cross_fault, Role, follower, pre_candidate, candidate, leader, Node,
}

abbrev pub baseline_name : Bytes
baseline_name = b'b' ∷ b'a' ∷ b's' ∷ b'e' ∷ b'l' ∷ b'i' ∷ b'n' ∷ b'e' ∷ []

abbrev pub prevote_name : Bytes
prevote_name = b'p' ∷ b'r' ∷ b'e' ∷ b'v' ∷ b'o' ∷ b't' ∷ b'e' ∷ []

abbrev pub crossfault_name : Bytes
crossfault_name = b'c' ∷ b'r' ∷ b'o' ∷ b's' ∷ b's' ∷ b'f' ∷ b'a' ∷ b'u' ∷ b'l' ∷ b't' ∷ []

unfoldable pub mode_string : Mode → Bytes
mode_string baseline = baseline_name
mode_string pre_vote = prevote_name
mode_string cross_fault = crossfault_name

unfoldable pub role_string : Role → Bytes
role_string follower = b'f' ∷ b'o' ∷ b'l' ∷ b'l' ∷ b'o' ∷ b'w' ∷ b'e' ∷ b'r' ∷ []
role_string pre_candidate =
    b'p' ∷ b'r' ∷ b'e' ∷ b'c' ∷ b'a' ∷ b'n' ∷ b'd' ∷ b'i' ∷ b'd' ∷ b'a' ∷ b't' ∷ b'e' ∷ []
role_string candidate = b'c' ∷ b'a' ∷ b'n' ∷ b'd' ∷ b'i' ∷ b'd' ∷ b'a' ∷ b't' ∷ b'e' ∷ []
role_string leader = b'l' ∷ b'e' ∷ b'a' ∷ b'd' ∷ b'e' ∷ b'r' ∷ []

pub record Snapshot : Type 0 where
  pub id : NodeId
  pub cloud : Bytes
  pub role : Bytes
  pub term : ℕ
  pub leader : NodeId
  pub commit_index : ℕ
  pub log_len : ℕ
  pub commands : List Bytes
  pub term_bumps : ℕ
  pub elections_started : ℕ
  pub dropped_bad_sig : ℕ
  pub dropped_chain : ℕ
  pub dropped_replay : ℕ
  pub declined_to_run : ℕ
  pub has_quorum : Bool

module _ (P : Platform) where
  unfoldable pub snapshot : Node P → Snapshot
  snapshot n = record {
    id = n.id;
    cloud = n.cloud;
    role = role_string n.role;
    term = n.current_term;
    leader = n.leader_id;
    commit_index = n.commit_index;
    log_len = last_index n.log;
    commands = commands n.log;
    term_bumps = n.term_bumps;
    elections_started = n.elections_started;
    dropped_bad_sig = n.dropped_bad_sig;
    dropped_chain = n.dropped_chain;
    dropped_replay = n.dropped_replay;
    declined_to_run = n.declined_to_run;
    has_quorum = has_bidirectional_quorum n.view n.id;
  }
