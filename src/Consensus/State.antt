-- ===== src/Consensus/State.antt =====
-- The state of a replica: Mode, Role, Node, Config and NewNode of internal/consensus/node.go, and the
-- activity log of internal/consensus/events.go. Go's `int` counters and timers are plain numbers, and
-- so are the intervals of Config, where 0 stands for every value that is not positive.
use crossfault.Prelude.{
  ℕ, ◌+◌, ◌-◌, ◌/◌, ◌==◌, Bool, true, List, [], ◌∷◌, ◌++◌, Bytes, NodeId, no_node, NodeId-Key, Map,
  insert, same, length, drop, ltb, if◌then◌else◌,
}
use crossfault.Platform.{Platform}
use crossfault.Crypt.Identity.{Identity, Keyring}
use crossfault.Crypt.Envelope.{Envelope}
use crossfault.Crypt.Transcript.{Transcript, new_transcript}
use crossfault.Netmatrix.View.{View, new_view}
use crossfault.Consensus.Log.{Log, new_log}

pub data Mode : Type 0 where
  baseline pre_vote cross_fault : Mode

pub data Role : Type 0 where
  follower pre_candidate candidate leader : Role

-- The kind of an Event with what its text prints.
pub data Happening : Type 0 where
  drop_forged : (kind : ℕ) (from : NodeId) → Happening
  step_down declined : Happening
  campaign : (after_pre_vote : Bool) (term : ℕ) → Happening
  pre_campaign : (term : ℕ) → Happening
  elected : (term : ℕ) → Happening
  committed_through : (index : ℕ) → Happening
  proposed : (cmd : Bytes) → Happening

pub record Event : Type 0 where
  pub tick : ℕ
  pub node : NodeId
  pub term : ℕ
  pub what : Happening

-- The fields of a Node that nothing writes after NewNode.
pub record Settings : Type 0 where
  pub id : NodeId
  pub cloud : Bytes
  pub mode : Mode
  pub ident : Identity
  pub ring : Keyring
  pub heartbeat_interval : ℕ
  pub base_election : ℕ
  pub probe_interval : ℕ

pub record Counters : Type 0 where
  pub term_bumps : ℕ
  pub elections_started : ℕ
  pub dropped_bad_sig : ℕ
  pub dropped_chain : ℕ
  pub dropped_replay : ℕ
  pub committed : ℕ
  pub declined_to_run : ℕ

pub record Node (P : Platform) : Type 0 where
  pub settings : Settings
  pub open settings use *
  pub counters : Counters
  pub open counters use *
  pub view : View
  pub log : Log
  pub role : Role
  pub current_term : ℕ
  pub voted_for : NodeId
  pub leader_id : NodeId
  pub commit_index : ℕ
  pub next_index : Map NodeId ℕ
  pub match_index : Map NodeId ℕ
  pub election_elapsed : ℕ
  pub election_timeout : ℕ
  pub heartbeat_elapsed : ℕ
  pub probe_elapsed : ℕ
  pub votes : Map NodeId Bool
  pub pre_votes : Map NodeId Bool
  pub heard_from : Map NodeId Bool
  pub inbound_up : Map NodeId Bool
  pub last_heard : Map NodeId ℕ
  pub send_tr : Map NodeId Transcript
  pub recv_tr : Map NodeId Transcript
  pub rng : P.Rng
  pub outbox : List Envelope
  pub events : List Event
  pub tick : ℕ

abbrev pub max_events : ℕ
max_events = 400

-- The newest `max_events` of a list of events.
unfoldable pub cap_events : List Event → List Event
cap_events es = if ltb max_events (length es) then drop (length es - max_events) es else es

pub record Config : Type 0 where
  pub id : NodeId
  pub cloud : Bytes
  pub mode : Mode
  pub members : List NodeId
  pub identity : Identity
  pub keyring : Keyring
  pub seed : ℕ
  pub election_timeout : ℕ
  pub heartbeat_interval : ℕ
  pub probe_interval : ℕ

abbrev no_counters : Counters
no_counters = record {
  term_bumps = 0;
  elections_started = 0;
  dropped_bad_sig = 0;
  dropped_chain = 0;
  dropped_replay = 0;
  committed = 0;
  declined_to_run = 0;
}

abbrev pub or_default : ℕ → ℕ → ℕ
or_default n d = if n == 0 then d else n

module _ (P : Platform) where
  unfoldable pub log_event : Node P → Happening → Node P
  log_event n what = record n {
    events = cap_events (
        n.events ++ record { tick = n.tick; node = n.id; term = n.current_term; what = what } ∷ []);
  }

  unfoldable pub reset_election_timer : Node P → Node P
  reset_election_timer n =
      let (extra, rng') = P.intn n.rng n.base_election in
      record n { election_elapsed = 0; election_timeout = n.base_election + extra; rng = rng' }

  abbrev pub members_of : Node P → List NodeId
  members_of n = n.view.members

  unfoldable pub quorum : Node P → ℕ
  quorum n = length (members_of n) / 2 + 1

  -- One round of NewNode's loop over the members.
  unfoldable pub add_peer : Node P → NodeId → Node P
  add_peer n m = if same m n.id then n else record n {
    send_tr = insert m (new_transcript m) n.send_tr;
    recv_tr = insert m (new_transcript m) n.recv_tr;
    inbound_up = insert m true n.inbound_up;
  }

  unfoldable pub add_peers : Node P → List NodeId → Node P
  add_peers n [] = n
  add_peers n (m ∷ ms) = add_peers (add_peer n m) ms

  unfoldable pub blank_node : Config → Node P
  blank_node c = record {
    settings = record {
      id = c.id;
      cloud = c.cloud;
      mode = c.mode;
      ident = c.identity;
      ring = c.keyring;
      heartbeat_interval = or_default c.heartbeat_interval 3;
      base_election = or_default c.election_timeout 10;
      probe_interval = or_default c.probe_interval 2;
    };
    counters = no_counters;
    view = new_view c.id c.members;
    log = new_log;
    role = follower;
    current_term = 0;
    voted_for = no_node;
    leader_id = no_node;
    commit_index = 0;
    next_index = [];
    match_index = [];
    election_elapsed = 0;
    election_timeout = 0;
    heartbeat_elapsed = 0;
    probe_elapsed = 0;
    votes = [];
    pre_votes = [];
    heard_from = [];
    inbound_up = [];
    last_heard = [];
    send_tr = [];
    recv_tr = [];
    rng = P.new_rng c.seed;
    outbox = [];
    events = [];
    tick = 0;
  }

  unfoldable pub new_node : Config → Node P
  new_node c = reset_election_timer (add_peers (blank_node c) c.members)
