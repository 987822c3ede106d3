-- ===== src/Consensus/Node.antt =====
-- The steps of a replica that several handlers share: send and the role changes of
-- internal/consensus/node.go, and the broadcasts of internal/consensus/handlers.go.
pub mod Handlers
pub mod Deliver
pub mod Tick
pub mod Quiet
pub mod Terms
pub mod Votes
pub mod Guard
pub mod Commit
pub mod Rejection
pub mod LogKept
pub mod Outbox
pub mod Misaddressed
pub mod Posting
pub mod Proposing
pub mod Fixed
pub mod Probes
pub mod Dispatching
pub mod Sending
pub mod TwoLeaders
use crossfault.Codec.{encode_append_req, encode_probe_req, encode_vote_req}
use crossfault.Prelude.{
  sub64, ℕ, ◌+◌, ◌-◌, ◌==◌, Bool, true, false, Option, none, some, List, [], ◌∷◌, ◌++◌, map, Bytes,
  NodeId, no_node, NodeId-Key, Map, lookup, insert, get_or, same, bytes_lt, u64, leb, if◌then◌else◌,
}
use crossfault.Prelude.Sorting.{sort}
use crossfault.Messages.{AppendReq, VoteReq, ProbeReq, to_strings}
use crossfault.Platform.{Platform}
use crossfault.Crypt.Envelope.{
  Envelope, kind_append_entries, kind_request_vote, kind_pre_vote, kind_probe,
}
use crossfault.Crypt.Transcript.{next, zero_hash}
use crossfault.Consensus.Log.{last_index, last_term, term_at, slice}
use crossfault.Consensus.State.{
  Node, Role, follower, candidate, leader, campaign, elected, log_event, reset_election_timer,
  members_of, quorum,
}

-- The members that the map marks `true`.
unfoldable pub marked : Map NodeId Bool → List NodeId
marked [] = []
marked ((id, up) ∷ m) = if up then id ∷ marked m else marked m

-- The sorted list of peers that a probe carries.
unfoldable pub heard_now : Map NodeId Bool → List NodeId
unfolding marked
heard_now m = sort bytes_lt (marked m)

unfoldable pub count_marked : Map NodeId Bool → ℕ
count_marked [] = 0
count_marked ((id, up) ∷ m) = (if up then 1 else 0) + count_marked m

module _ (P : Platform) where
  -- An envelope as `send` fills it in, before the transcript stamps and seals it.
  abbrev pub draft : NodeId → ℕ → ℕ → Bytes → Envelope
  draft to kind term payload = record {
    from = no_node;
    to = to;
    kind = kind;
    term = term;
    seq = 0;
    prev_hash = zero_hash;
    payload = payload;
    sig = [];
  }

  -- No caller reads the error that `send` returns for a peer without a transcript.
  unfoldable pub send : Node P → NodeId → ℕ → Bytes → Node P
  send n to kind payload = elim (lookup to n.send_tr) [
    | none ↦ n
    | some tr ↦
        let (tr', env) = next P tr n.ident (draft to kind n.current_term payload) in
        record n { send_tr = insert to tr' n.send_tr; outbox = n.outbox ++ env ∷ [] }
  ]

  unfoldable pub become_follower : Node P → ℕ → NodeId → Node P
  become_follower n term new_leader = reset_election_timer P (record n {
    role = follower;
    current_term = term;
    voted_for = no_node;
    leader_id = new_leader;
  })

  unfoldable pub clear_heard : Node P → Node P
  clear_heard n = record n { heard_from = [] }

  unfoldable pub has_heard_from_quorum : Node P → Bool
  has_heard_from_quorum n = leb (quorum P n) (1 + count_marked n.heard_from)

  -- What the leader believes to be the peer's next index; one that is missing or 0 becomes the index
  -- behind the leader's log.
  unfoldable pub next_for : Node P → NodeId → ℕ
  next_for n m =
      let stored = get_or m 0 n.next_index in
      if stored == 0 then u64 (last_index n.log + 1) else stored

  unfoldable pub append_req_for : Node P → ℕ → AppendReq
  append_req_for n next_idx = record {
    term = n.current_term;
    leader = n.id;
    prev_index = sub64 next_idx 1;
    prev_term = elim (term_at n.log (sub64 next_idx 1)) [ none ↦ 0 | some term ↦ term ];
    entries = slice n.log next_idx;
    leader_commit = n.commit_index;
  }

  unfoldable pub remember_next : Node P → NodeId → ℕ → Node P
  remember_next n m next_idx =
      if get_or m 0 n.next_index == 0
      then record n { next_index = insert m next_idx n.next_index }
      else n

  unfoldable pub append_to : Node P → NodeId → Node P
  append_to n m =
      if same m n.id
      then n
      else let next_idx = next_for n m in
        let ready = remember_next n m next_idx in
        send ready m kind_append_entries (encode_append_req P (append_req_for ready next_idx))

  unfoldable pub append_to_all : Node P → List NodeId → Node P
  append_to_all n [] = n
  append_to_all n (m ∷ ms) = append_to_all (append_to n m) ms

  unfoldable pub broadcast_append : Node P → Node P
  broadcast_append n = append_to_all n (members_of P n)

  unfoldable pub vote_req : Node P → Bool → VoteReq
  vote_req n pre = record {
    term = if pre then u64 (n.current_term + 1) else n.current_term;
    candidate = n.id;
    last_index = last_index n.log;
    last_term = last_term n.log;
    pre_vote = pre;
  }

  unfoldable pub vote_req_to : Node P → Bool → NodeId → Node P
  vote_req_to n pre m =
      if same m n.id
      then n
      else send n m (if pre then kind_pre_vote else kind_request_vote)
          (encode_vote_req P (vote_req n pre))

  unfoldable pub vote_req_to_all : Node P → Bool → List NodeId → Node P
  vote_req_to_all n pre [] = n
  vote_req_to_all n pre (m ∷ ms) = vote_req_to_all (vote_req_to n pre m) pre ms

  unfoldable pub broadcast_vote_req : Node P → Bool → Node P
  broadcast_vote_req n pre = vote_req_to_all n pre (members_of P n)

  unfoldable pub probe_to : Node P → List NodeId → NodeId → Node P
  probe_to n up m =
      if same m n.id
      then n
      else send n m kind_probe (
          encode_probe_req P
            (record { term = n.current_term; from = n.id; inbound_up = to_strings up }))

  unfoldable pub probe_to_all : Node P → List NodeId → List NodeId → Node P
  probe_to_all n up [] = n
  probe_to_all n up (m ∷ ms) = probe_to_all (probe_to n up m) up ms

  unfoldable pub broadcast_probe : Node P → Node P
  broadcast_probe n = probe_to_all n (heard_now n.inbound_up) (members_of P n)

  -- A real campaign: the term and its counter go up, and the node votes for itself. `after` tells the
  -- two texts of the event apart.
  unfoldable pub start_campaign : Node P → Bool → Node P
  start_campaign n after =
      let term = u64 (n.current_term + 1) in
      let running = record n {
        current_term = term;
        counters = record (n.counters) { term_bumps = n.term_bumps + 1 };
        role = candidate;
        voted_for = n.id;
        votes = (n.id, true) ∷ [];
      } in
      broadcast_vote_req (reset_election_timer P (log_event P running (campaign after term))) false

  unfoldable pub promote_to_candidate : Node P → Node P
  promote_to_candidate n = start_campaign n true

  -- One round of becomeLeader's loop over the members.
  unfoldable pub track_peer : Node P → NodeId → Node P
  track_peer n m = if same m n.id then n else record n {
    next_index = insert m (u64 (last_index n.log + 1)) n.next_index;
    match_index = insert m 0 n.match_index;
  }

  unfoldable pub track_peers : Node P → List NodeId → Node P
  track_peers n [] = n
  track_peers n (m ∷ ms) = track_peers (track_peer n m) ms

  unfoldable pub become_leader : Node P → Node P
  become_leader n =
      let crowned =
        clear_heard (record n { role = leader; leader_id = n.id; heartbeat_elapsed = 0 }) in
      let tracked = track_peers crowned (members_of P crowned) in
      broadcast_append (log_event P tracked (elected tracked.current_term))
