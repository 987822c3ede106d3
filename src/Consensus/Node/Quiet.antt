-- ===== src/Consensus/Node/Quiet.antt =====
-- What sending leaves alone: `send` and the broadcasts of internal/consensus touch the outgoing
-- transcripts, the outbox and the leader's next indices, and no other field.
use crossfault.Prelude.{
  get_or, ◌==◌, Bool-cases, ℕ, ◌≡◌, refl, ap, ◌∙◌, Bool, List, [], ◌∷◌, Bytes, NodeId, NodeId-Key,
  lookup, get_or, ◌==◌, same, Option-cases, inl, inr,
}
use crossfault.Platform.{Platform}
use crossfault.Consensus.State.{Node, members_of}
use crossfault.Consensus.Node.{
  send, remember_next, next_for, vote_req_to, probe_to, append_to, append_to_all, broadcast_append,
  vote_req_to_all, broadcast_vote_req, probe_to_all, broadcast_probe,
}

module _ (P : Platform) where
  -- A node with what sending may change wiped out.
  unfoldable pub quiet : Node P → Node P
  quiet n = record n { send_tr = []; outbox = []; next_index = [] }

  pub quiet-send :
      (n : Node P) (to : NodeId) (kind : ℕ) (payload : Bytes)
      → quiet (send P n to kind payload) ≡ quiet n
  unfolding send quiet
  quiet-send n to kind payload = elim (Option-cases (lookup to n.send_tr)) [
    | inl missing ↦ rw (missing, send)
    | inr (tr, found) ↦ rw (found, send)
  ]

  quiet-remember_next : (n : Node P) (m : NodeId) (k : ℕ) → quiet (remember_next P n m k) ≡ quiet n
  unfolding remember_next quiet
  quiet-remember_next n m k = elim (Bool-cases (get_or m 0 n.next_index == 0)) [
    | inl unset ↦ rw (unset, remember_next)
    | inr stored ↦ rw (stored, remember_next)
  ]

  quiet-append_to : (n : Node P) (m : NodeId) → quiet (append_to P n m) ≡ quiet n
  unfolding append_to
  quiet-append_to n m = elim (Bool-cases (same m n.id)) [
    | inl itself ↦ rw (itself, append_to)
    | inr other ↦
        rw (other, append_to)
          (quiet-send (remember_next P n m (next_for P n m)) m _ _
            ∙ quiet-remember_next n m (next_for P n m))
  ]

  quiet-append_to_all : (n : Node P) (ms : List NodeId) → quiet (append_to_all P n ms) ≡ quiet n
  unfolding append_to_all
  quiet-append_to_all n [] = refl
  quiet-append_to_all n (m ∷ ms) = quiet-append_to_all (append_to P n m) ms ∙ quiet-append_to n m

  pub quiet-broadcast_append : (n : Node P) → quiet (broadcast_append P n) ≡ quiet n
  unfolding broadcast_append
  quiet-broadcast_append n = quiet-append_to_all n (members_of P n)

  quiet-vote_req_to :
      (n : Node P) (pre : Bool) (m : NodeId) → quiet (vote_req_to P n pre m) ≡ quiet n
  unfolding vote_req_to
  quiet-vote_req_to n pre m = elim (Bool-cases (same m n.id)) [
    | inl itself ↦ rw (itself, vote_req_to)
    | inr other ↦ rw (other, vote_req_to) (quiet-send n m _ _)
  ]

  quiet-vote_req_to_all :
      (n : Node P) (pre : Bool) (ms : List NodeId) → quiet (vote_req_to_all P n pre ms) ≡ quiet n
  unfolding vote_req_to_all
  quiet-vote_req_to_all n pre [] = refl
  quiet-vote_req_to_all n pre (m ∷ ms) =
      quiet-vote_req_to_all (vote_req_to P n pre m) pre ms ∙ quiet-vote_req_to n pre m

  pub quiet-broadcast_vote_req :
      (n : Node P) (pre : Bool) → quiet (broadcast_vote_req P n pre) ≡ quiet n
  unfolding broadcast_vote_req
  quiet-broadcast_vote_req n pre = quiet-vote_req_to_all n pre (members_of P n)

  quiet-probe_to :
      (n : Node P) (up : List NodeId) (m : NodeId) → quiet (probe_to P n up m) ≡ quiet n
  unfolding probe_to
  quiet-probe_to n up m = elim (Bool-cases (same m n.id)) [
    | inl itself ↦ rw (itself, probe_to)
    | inr other ↦ rw (other, probe_to) (quiet-send n m _ _)
  ]

  quiet-probe_to_all : (n : Node P) (up ms : List NodeId) → quiet (probe_to_all P n up ms) ≡ quiet n
  unfolding probe_to_all
  quiet-probe_to_all n up [] = refl
  quiet-probe_to_all n up (m ∷ ms) =
      quiet-probe_to_all (probe_to P n up m) up ms ∙ quiet-probe_to n up m

  pub quiet-broadcast_probe : (n : Node P) → quiet (broadcast_probe P n) ≡ quiet n
  unfolding broadcast_probe
  quiet-broadcast_probe n = quiet-probe_to_all n _ (members_of P n)

  -- The fields that two nodes share when they differ only by sending.
  pub record Kept (n n' : Node P) : Type 0 where
    pub settings : n'.settings ≡ n.settings
    pub counters : n'.counters ≡ n.counters
    pub view : n'.view ≡ n.view
    pub log : n'.log ≡ n.log
    pub role : n'.role ≡ n.role
    pub current_term : n'.current_term ≡ n.current_term
    pub voted_for : n'.voted_for ≡ n.voted_for
    pub leader_id : n'.leader_id ≡ n.leader_id
    pub commit_index : n'.commit_index ≡ n.commit_index
    pub match_index : n'.match_index ≡ n.match_index
    pub votes : n'.votes ≡ n.votes
    pub pre_votes : n'.pre_votes ≡ n.pre_votes
    pub recv_tr : n'.recv_tr ≡ n.recv_tr
    pub events : n'.events ≡ n.events
    pub election_elapsed : n'.election_elapsed ≡ n.election_elapsed
    pub election_timeout : n'.election_timeout ≡ n.election_timeout
    pub heard_from : n'.heard_from ≡ n.heard_from
    pub last_heard : n'.last_heard ≡ n.last_heard
    pub tick : n'.tick ≡ n.tick

  quiet-Kept : (n n' : Node P) → quiet n' ≡ quiet n → Kept n n'
  unfolding quiet
  quiet-Kept n n' q = record {
    settings = ap (λ x. x.settings) q;
    counters = ap (λ x. x.counters) q;
    view = ap (λ x. x.view) q;
    log = ap (λ x. x.log) q;
    role = ap (λ x. x.role) q;
    current_term = ap (λ x. x.current_term) q;
    voted_for = ap (λ x. x.voted_for) q;
    leader_id = ap (λ x. x.leader_id) q;
    commit_index = ap (λ x. x.commit_index) q;
    match_index = ap (λ x. x.match_index) q;
    votes = ap (λ x. x.votes) q;
    pre_votes = ap (λ x. x.pre_votes) q;
    recv_tr = ap (λ x. x.recv_tr) q;
    events = ap (λ x. x.events) q;
    election_elapsed = ap (λ x. x.election_elapsed) q;
    election_timeout = ap (λ x. x.election_timeout) q;
    heard_from = ap (λ x. x.heard_from) q;
    last_heard = ap (λ x. x.last_heard) q;
    tick = ap (λ x. x.tick) q;
  }

  pub send-Kept :
      (n : Node P) (to : NodeId) (kind : ℕ) (payload : Bytes) → Kept n (send P n to kind payload)
  send-Kept n to kind payload = quiet-Kept n _ (quiet-send n to kind payload)

  pub append_to-Kept : (n : Node P) (m : NodeId) → Kept n (append_to P n m)
  append_to-Kept n m = quiet-Kept n _ (quiet-append_to n m)

  pub remember_next-Kept : (n : Node P) (m : NodeId) (k : ℕ) → Kept n (remember_next P n m k)
  remember_next-Kept n m k = quiet-Kept n _ (quiet-remember_next n m k)

  pub broadcast_append-Kept : (n : Node P) → Kept n (broadcast_append P n)
  broadcast_append-Kept n = quiet-Kept n _ (quiet-broadcast_append n)

  pub broadcast_vote_req-Kept : (n : Node P) (pre : Bool) → Kept n (broadcast_vote_req P n pre)
  broadcast_vote_req-Kept n pre = quiet-Kept n _ (quiet-broadcast_vote_req n pre)

  pub broadcast_probe-Kept : (n : Node P) → Kept n (broadcast_probe P n)
  broadcast_probe-Kept n = quiet-Kept n _ (quiet-broadcast_probe n)
