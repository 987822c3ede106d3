-- ===== src/Consensus/Member/Handling.antt =====
-- The message handlers of internal/consensus/handlers.go keep a member a member.
use crossfault.Prelude.{
  ℕ, ◌*◌, ◌<◌, ◌≤◌, ◌≡◌, refl, Bool, false, List, [], ◌∷◌, Bytes, NodeId, NodeId-Key, arith, ap,
  ◌∙◌, inl, inr, same, contains, if◌then◌else◌,
}
use crossfault.Platform.{Platform, PlatformLaws}
use crossfault.Messages.{AppendReq, AppendResp, VoteReq, VoteResp, ProbeReq, ProbeResp}
use crossfault.Crypt.Identity.{Error}
use crossfault.Crypt.Envelope.{Envelope}
use crossfault.Netmatrix.View.{View, set_edge, observe_inbound}
use crossfault.Consensus.State.{Node, leader, log_event, reset_election_timer, members_of}
use crossfault.Consensus.Node.{
  send, become_follower, become_leader, start_campaign, promote_to_candidate, track_peer,
  track_peers, clear_heard,
}
use crossfault.Consensus.Node.Handlers.{
  follow, follow_commit, take_entries, advance_commit, handle_append_req, handle_append_resp,
  cast_vote, handle_vote_req, handle_vote_resp, handle_probe_req, handle_probe_resp, merge_inbound,
}
use crossfault.Consensus.Node.Deliver.{refused, note_heard, dispatch, deliver}
use crossfault.Consensus.Node.Dispatching.{dispatch_any, deliver_any}
use crossfault.Consensus.Node.Quiet.{send-Kept, broadcast_append-Kept, broadcast_vote_req-Kept}
use crossfault.Consensus.Member.{Timely}

merge_inbound-roster :
    (v : View) (peer : NodeId) (up ms : List NodeId)
    → ((merge_inbound v peer up ms).owner ≡ v.owner)
      × ((merge_inbound v peer up ms).members ≡ v.members)
unfolding merge_inbound set_edge
merge_inbound-roster v peer up [] = (refl, refl)
merge_inbound-roster v peer up (m ∷ ms) =
    let v' = if same m peer then v else set_edge v m peer (contains up m) in
    ground (arith, merge_inbound-roster v' peer up ms)

module _ (P : Platform) (laws : PlatformLaws P) where
  -- A reset of the timer sets it anew and changes no field but the timer's.
  reset-Timely :
      (n : Node P)
      → 0 < n.base_election
      → let n' = reset_election_timer P n in
        (n'.settings ≡ n.settings)
        × (n'.view ≡ n.view)
        × (n'.role ≡ n.role)
        × (n'.election_elapsed ≡ 0)
        × (n.base_election ≤ n'.election_timeout)
        × (n'.election_timeout < 2 * n.base_election)
  unfolding reset_election_timer
  reset-Timely n positive = ground (arith, laws.intn-lt n.rng n.base_election positive)

  send-Timely :
      (n : Node P) (to : NodeId) (kind : ℕ) (payload : Bytes)
      → Timely P n (send P n to kind payload)
  send-Timely n to kind payload = ground (arith, send-Kept P n to kind payload)

  pub become_follower-settings :
      (n : Node P) (term : ℕ) (l : NodeId) → (become_follower P n term l).settings ≡ n.settings
  unfolding become_follower reset_election_timer
  become_follower-settings n term l = refl

  pub become_follower-Reset :
      (n : Node P) (term : ℕ) (l : NodeId)
      → 0 < n.base_election
      → let n' = become_follower P n term l in
        (n'.election_elapsed ≡ 0)
        × (n.base_election ≤ n'.election_timeout)
        × (n'.election_timeout < 2 * n.base_election)
  unfolding become_follower
  become_follower-Reset n term l positive = grind (arith, reset-Timely)

  become_follower-Timely :
      (n : Node P) (term : ℕ) (l : NodeId)
      → 0 < n.base_election
      → Timely P n (become_follower P n term l)
  unfolding become_follower
  become_follower-Timely n term l positive = grind (arith, reset-Timely)

  follow-Timely :
      (n : Node P) (from : NodeId) (m : AppendReq)
      → 0 < n.base_election
      → Timely P n (follow P n from m)
  unfolding follow become_follower
  follow-Timely n from m positive = grind (arith, reset-Timely)

  take_entries-Timely :
      (n : Node P) (from : NodeId) (m : AppendReq) → Timely P n (take_entries P n from m)
  unfolding take_entries follow_commit
  take_entries-Timely n from m = grind (arith, send-Timely)

  handle_append_req-Timely :
      (n : Node P) (from : NodeId) (m : AppendReq)
      → 0 < n.base_election
      → Timely P n (handle_append_req P n from m)
  unfolding handle_append_req
  handle_append_req-Timely n from m positive =
      grind (arith, send-Timely, take_entries-Timely, follow-Timely)

  advance_commit-Timely : (n : Node P) → Timely P n (advance_commit P n)
  unfolding advance_commit log_event
  advance_commit-Timely n = ground arith

  handle_append_resp-Timely :
      (n : Node P) (from : NodeId) (m : AppendResp)
      → 0 < n.base_election
      → Timely P n (handle_append_resp P n from m)
  unfolding handle_append_resp
  handle_append_resp-Timely n from m positive =
      grind (arith, advance_commit-Timely, become_follower-Timely)

  handle_vote_req-Timely :
      (n : Node P) (from : NodeId) (m : VoteReq)
      → 0 < n.base_election
      → Timely P n (handle_vote_req P n from m)
  unfolding handle_vote_req cast_vote
  handle_vote_req-Timely n from m positive =
      grind (arith, send-Timely, become_follower-Timely, reset-Timely)

  start_campaign-Timely :
      (n : Node P) (after : Bool) → 0 < n.base_election → Timely P n (start_campaign P n after)
  unfolding start_campaign log_event reset_election_timer
  start_campaign-Timely n after positive =
      let short = laws.intn-lt n.rng n.base_election positive in
      let k = broadcast_vote_req-Kept P _ false in
      (
        k.settings,
        ap (λ v. v.owner) k.view,
        ap (λ v. v.members) k.view,
        inr (
          k.election_elapsed,
          omega (arith, k.election_timeout),
          omega (arith, k.election_timeout, short),
        ),
      )

  -- The parts of a node that an election leaves alone.
  abbrev SameSeat : Node P → Node P → Type 0
  SameSeat n n' =
      (n'.settings ≡ n.settings)
      × (n'.view ≡ n.view)
      × (n'.election_elapsed ≡ n.election_elapsed)
      × (n'.election_timeout ≡ n.election_timeout)

  track_peers-SameSeat : (n : Node P) (ms : List NodeId) → SameSeat n (track_peers P n ms)
  unfolding track_peers track_peer
  track_peers-SameSeat n [] = (refl, refl, refl, refl)
  track_peers-SameSeat n (m ∷ ms) = grind (arith, track_peers-SameSeat (track_peer P n m) ms)

  become_leader-SameSeat : (n : Node P) → SameSeat n (become_leader P n)
  unfolding become_leader log_event clear_heard
  become_leader-SameSeat n =
      let crowned =
        clear_heard P (record n { role = leader; leader_id = n.id; heartbeat_elapsed = 0 }) in
      let (s, v, e, t) = track_peers-SameSeat crowned (members_of P crowned) in
      let k = broadcast_append-Kept P _ in
      (k.settings ∙ s, k.view ∙ v, k.election_elapsed ∙ e, k.election_timeout ∙ t)

  handle_vote_resp-Timely :
      (n : Node P) (from : NodeId) (m : VoteResp)
      → 0 < n.base_election
      → Timely P n (handle_vote_resp P n from m)
  unfolding handle_vote_resp promote_to_candidate
  handle_vote_resp-Timely n from m positive =
      grind (arith, become_follower-Timely, become_leader-SameSeat, start_campaign-Timely)

  handle_probe_req-Timely :
      (n : Node P) (from : NodeId) (m : ProbeReq) → Timely P n (handle_probe_req P n from m)
  unfolding handle_probe_req
  handle_probe_req-Timely n from m = grind (arith, send-Timely, merge_inbound-roster)

  handle_probe_resp-Timely :
      (n : Node P) (from : NodeId) (m : ProbeResp) → Timely P n (handle_probe_resp P n from m)
  unfolding handle_probe_resp
  handle_probe_resp-Timely n from m = grind (arith, merge_inbound-roster)

  dispatch-Timely :
      (n : Node P) (env : Envelope) → 0 < n.base_election → Timely P n (dispatch P n env)
  dispatch-Timely n env positive =
      dispatch_any P (Timely P n) n env (refl, refl, refl, inl (refl, refl, inl refl))
        (λ m q. handle_append_req-Timely n env.from m positive)
        (λ m. handle_append_resp-Timely n env.from m positive)
        (λ m. handle_vote_req-Timely n env.from m positive)
        (λ m. handle_vote_resp-Timely n env.from m positive)
        (λ m. handle_probe_req-Timely n env.from m) (λ m. handle_probe_resp-Timely n env.from m)

  refused-Timely : (n : Node P) (env : Envelope) (e : Error) → Timely P n (refused P n env e)
  unfolding refused log_event
  refused-Timely n env Error.replay = (refl, refl, refl, inl (refl, refl, inl refl))
  refused-Timely n env _ = (refl, refl, refl, inl (refl, refl, inl refl))

  pub deliver-Timely :
      (n : Node P) (env : Envelope) → 0 < n.base_election → Timely P n (deliver P n env)
  unfolding note_heard observe_inbound set_edge
  deliver-Timely n env positive =
      let empty = record n { outbox = [] } in
      deliver_any P (Timely P n) n env (refl, refl, refl, inl (refl, refl, inl refl))
        (λ e. refused-Timely empty env e)
        (λ tr. dispatch-Timely (note_heard P empty env.from tr) env positive)
