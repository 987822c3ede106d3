-- ===== src/Consensus/Node/Commit.antt =====
-- Commitment in internal/consensus/handlers.go: what advanceCommit requires, and what a follower's
-- answer claims.
use crossfault.Codec.{encode_append_resp}
use crossfault.Prelude.{
  ℕ, ◌+◌, ◌-◌, ◌<◌, ◌≤◌, ◌≡◌, ◌⊎◌, refl, subst, sym, ap, ◌∙◌, true, Option, none, some, List, [],
  ◌∷◌, ◌++◌, Bytes, NodeId, NodeId-Key, lookup, length, get_elem?, Bool-cases, inl, inr, arith,
  if◌then◌else◌,
}
use crossfault.Prelude.Sorting.{sort, above, count_ge, ranked}
use crossfault.Platform.{Platform}
use crossfault.Messages.{Entry, AppendReq}
use crossfault.Crypt.Envelope.{Envelope, seal, kind_append_resp}
use crossfault.Crypt.Transcript.{Transcript, next}
use crossfault.Consensus.Log.{Log, last_index, term_at, matches, append_from_leader, append_loop}
use crossfault.Consensus.State.{Node, log_event, reset_election_timer, members_of, quorum}
use crossfault.Consensus.Node.{send, draft, become_follower}
use crossfault.Consensus.Node.Handlers.{
  matches_of, may_commit, advance_commit, follow, follow_commit, take_entries, handle_append_req,
}

module _ (P : Platform) where
  -- How many members the leader believes to hold its log up to an index, itself included.
  abbrev pub holders : Node P → ℕ → ℕ
  holders n index = count_ge index (last_index n.log ∷ matches_of P n (members_of P n))

  abbrev pub CommitRule : Node P → ℕ → Type 0
  CommitRule n c =
      (c ≡ n.commit_index)
      ⊎ ((n.commit_index < c)
          × (term_at n.log c ≡ some n.current_term)
          × (quorum P n ≤ holders n c)
          × ((v : ℕ) → c < v → holders n v < quorum P n))

  abbrev new_commit : Node P → Option ℕ → ℕ
  new_commit n none = n.commit_index
  new_commit n (some index) = if may_commit P n index then index else n.commit_index

  advance_commit-index :
      (n : Node P)
      → (advance_commit P n).commit_index
        ≡ new_commit n (
            get_elem?
              (sort above (last_index n.log ∷ matches_of P n (members_of P n)))
              (quorum P n - 1))
  unfolding advance_commit log_event
  advance_commit-index n = ground arith

  quorum_pos : (n : Node P) → 0 < quorum P n
  unfolding quorum
  quorum_pos n = omega arith

  new_commit-CommitRule :
      (n : Node P) (o : Option ℕ)
      → get_elem? (sort above (last_index n.log ∷ matches_of P n (members_of P n))) (quorum P n - 1)
        ≡ o
      → CommitRule n (new_commit n o)
  unfolding may_commit
  new_commit-CommitRule n none h = inl refl
  new_commit-CommitRule n (some c) h =
      let (reached, above_it) =
        ranked (last_index n.log ∷ matches_of P n (members_of P n)) (quorum P n - 1) h in
      elim (Bool-cases (may_commit P n c)) [
        | inr stays ↦ inl (rw stays)
        | inl commits ↦ rw commits (
            inr (
              ground arith,
              ground arith,
              omega (arith, quorum_pos n),
              λ v hv. omega (arith, quorum_pos n, above_it v hv),
            ))
      ]

  -- advanceCommit leaves the commit index alone, or moves it forward to an index whose entry is of
  -- the current term and that, by the leader's match indices and its own log, a majority holds; and
  -- in the second case no greater index has such a majority.
  pub advance_commit-CommitRule : (n : Node P) → CommitRule n (advance_commit P n).commit_index
  advance_commit-CommitRule n =
      subst (CommitRule n) (sym (advance_commit-index n)) (new_commit-CommitRule n _ refl)

  pub send-outbox :
      (n : Node P) (to : NodeId) (kind : ℕ) (payload : Bytes) {tr : Transcript}
      → lookup to n.send_tr ≡ some tr
      → (env : Envelope) × ((send P n to kind payload).outbox ≡ n.outbox ++ env ∷ [])
        × (env.payload ≡ payload)
  unfolding send next seal
  send-outbox n to kind payload {tr} h =
      ((next P tr n.ident (draft P to kind n.current_term payload)).1, rw (h, send), refl)

  pub follow_commit_lem :
      (n : Node P) (c : ℕ)
      → ((follow_commit P n c).log ≡ n.log)
        × ((follow_commit P n c).current_term ≡ n.current_term)
        × ((follow_commit P n c).send_tr ≡ n.send_tr)
        × ((follow_commit P n c).outbox ≡ n.outbox)
  unfolding follow_commit
  follow_commit_lem n c = ground arith

  pub follow_lem :
      (n : Node P) (from : NodeId) (m : AppendReq)
      → n.current_term ≤ m.term
      → ((follow P n from m).log ≡ n.log)
        × ((follow P n from m).current_term ≡ m.term)
        × ((follow P n from m).send_tr ≡ n.send_tr)
        × ((follow P n from m).outbox ≡ n.outbox)
  unfolding follow become_follower reset_election_timer
  follow_lem n from m h = ground arith

  -- The one answer to accepted entries claims the whole of the follower's log.
  pub take_entries-answer :
      (n : Node P) (from : NodeId) (m : AppendReq) {tr : Transcript}
      → lookup from n.send_tr ≡ some tr
      → (env : Envelope) × ((take_entries P n from m).outbox ≡ n.outbox ++ env ∷ [])
        × (env.payload
            ≡ encode_append_resp P (record {
              term = n.current_term;
              success = true;
              match_index = last_index (append_from_leader P n.log m.prev_index m.entries).0;
              conflict_index = 0;
            }))
  unfolding take_entries
  take_entries-answer n from m {tr} linked =
      let spliced = record n { log = (append_from_leader P n.log m.prev_index m.entries).0 } in
      let done = follow_commit P spliced m.leader_commit in
      let (kept_log, kept_term, kept_tr, kept_outbox) = follow_commit_lem spliced m.leader_commit in
      let (env, sent, says) =
        send-outbox done from kind_append_resp _ {tr = tr} (ap (lookup from) kept_tr ∙ linked) in
      (env, sent ∙ ap (λ o. o ++ env ∷ []) kept_outbox, ground (arith, says, kept_log, kept_term))

  pub accepted :
      (n : Node P) (from : NodeId) (m : AppendReq)
      → n.current_term ≤ m.term
      → matches n.log m.prev_index m.prev_term ≡ true
      → handle_append_req P n from m ≡ take_entries P (follow P n from m) from m
  unfolding handle_append_req
  accepted n from m newer agreed = ground (arith, follow_lem n from m)

  append_none :
      (l : Log) (prev : ℕ) (es : List Entry) → es ≡ [] → (append_from_leader P l prev es).0 ≡ l
  unfolding append_from_leader append_loop
  append_none l prev [] h = refl
  append_none l prev (e ∷ es) h = absurd (cc)

  -- When a request of the same or a newer term, from a peer that the node has a transcript with, carries
  -- no entries, its previous entry matches and the
  -- follower's log is longer than that, the answer claims a match beyond the last entry that the
  -- request vouches for: the tail that nobody compared counts as replicated.
  pub heartbeat_overstates :
      (n : Node P) (from : NodeId) (m : AppendReq) {tr : Transcript}
      → lookup from n.send_tr ≡ some tr
      → n.current_term ≤ m.term
      → m.entries ≡ []
      → matches n.log m.prev_index m.prev_term ≡ true
      → m.prev_index < last_index n.log
      → (env : Envelope) × (claim : ℕ) × ((handle_append_req P n from m).outbox
          ≡ n.outbox ++ env ∷ [])
        × (env.payload
            ≡ encode_append_resp P
                (record { term = m.term; success = true; match_index = claim; conflict_index = 0 }))
        × (m.prev_index + length m.entries < claim)
  heartbeat_overstates n from m {tr} linked newer empty agreed stale =
      let (log_kept, term_now, tr_kept, outbox_kept) = follow_lem n from m newer in
      let f = follow P n from m in
      let (env, sent, says) =
        take_entries-answer f from m {tr = tr} (ap (lookup from) tr_kept ∙ linked) in
      let whole = append_none f.log m.prev_index m.entries empty in
      (
        env,
        last_index n.log,
        ap (λ x. x.outbox) (accepted n from m newer agreed)
            ∙ sent
            ∙ ap (λ o. o ++ env ∷ []) outbox_kept,
        ground (arith, says, whole, log_kept, term_now),
        omega (arith, ap length empty),
      )
