-- ===== src/Consensus/Replication/Rounds.antt =====
-- One exchange between a leader and a follower of internal/consensus: a refusal, after which the leader
-- tries an earlier index, or an acceptance.
use crossfault.Codec.{decode_append_resp, encode_append_resp}
use crossfault.Prelude.{
  ℕ, zero, suc, ◌+◌, ◌≤◌, ◌≡◌, refl, ap, ◌∙◌, true, false, none, some, [], ◌∷◌, ◌++◌, Bytes, NodeId,
  NodeId-Key, lookup, lookup-insert_self, take, last?, get_elem?, get_elem?-take, get_elem?-none,
  u64, Option-cases, inl, inr, arith,
}
use crossfault.Platform.{Platform}
use crossfault.Messages.{AppendReq, AppendResp}
use crossfault.Crypt.Envelope.{Envelope, kind_append_resp}
use crossfault.Crypt.Transcript.{Transcript, next}
use crossfault.Consensus.Log.{
  Log, log_len, last_index, entry_at-suc, term_at, matches, slice, append_from_leader,
}
use crossfault.Consensus.Log.Splice.{contents, get_elem?-contents}
use crossfault.Consensus.Log.Matching.{LogMatching, append_from_leader-slice}
use crossfault.Consensus.State.{Node}
use crossfault.Consensus.Node.{send, next_for, append_req_for}
use crossfault.Consensus.Node.Handlers.{
  min64, follow, refuse_append, take_entries, handle_append_req, handle_append_resp,
}
use crossfault.Consensus.Node.Quiet.{send-Kept}
use crossfault.Consensus.Node.Commit.{follow_lem, send-outbox, accepted, take_entries-answer}
use crossfault.Consensus.Node.LogKept.{matches-in_log, take_entries-log}
use crossfault.Consensus.Node.Fixed.{follow-settings}
use crossfault.Consensus.Replication.{AgreeWhereTermsDo, request, exchange, Replicates}

module _ (P : Platform) where
  -- The follower's refusal.
  pub refused_lem :
      (n : Node P) (from : NodeId) (m : AppendReq)
      → n.current_term ≤ m.term
      → matches n.log m.prev_index m.prev_term ≡ false
      → handle_append_req P n from m
        ≡ refuse_append P (follow P n from m) from (min64 m.prev_index (u64 (last_index n.log + 1)))
  unfolding handle_append_req
  refused_lem n from m newer disagreed = ground (arith, follow_lem P n from m)

  send_linked :
      (n : Node P) (to : NodeId) (kind : ℕ) (payload : Bytes) {tr : Transcript}
      → lookup to n.send_tr ≡ some tr
      → (tr' : Transcript) × (lookup to (send P n to kind payload).send_tr ≡ some tr')
  unfolding send
  send_linked n to kind payload {tr} h =
      rw (h, send) ((next P tr n.ident _).0, lookup-insert_self to _ n.send_tr)

  -- What the follower is after its refusal.
  pub record Refused (l f : Node P) (f' : Node P) (conflict : ℕ) : Type 0 where
    pub same_log : f'.log ≡ f.log
    pub same_settings : f'.settings ≡ f.settings
    pub one_term : f'.current_term ≡ l.current_term
    pub linked : (tr : Transcript) × (lookup l.id f'.send_tr ≡ some tr)
    pub answer :
        exchange P l f
        ≡ some (
          handle_append_resp P l f.id (record {
            term = l.current_term;
            success = false;
            match_index = 0;
            conflict_index = conflict;
          }),
          f',
        )

  -- An exchange whose one answer says a thing is the leader's handling of that.
  answered :
      (l f f' : Node P) (env : Envelope) (m : AppendResp)
      → handle_append_req P (record f { outbox = [] }) l.id (request P l f) ≡ f'
      → f'.outbox ≡ env ∷ []
      → decode_append_resp P env.payload ≡ some m
      → exchange P l f ≡ some (handle_append_resp P l f.id m, f')
  unfolding exchange
  answered l f f' env m handled sent says =
      ground (arith, ap (λ n. last? n.outbox) handled, ap last? sent)

  AgreeWhereTermsDo-LogMatching : (f l : Log) → AgreeWhereTermsDo f l → LogMatching f l
  AgreeWhereTermsDo-LogMatching f l agree i x y at_x at_y terms =
      let both = agree i x y at_x at_y terms in
      let left = get_elem?-take (suc i) (contents f) i (omega arith) in
      let right = get_elem?-take (suc i) (contents l) i (omega arith) in
      let here = ap (λ es. get_elem? es i) both in
      ground
        (arith, left, right, here, get_elem?-contents f.entries i, get_elem?-contents l.entries i)

  -- The follower's log agrees with the leader's up to an index where their terms match.
  matching_prefix :
      (f l : Log) (k : ℕ)
      → AgreeWhereTermsDo f l
      → k ≤ log_len l
      → matches f k (elim (term_at l k) [ none ↦ 0 | some term ↦ term ]) ≡ true
      → take k (contents f) ≡ take k (contents l)
  unfolding matches term_at
  matching_prefix f l zero agree inside agreed = refl
  matching_prefix f l (suc k) agree inside agreed =
      let at_f = entry_at-suc f k in
      let at_l = entry_at-suc l k in
      elim (Option-cases (get_elem? l.entries k)) [
        | inl absent ↦ absurd (omega (arith, get_elem?-none l.entries k absent))
        | inr (y, there) ↦ elim (Option-cases (get_elem? f.entries k)) [
          | inl absent ↦ absurd (ground (arith, at_f, at_l))
          | inr (x, here) ↦ agree k x y here there (ground (arith, at_f, at_l))
        ]
      ]

  module _ (json : (m : AppendResp) → decode_append_resp P (encode_append_resp P m) ≡ some m) where
    pub refusal :
        (l f : Node P)
        → Replicates P l f
        → matches f.log (request P l f).prev_index (request P l f).prev_term ≡ false
        → (f' : Node P) × Refused l f f'
            (min64 (request P l f).prev_index (u64 (last_index f.log + 1)))
    unfolding append_req_for
    refusal l f r disagreed =
        let empty = record f { outbox = [] } in
        let m = request P l f in
        let conflict = min64 m.prev_index (u64 (last_index f.log + 1)) in
        let now = follow P empty l.id m in
        let (log_kept, term_now, tr_kept, outbox_kept) = follow_lem P empty l.id m r.older in
        let linked : lookup l.id now.send_tr ≡ some (r.linked.0) =
          ap (lookup l.id) tr_kept ∙ r.linked.1 in
        let (env, sent, says) =
          send-outbox P now l.id kind_append_resp _ {tr = r.linked.0} linked in
        let kept = send-Kept P now l.id kind_append_resp _ in
        let f' = refuse_append P now l.id conflict in
        (
          f',
          record {
            same_log = kept.log ∙ log_kept;
            same_settings = kept.settings ∙ follow-settings P empty l.id m;
            one_term = kept.current_term ∙ term_now;
            linked = send_linked now l.id kind_append_resp _ {tr = r.linked.0} linked;
            answer =
                answered l f f' env _ (refused_lem empty l.id m r.older disagreed)
                  (sent ∙ ap (λ o. o ++ env ∷ []) outbox_kept)
                  (ap (decode_append_resp P) says ∙ json _ ∙ ground (arith, term_now));
          },
        )

    pub acceptance :
        (l f : Node P) (k : ℕ)
        → Replicates P l f
        → next_for P l f.id ≡ suc k
        → matches f.log (request P l f).prev_index (request P l f).prev_term ≡ true
        → (l' f' : Node P) × (exchange P l f ≡ some (l', f'))
          × (take (log_len l.log) f'.log.entries ≡ l.log.entries)
    unfolding append_req_for
    acceptance l f k r start agreed =
        let empty = record f { outbox = [] } in
        let m = request P l f in
        let now = follow P empty l.id m in
        let (log_kept, term_now, tr_kept, outbox_kept) = follow_lem P empty l.id m r.older in
        let linked : lookup l.id now.send_tr ≡ some (r.linked.0) =
          ap (lookup l.id) tr_kept ∙ r.linked.1 in
        let (env, sent, says) = take_entries-answer P now l.id m {tr = r.linked.0} linked in
        let before : m.prev_index ≡ k = omega arith in
        let spliced : (take_entries P now l.id m).log
            ≡ (append_from_leader P f.log k (slice l.log (suc k))).0 =
          take_entries-log P now l.id m ∙ ground (arith, log_kept, before, start) in
        (
          handle_append_resp P l f.id _,
          take_entries P now l.id m,
          answered l f _ env _ (accepted P empty l.id m r.older agreed)
              (sent ∙ ap (λ o. o ++ env ∷ []) outbox_kept)
              (ap (decode_append_resp P) says ∙ json _),
          ap (λ g. take (log_len l.log) g.entries) spliced
              ∙ append_from_leader-slice P f.log l.log k
                  (matches-in_log f.log k m.prev_term (ground (arith, before)))
                  (omega (arith, r.within)) (omega (arith, r.l_room))
                  (matching_prefix f.log l.log k r.agree (omega (arith, r.within))
                    (ground (arith, before)))
                  (AgreeWhereTermsDo-LogMatching f.log l.log r.agree) r.f_chained r.l_chained,
        )
