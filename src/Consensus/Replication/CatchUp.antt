-- ===== src/Consensus/Replication/CatchUp.antt =====
-- How the backing off of handleAppendResp and the conflict index of handleAppendReq bring a follower up
-- to its leader: every refusal moves the next index down, and index 1 is never refused.
use crossfault.Codec.{decode_append_resp, encode_append_resp}
use crossfault.Prelude.{
  ℕ, zero, suc, ◌+◌, ◌-◌, ◌<◌, ◌≤◌, ◌≡◌, ◌≢◌, sym, ap, subst, ◌∙◌, true, false, some, ◌==◌,
  if◌then◌else◌, NodeId, NodeId-Key, lookup-insert_self, insert, get_or, u64, take, Bool-cases, inl,
  inr, arith,
}
use crossfault.Platform.{Platform}
use crossfault.Messages.{AppendResp}
use crossfault.Consensus.Log.{log_len, last_index, matches, term_at}
use crossfault.Consensus.State.{Node, leader}
use crossfault.Consensus.Node.{next_for, append_req_for}
use crossfault.Consensus.Node.Handlers.{min64, handle_append_resp}
use crossfault.Consensus.Log.Chain.{IsChained}
use crossfault.Consensus.Replication.{AgreeWhereTermsDo, request, exchange, exchanges, Replicates}
use crossfault.Consensus.Replication.Rounds.{Refused, refusal, acceptance}

module _ (P : Platform) where
  -- The leader after a refusal.
  abbrev backed_off : Node P → NodeId → ℕ → Node P
  backed_off l id c = record l { next_index = insert id (if c == 0 then 1 else c) l.next_index }

  backs_off :
      (l : Node P) (from : NodeId) (c : ℕ)
      → l.role ≡ leader
      → handle_append_resp P l from
          (record { term = l.current_term; success = false; match_index = 0; conflict_index = c })
        ≡ backed_off l from c
  unfolding handle_append_resp
  backs_off l from c leads = ground arith

  -- Index 0 matches every log.
  never_refuses_all :
      (f l : Node P)
      → next_for P l f.id ≡ 1
      → matches f.log (request P l f).prev_index (request P l f).prev_term ≡ true
  unfolding append_req_for matches term_at
  never_refuses_all f l start = ground arith

  next_for-insert :
      (l : Node P) (id : NodeId) (c : ℕ) → 0 < c → next_for P (backed_off l id c) id ≡ c
  unfolding next_for get_or
  next_for-insert l id c positive =
      ground (arith, lookup-insert_self id (if c == 0 then 1 else c) l.next_index)

  refused_prev :
      (l f : Node P) → Replicates P l f → (request P l f).prev_index ≡ next_for P l f.id - 1
  unfolding append_req_for
  refused_prev l f r = omega (arith, r.positive, r.within, r.l_room)

  -- A refusal leaves a pair that can go on, at an earlier index.
  Refused-Replicates :
      (l f f' : Node P) (c : ℕ)
      → Replicates P l f
      → Refused P l f f' c
      → 0 < c
      → c ≤ next_for P l f.id
      → (Replicates P (backed_off l f.id c) f') × (next_for P (backed_off l f.id c) f'.id ≡ c)
  Refused-Replicates l f f' c r d positive earlier =
      let one_id : f'.id ≡ f.id = ap (λ s. s.id) d.same_settings in
      let start : next_for P (backed_off l f.id c) f'.id ≡ c =
        ap (next_for P (backed_off l f.id c)) one_id ∙ next_for-insert l f.id c positive in
      (
        record {
          leads = r.leads;
          older = omega (arith, d.one_term);
          linked = d.linked;
          l_chained = r.l_chained;
          f_chained = subst (IsChained P) (sym d.same_log) r.f_chained;
          l_room = r.l_room;
          f_room = omega (arith, ap log_len d.same_log, r.f_room);
          agree = subst (λ g. AgreeWhereTermsDo g l.log) (sym d.same_log) r.agree;
          positive = omega (arith, start);
          within = omega (arith, start, r.within);
        },
        start,
      )

  exchanges-suc :
      (j : ℕ) (l f l' f' : Node P)
      → exchange P l f ≡ some (l', f')
      → exchanges P (suc j) l f ≡ exchanges P j l' f'
  unfolding exchanges
  exchanges-suc j l f l' f' h = ground arith

  module _ (json : (m : AppendResp) → decode_append_resp P (encode_append_resp P m) ≡ some m) where
    catches_up_within :
        (k : ℕ) (l f : Node P)
        → Replicates P l f
        → next_for P l f.id ≤ k
        → (j : ℕ) × (j ≤ k)
          × (l' f' : Node P) × (exchanges P j l f ≡ some (l', f'))
          × (take (log_len l.log) f'.log.entries ≡ l.log.entries)
    unfolding exchanges
    catches_up_within zero l f r enough = absurd (omega (arith, r.positive))
    catches_up_within (suc k) l f r enough =
        let m = request P l f in
        let prev = refused_prev l f r in
        elim (Bool-cases (matches f.log m.prev_index m.prev_term)) [
          | inl agreed ↦
              let (l', f', done, whole) =
                acceptance P json l f (next_for P l f.id - 1) r (omega (arith, r.positive))
                  agreed in
              (1, omega arith, l', f', exchanges-suc 0 l f l' f' done, whole)
          | inr disagreed ↦
              let (f', d) = refusal P json l f r disagreed in
              let c = min64 m.prev_index (u64 (last_index f.log + 1)) in
              let not_first : next_for P l f.id ≢ 1 =
                λ first. absurd (ground (arith, never_refuses_all f l first)) in
              let later : 1 < next_for P l f.id = omega (arith, r.positive) in
              let positive : 0 < c = ground (arith, prev, later, r.f_room) in
              let smaller : c < next_for P l f.id = ground (arith, prev, later) in
              let (on, start) = Refused-Replicates l f f' c r d positive (omega arith) in
              let (j, few, l'', f'', done, whole) =
                catches_up_within k (backed_off l f.id c) f' on (omega arith) in
              (
                suc j,
                omega arith,
                l'',
                f'',
                exchanges-suc j l f (backed_off l f.id c) f'
                      (d.answer ∙ ap (λ n. some (n, f')) (backs_off l f.id c r.leads))
                    ∙ done,
                whole,
              )
        ]

    -- Take a leader, and a follower that is in no newer term and has a transcript with it, whose
    -- logs are chained, agree up to wherever they have the same term and leave room for one more
    -- index, where the leader takes the follower's next index to be positive and at most one past
    -- its own log. If an answer to a request decodes to what was encoded, then at most as many
    -- exchanges as that next index leave the follower with the leader's whole log, hashes
    -- included, as the beginning of its own.
    pub catches_up :
        (l f : Node P)
        → Replicates P l f
        → (j : ℕ) × (j ≤ next_for P l f.id)
          × (l' f' : Node P) × (exchanges P j l f ≡ some (l', f'))
          × (take (log_len l.log) f'.log.entries ≡ l.log.entries)
    catches_up l f r = catches_up_within (next_for P l f.id) l f r (omega arith)
