-- ===== src/Consensus/Commitment/Answers.antt =====
-- handleAppendResp of internal/consensus on successful answers, one follower after another.
use crossfault.Prelude.{
  ℕ, ◌+◌, ◌/◌, ◌<◌, ◌≤◌, ◌≡◌, ◌≢◌, refl, ap, sym, subst, ◌∙◌, true, some, List, [], ◌∷◌, NodeId,
  NodeId-Key, lookup-insert, insert, get_or, contains, length, inl, inr, arith, if◌then◌else◌, u64,
  dec_le,
}
use crossfault.Prelude.Sorting.{count_ge, AllLe}
use crossfault.Platform.{Platform}
use crossfault.Consensus.Log.{last_index, term_at}
use crossfault.Consensus.State.{Node, leader, log_event, members_of, quorum}
use crossfault.Consensus.Node.Handlers.{matches_of, advance_commit, handle_append_resp}
use crossfault.Consensus.Node.Commit.{holders}
use crossfault.Consensus.Commitment.{acknowledged, acknowledge, Behind, Holding}
use crossfault.Consensus.Commitment.Top.{advance_commit-reaches, advance_commit-le}

module _ (P : Platform) where
  advance_commit-same :
      (n : Node P)
      → let n' = advance_commit P n in
        (n'.settings ≡ n.settings)
        × (n'.view ≡ n.view)
        × (n'.log ≡ n.log)
        × (n'.role ≡ n.role)
        × (n'.current_term ≡ n.current_term)
        × (n'.match_index ≡ n.match_index)
  unfolding advance_commit log_event
  advance_commit-same n = ground arith

  acknowledged_lem :
      (c : ℕ) (n : Node P) (id : NodeId)
      → n.role ≡ leader
      → acknowledged P c n id
        ≡ advance_commit P (record n {
          match_index = insert id c n.match_index;
          next_index = insert id (u64 (c + 1)) n.next_index;
        })
  unfolding acknowledged handle_append_resp
  acknowledged_lem c n id leads = ground arith

  -- One more follower among those that hold the log up to `c`.
  matches_of-insert :
      (c : ℕ) (n n' : Node P) (id : NodeId) (ms : List NodeId)
      → n'.match_index ≡ insert id c n.match_index
      → n'.id ≡ n.id
      → id ≢ n.id
      → get_or id 0 n.match_index < c
      → AllLe c (matches_of P n ms)
      → AllLe c (matches_of P n' ms)
        × (count_ge c (matches_of P n ms) + (if contains ms id then 1 else 0)
            ≤ count_ge c (matches_of P n' ms))
  unfolding matches_of count_ge contains get_or
  matches_of-insert c n n' id [] stored same_id other low all = (tt, omega arith)
  matches_of-insert c n n' id (m ∷ ms) stored same_id other low all = ground (
    arith,
    lookup-insert id m c n.match_index,
    matches_of-insert c n n' id ms stored same_id other low,
  )

  matches_of-same :
      (n n' : Node P) (ms : List NodeId)
      → n'.id ≡ n.id
      → n'.match_index ≡ n.match_index
      → matches_of P n' ms ≡ matches_of P n ms
  unfolding matches_of
  matches_of-same n n' [] same_id matched = refl
  matches_of-same n n' (m ∷ ms) same_id matched =
      ground (arith, matches_of-same n n' ms same_id matched)

  pub holders-same :
      (n n' : Node P)
      → n'.id ≡ n.id
      → n'.view ≡ n.view
      → n'.match_index ≡ n.match_index
      → (matches_of P n' (members_of P n') ≡ matches_of P n (members_of P n))
        × (quorum P n' ≡ quorum P n)
  unfolding quorum
  holders-same n n' same_id view matched = (
    matches_of-same n n' (members_of P n') same_id matched
        ∙ ap (λ v. matches_of P n v.members) view,
    ap (λ v. length v.members / 2 + 1) view,
  )

  advance_commit-Holding :
      (c k : ℕ) (n : Node P)
      → n.role ≡ leader
      → last_index n.log ≡ c
      → term_at n.log c ≡ some n.current_term
      → AllLe c (matches_of P n (members_of P n))
      → n.commit_index ≤ c
      → k ≤ holders P n c
      → Holding P c k (advance_commit P n)
  advance_commit-Holding c k n leads top current all behind many =
      let n' = advance_commit P n in
      let (settings, view, log, role, term, matched) = advance_commit-same n in
      let (ms, q) = holders-same n n' (ap (λ s. s.id) settings) view matched in
      let counts : holders P n' c ≡ holders P n c = ap (count_ge c) (
        ap (λ l. last_index l ∷ matches_of P n' (members_of P n')) log
        ∙ ap (λ l. last_index n.log ∷ l) ms) in
      (
        role ∙ leads,
        ap last_index log ∙ top,
        ap (λ l. term_at l c) log ∙ current ∙ ap some (sym term),
        subst (AllLe c) (sym ms) all,
        advance_commit-le P n c top all behind,
        omega (arith, counts),
        elim (dec_le (quorum P n) (holders P n c)) [
          | yes enough ↦ inr (advance_commit-reaches P n c top all current enough behind)
          | no short ↦ inl (omega (arith, counts, q))
        ],
      )

  acknowledged-Holding :
      (c k : ℕ) (n : Node P) (id : NodeId)
      → Holding P c k n
      → id ≢ n.id
      → contains (members_of P n) id ≡ true
      → get_or id 0 n.match_index < c
      → let n' = acknowledged P c n id in
        Holding P c (k + 1) n'
        × (n'.settings ≡ n.settings)
        × (n'.view ≡ n.view)
        × (n'.log ≡ n.log)
        × (n'.match_index ≡ insert id c n.match_index)
  acknowledged-Holding c k n id (leads, top, current, all, behind, many, open_or) other member low =
      let counted = record n {
        match_index = insert id c n.match_index;
        next_index = insert id (u64 (c + 1)) n.next_index;
      } in
      let (all', more) =
        matches_of-insert c n counted id (members_of P n) refl refl other low all in
      let (settings, view, log, role, term, matched) = advance_commit-same counted in
      rw (acknowledged_lem c n id leads) (
        advance_commit-Holding c (k + 1) counted leads top current all' behind
            (unfold count_ge in ground (arith, more, member, many)),
        settings,
        view,
        log,
        matched,
      )

  pub acknowledge-commits :
      (c k : ℕ) (n : Node P) (ids : List NodeId)
      → Holding P c k n
      → Behind c n.id (members_of P n) n.match_index ids
      → quorum P n ≤ k + length ids
      → ((acknowledge P c n ids).commit_index ≡ c) × ((acknowledge P c n ids).log ≡ n.log)
  unfolding acknowledge
  acknowledge-commits c k n [] h behind enough = (ground (arith, h), refl)
  acknowledge-commits c k n (id ∷ ids) h (other, member, low, rest) enough =
      let n' = acknowledged P c n id in
      let (h', settings, view, log, matched) = acknowledged-Holding c k n id h other member low in
      let same_id : n'.id ≡ n.id = ap (λ s. s.id) settings in
      let same_members : members_of P n' ≡ members_of P n = ap (λ v. v.members) view in
      let q : quorum P n' ≡ quorum P n = unfold quorum in ap (λ v. length v.members / 2 + 1) view in
      let rest' : Behind c n'.id (members_of P n') n'.match_index ids =
        rw (same_id, same_members, matched) rest in
      let (done, kept) = acknowledge-commits c (k + 1) n' ids h' rest' (omega (arith, q)) in
      (done, kept ∙ log)
