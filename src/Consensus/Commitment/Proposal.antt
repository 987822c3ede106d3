-- ===== src/Consensus/Commitment/Proposal.antt =====
-- Propose of internal/consensus and the answers to what it sends out.
use crossfault.Prelude.{
  ◌+◌, ◌≤◌, ◌≡◌, ap, sym, subst, ◌∙◌, some, List, Bytes, NodeId, NodeId-Key, length, inl, arith,
}
use crossfault.Prelude.Sorting.{count_ge, AllLe}
use crossfault.Prelude.{◌++◌, ◌∷◌, []}
use crossfault.Consensus.Log.Splice.{contents, contents-append}
use crossfault.Platform.{Platform}
use crossfault.Consensus.Log.{last_index, term_at, append}
use crossfault.Consensus.State.{Node, leader, log_event, proposed, members_of, quorum}
use crossfault.Consensus.Node.{broadcast_append}
use crossfault.Consensus.Node.Handlers.{matches_of}
use crossfault.Consensus.Node.Deliver.{propose}
use crossfault.Consensus.Node.Commit.{holders}
use crossfault.Consensus.Node.Quiet.{broadcast_append-Kept}
use crossfault.Consensus.Commitment.{acknowledge, Behind, Holding}
use crossfault.Consensus.Commitment.Top.{count_ge-over, AllLe-suc, append_top}
use crossfault.Consensus.Commitment.Answers.{holders-same, acknowledge-commits}

module _ (P : Platform) where
  -- The new entry is held by the leader alone.
  appended-Holding :
      (n n' : Node P) (cmd : Bytes)
      → n'.role ≡ leader
      → n'.log ≡ append P n.log n.current_term cmd
      → n'.current_term ≡ n.current_term
      → n'.id ≡ n.id
      → n'.view ≡ n.view
      → n'.match_index ≡ n.match_index
      → n'.commit_index ≤ last_index n.log
      → AllLe (last_index n.log) (matches_of P n (members_of P n))
      → 2 ≤ quorum P n
      → Holding P (last_index n.log + 1) 1 n'
  unfolding count_ge
  appended-Holding n n' cmd leads log same_term same_id view matched behind all majority =
      let (top, term) = append_top P n.log n.current_term cmd in
      let (ms, q) = holders-same P n n' same_id view matched in
      let top' : last_index n'.log ≡ last_index n.log + 1 = ap last_index log ∙ top in
      let none_over : count_ge (last_index n.log + 1) (matches_of P n' (members_of P n')) ≡ 0 =
        ap (count_ge (last_index n.log + 1)) ms
        ∙ count_ge-over (last_index n.log + 1) (last_index n.log) (matches_of P n (members_of P n))
            all (omega arith) in
      let one : holders P n' (last_index n.log + 1) ≡ 1 = ground (arith, top', none_over) in
      (
        leads,
        top',
        ap (λ l. term_at l (last_index n.log + 1)) log ∙ term ∙ ap some (sym same_term),
        subst (AllLe (last_index n.log + 1)) (sym ms)
            (AllLe-suc (last_index n.log) (matches_of P n (members_of P n)) all),
        omega (arith, behind),
        omega (arith, one),
        inl (omega (arith, one, majority, q)),
      )

  -- Once a leader has taken in a command, and as many other members that it believes behind have answered
  -- that they hold the new entry as make up a majority with the leader itself, the entry is committed;
  -- its log is the one before, with the command behind it. Stated for a leader of a cluster of two or more
  -- that has committed no more than its log and believes no member ahead of it.
  pub proposal-commits :
      (n n' : Node P) (cmd : Bytes) (ids : List NodeId)
      → propose P n cmd ≡ some n'
      → n.commit_index ≤ last_index n.log
      → AllLe (last_index n.log) (matches_of P n (members_of P n))
      → 2 ≤ quorum P n
      → quorum P n ≤ 1 + length ids
      → Behind (last_index n.log + 1) n.id (members_of P n) n.match_index ids
      → let committed = acknowledge P (last_index n.log + 1) n' ids in
        (committed.commit_index ≡ last_index n.log + 1)
        × (committed.log ≡ append P n.log n.current_term cmd)
        × (contents committed.log ≡ contents n.log ++ (n.current_term, cmd) ∷ [])
  unfolding propose log_event
  proposal-commits n n' cmd ids done behind all majority enough asked =
      let logged =
        log_event P (record n { log = append P n.log n.current_term cmd }) (proposed cmd) in
      let sent : n' ≡ broadcast_append P logged = ground arith in
      let leads : n.role ≡ leader = ground arith in
      let k = broadcast_append-Kept P logged in
      let same_id : n'.id ≡ n.id = ap (λ m. m.id) sent ∙ ap (λ s. s.id) k.settings in
      let view : n'.view ≡ n.view = ap (λ m. m.view) sent ∙ k.view in
      let log : n'.log ≡ append P n.log n.current_term cmd = ap (λ m. m.log) sent ∙ k.log in
      let matched : n'.match_index ≡ n.match_index = ap (λ m. m.match_index) sent ∙ k.match_index in
      let (ms, q) = holders-same P n n' same_id view matched in
      let h =
        appended-Holding n n' cmd (ap (λ m. m.role) sent ∙ k.role ∙ leads) log
          (ap (λ m. m.current_term) sent ∙ k.current_term) same_id view matched
          (omega (arith, behind, ap (λ m. m.commit_index) sent ∙ k.commit_index)) all majority in
      let asked' : Behind (last_index n.log + 1) n'.id (members_of P n') n'.match_index ids =
        rw (same_id, ap (λ v. v.members) view, matched) asked in
      let (committed, kept) =
        acknowledge-commits P (last_index n.log + 1) 1 n' ids h asked' (omega (arith, q, enough)) in
      (committed, kept ∙ log, ap contents (kept ∙ log) ∙ contents-append P n.log n.current_term cmd)
