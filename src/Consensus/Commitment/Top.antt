-- ===== src/Consensus/Commitment/Top.antt =====
-- The entry at the top of a leader's log, and the item that advanceCommit of internal/consensus picks
-- when nobody is believed to hold more than that log.
use crossfault.Prelude.{
  ℕ, suc, ◌+◌, ◌-◌, ◌<◌, ◌≤◌, ◌≡◌, refl, ap, sym, subst, ◌∙◌, some, List, [], ◌∷◌, Bytes,
  NodeId-Key, length, get_elem?, get_elem?-none, get_elem?-append_length, length-append,
  Option-cases, inl, inr, arith, u64, dec_le,
}
use crossfault.Prelude.Sorting.{count_ge, above, sort, sort-count, ranked, AllLe}
use crossfault.Platform.{Platform}
use crossfault.Consensus.Log.{
  last_index, log_len, term_at, entry_at-suc, entry_at, append, append_chained, chained,
}
use crossfault.Consensus.State.{Node, log_event, members_of, quorum}
use crossfault.Consensus.Node.Handlers.{matches_of, may_commit, advance_commit}
use crossfault.Consensus.Node.Commit.{holders, advance_commit-CommitRule}
use crossfault.Consensus.Log.{Log}
use crossfault.Messages.{Entry}

count_ge-length : (v : ℕ) (xs : List ℕ) → count_ge v xs ≤ length xs
unfolding count_ge
count_ge-length v [] = omega arith
count_ge-length v (x ∷ xs) = ground (arith, count_ge-length v xs)

pub count_ge-over : (v c : ℕ) (xs : List ℕ) → AllLe c xs → c < v → count_ge v xs ≡ 0
unfolding count_ge
count_ge-over v c [] a h = refl
count_ge-over v c (x ∷ xs) a h = ground (arith, count_ge-over v c xs)

-- Of items that are at most `c`, the one that more than `i` items reach is `c`, if more than `i` items are.
ranked_top :
    (c i : ℕ) (xs : List ℕ) → AllLe c xs → i < count_ge c xs → get_elem? (sort above xs) i ≡ some c
ranked_top c i xs all many = elim (Option-cases (get_elem? (sort above xs) i)) [
  | inl absent ↦ absurd (
      omega (
        arith,
        get_elem?-none (sort above xs) i absent,
        count_ge-length c (sort above xs),
        sort-count c xs,
      ))
  | inr (d, found) ↦
      let (reached, over) = ranked xs i {c = d} found in
      let at_least : c ≤ d = elim (dec_le c d) [
        | yes h ↦ h
        | no h ↦ absurd (omega (arith, over c (omega arith)))
      ] in
      let at_most : d ≤ c = elim (dec_le d c) [
        | yes h ↦ h
        | no h ↦ absurd (omega (arith, count_ge-over d c xs all (omega arith)))
      ] in
      found ∙ ap some (omega arith)
]

term_at_found :
    (l : Log) (j : ℕ) (e : Entry) → entry_at l (suc j) ≡ some e → term_at l (suc j) ≡ some e.term
unfolding term_at
term_at_found l j e found = rw found (ground arith)

pub AllLe-suc : (c : ℕ) (xs : List ℕ) → AllLe c xs → AllLe (c + 1) xs
AllLe-suc c [] all = tt
AllLe-suc c (x ∷ xs) all = (omega (arith, all), AllLe-suc c xs all.1)

module _ (P : Platform) where
  pub advance_commit-reaches :
      (n : Node P) (c : ℕ)
      → last_index n.log ≡ c
      → AllLe c (matches_of P n (members_of P n))
      → term_at n.log c ≡ some n.current_term
      → quorum P n ≤ holders P n c
      → n.commit_index ≤ c
      → (advance_commit P n).commit_index ≡ c
  unfolding advance_commit may_commit log_event
  advance_commit-reaches n c top all current enough behind =
      let top_item =
        ranked_top c (quorum P n - 1) (last_index n.log ∷ matches_of P n (members_of P n))
          (omega arith, all) (unfold quorum in omega arith) in
      ground (arith, top_item)

  pub advance_commit-le :
      (n : Node P) (c : ℕ)
      → last_index n.log ≡ c
      → AllLe c (matches_of P n (members_of P n))
      → n.commit_index ≤ c
      → (advance_commit P n).commit_index ≤ c
  advance_commit-le n c top all behind =
      let c' = (advance_commit P n).commit_index in
      elim (dec_le c' c) [
        | yes h ↦ h
        | no h ↦
            let none_over =
              count_ge-over c' c (last_index n.log ∷ matches_of P n (members_of P n))
                (omega arith, all) (omega arith) in
            let positive : 0 < quorum P n = unfold quorum in omega arith in
            absurd (ground (arith, advance_commit-CommitRule P n, none_over, positive))
      ]

  pub append_top :
      (l : Log) (term : ℕ) (cmd : Bytes)
      → let l' = append P l term cmd in
        (last_index l' ≡ last_index l + 1) × (term_at l' (last_index l + 1) ≡ some term)
  unfolding append append_chained chained term_at
  append_top l term cmd =
      let l' = append P l term cmd in
      let e = chained P l term (u64 (log_len l + 1)) cmd in
      let here : entry_at l' (suc (log_len l)) ≡ some e =
        entry_at-suc l' (log_len l) ∙ get_elem?-append_length l.entries e [] in
      (
        length-append l.entries (e ∷ []),
        (let next : last_index l + 1 ≡ suc (log_len l) = omega arith in
            subst (λ i. term_at l' i ≡ some term) (sym next) (term_at_found l' (log_len l) e here)),
      )
