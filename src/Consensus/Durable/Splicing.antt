-- ===== src/Consensus/Durable/Splicing.antt =====
-- AppendFromLeader of internal/consensus/log.go and the part of the log that is committed.
use crossfault.Prelude.{
  ℕ, zero, suc, ◌+◌, ◌<◌, ◌≤◌, ◌≡◌, refl, sym, ap, ◌∙◌, some, List, [], ◌∷◌, map, Bytes, length,
  length-map, length-take, take, take-append_le, take-take_le, get_elem?, get_elem?-some, ◌==◌,
  Option-cases, Bool-cases, inl, inr, arith,
}
use crossfault.Platform.{Platform}
use crossfault.Messages.{AppendReq}
use crossfault.Consensus.Log.{log_len, append_from_leader}
use crossfault.Consensus.Log.Splice.{content, contents, splice, append_from_leader-splice}
use crossfault.Consensus.Log.Matching.{entry_of_content}
use crossfault.Consensus.State.{Node}
use crossfault.Consensus.Durable.{Respects, CommitInLog}

-- The reference keeps what stands in front of an index up to which the terms agree.
take-splice :
    (l : List (ℕ × Bytes)) (k : ℕ) (cs : List (ℕ × Bytes)) (c : ℕ)
    → c ≤ length l
    → ((j : ℕ) (old new : ℕ × Bytes)
        → k + j < c
        → get_elem? l (k + j) ≡ some old
        → get_elem? cs j ≡ some new
        → old.0 ≡ new.0)
    → take c (splice l k cs) ≡ take c l
unfolding splice
take-splice l k [] c inside agree = refl
take-splice l k (x ∷ cs) c inside agree = elim (Option-cases (get_elem? l k)) [
  | inl absent ↦ rw (absent, splice) (take-append_le c l (x ∷ cs) inside)
  | inr (old, present) ↦ elim (Bool-cases (old.0 == x.0)) [
    | inl same_term ↦
        rw (present, same_term, splice)
          (take-splice l (suc k) cs c inside (λ j o n below at_l at_cs.
            agree (suc j) o n (omega arith) (ap (get_elem? l) (omega arith) ∙ at_l) at_cs))
    | inr conflict ↦
        let behind : c ≤ k = ground (arith, agree 0 old x, present) in
        let kept = length-take k l (omega (arith, get_elem?-some l k {x = old} present)) in
        rw (present, conflict, splice)
          (take-append_le c (take k l) (x ∷ cs) (omega arith) ∙ take-take_le c k l behind)
  ]
]

length-take_le {ℓ} : {A : Type ℓ} (k : ℕ) (xs : List A) → length (take k xs) ≤ length xs
length-take_le zero xs = omega arith
length-take_le (suc k) [] = omega arith
length-take_le (suc k) (x ∷ xs) = omega (arith, length-take_le k xs)

module _ (P : Platform) where
  -- What is committed survives a request that respects it.
  pub committed-append_from_leader :
      (n : Node P) (m : AppendReq)
      → CommitInLog P n
      → Respects P n m
      → m.prev_index ≤ log_len n.log
      → let l' = (append_from_leader P n.log m.prev_index m.entries).0 in
        (n.commit_index ≤ log_len l')
        × (take n.commit_index (contents l') ≡ take n.commit_index (contents n.log))
  committed-append_from_leader n m inside (room, agree) before =
      let l' = (append_from_leader P n.log m.prev_index m.entries).0 in
      let size = length-map n.log.entries content in
      let kept : take n.commit_index (contents l') ≡ take n.commit_index (contents n.log) =
        ap (take n.commit_index)
          (append_from_leader-splice P n.log m.prev_index m.entries before room)
        ∙ take-splice (contents n.log) m.prev_index (map content m.entries) n.commit_index
            (omega arith)
            (λ j old new below at_l at_m.
              let (x, here, is_old) = entry_of_content n.log.entries (m.prev_index + j) at_l in
              let (y, there, is_new) = entry_of_content m.entries j at_m in
              sym (ap (λ p. p.0) is_old) ∙ agree j x y below here there ∙ ap (λ p. p.0) is_new) in
      let whole = length-take n.commit_index (contents n.log) (omega arith) in
      (
        omega (
          arith,
          length-take_le n.commit_index (contents l'),
          ap length kept,
          whole,
          length-map l'.entries content,
        ),
        kept,
      )
