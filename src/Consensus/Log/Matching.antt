-- ===== src/Consensus/Log/Matching.antt =====
-- What replication by internal/consensus/log.go achieves: a follower that agrees with its leader up to
-- an index agrees with it to the leader's end once it has spliced in the leader's slice.
use crossfault.Prelude.{
  ℕ, zero, suc, ◌+◌, ◌<◌, ◌≤◌, ◌^◌, ◌≡◌, refl, sym, ap, ◌∙◌, some, List, [], ◌∷◌, ◌++◌, map, Bytes,
  length, length-map, take, drop, get_elem?, get_elem?-none, get_elem?-some, length-append,
  length-map, length-take, length-drop, take_all, drop_all, drop-cons, take-append-drop, subst,
  append_assoc, append-nil, ◌==◌, ==_iff, Option-cases, Bool-cases, inl, inr, arith,
}
use crossfault.Messages.{Entry}
use crossfault.Platform.{Platform}
use crossfault.Crypt.Transcript.{zero_hash}
use crossfault.Consensus.Log.{Log, log_len, slice, append_from_leader}
use crossfault.Consensus.Log.Chain.{
  ChainFrom, ChainFrom-take, IsChained, append_from_leader-IsChained,
}
use crossfault.Consensus.Log.Splice.{
  content, contents, take-contents, splice, append_from_leader-splice,
}

-- Where two logs have an entry of the same term at the same index, it is the same entry.
abbrev pub LogMatching : Log → Log → Type 0
LogMatching a b =
    (i : ℕ) (x y : Entry)
    → get_elem? a.entries i ≡ some x
    → get_elem? b.entries i ≡ some y
    → x.term ≡ y.term
    → content x ≡ content y

abbrev Agree : List (ℕ × Bytes) → ℕ → List (ℕ × Bytes) → Type 0
Agree l k [] = Unit {0}
Agree l k (c ∷ cs) =
    ((old : ℕ × Bytes) → get_elem? l k ≡ some old → old.0 ≡ c.0 → old ≡ c) × Agree l (suc k) cs

take-suc {ℓ} :
    {A : Type ℓ} (xs : List A) (k : ℕ) {x : A}
    → get_elem? xs k ≡ some x
    → take (suc k) xs ≡ take k xs ++ x ∷ []
take-suc [] k h = absurd (cc)
take-suc (y ∷ xs) zero h = cc
take-suc (y ∷ xs) (suc k) h = ap (λ t. y ∷ t) (take-suc xs k h)

take-append_exact {ℓ} :
    {A : Type ℓ} (xs ys : List A) (n : ℕ) → n ≡ length xs + length ys → take n (xs ++ ys) ≡ xs ++ ys
take-append_exact xs ys n h = take_all n (xs ++ ys) (omega (arith, length-append xs ys))

splice-Agree :
    (l pre : List (ℕ × Bytes)) (k : ℕ) (cs : List (ℕ × Bytes))
    → take k l ≡ pre
    → length pre ≡ k
    → k ≤ length l
    → Agree l k cs
    → take (k + length cs) (splice l k cs) ≡ pre ++ cs
unfolding splice
splice-Agree l pre k [] front size inside agree =
    ap (λ n. take n l) (omega arith) ∙ front ∙ sym (append-nil pre)
splice-Agree l pre k (c ∷ cs) front size inside agree = elim (Option-cases (get_elem? l k)) [
  | inl absent ↦
      let at_end = get_elem?-none l k absent in
      let whole : l ≡ pre = sym (take_all k l at_end) ∙ front in
      rw (absent, splice)
        (take-append_exact l (c ∷ cs) _ (omega arith) ∙ ap (λ t. t ++ c ∷ cs) whole)
  | inr (old, present) ↦
      let further = get_elem?-some l k {x = old} present in
      elim (Bool-cases (old.0 == c.0)) [
        | inl agrees ↦
            let one : old ≡ c = agree.0 old present ((==_iff old.0 c.0).0 agrees) in
            let front' : take (suc k) l ≡ pre ++ c ∷ [] =
              take-suc l k present ∙ ap (λ t. t ++ old ∷ []) front ∙ ap (λ o. pre ++ o ∷ []) one in
            let size' : length (pre ++ c ∷ []) ≡ suc k = length-append pre (c ∷ []) ∙ omega arith in
            let rest = splice-Agree l (pre ++ c ∷ []) (suc k) cs front' size' further agree.1 in
            rw (present, agrees, splice)
              (ap (λ n. take n (splice l (suc k) cs)) (omega arith)
                ∙ rest
                ∙ append_assoc pre (c ∷ []) cs)
        | inr conflicts ↦
            let kept = length-take k l inside in
            rw (present, conflicts, splice)
              (take-append_exact (take k l) (c ∷ cs) _ (omega arith) ∙ ap (λ t. t ++ c ∷ cs) front)
      ]
]

content-inj :
    (P : Platform) (h : Bytes) (i : ℕ) (es es' : List Entry)
    → ChainFrom P h i es
    → ChainFrom P h i es'
    → map content es ≡ map content es'
    → es ≡ es'
content-inj P h i [] [] c c' q = refl
content-inj P h i [] (e' ∷ es') c c' q = absurd (cc)
content-inj P h i (e ∷ es) [] c c' q = absurd (cc)
content-inj P h i (e ∷ es) (e' ∷ es') c c' q =
    let heads : content e ≡ content e' = cc in
    let tails : map content es ≡ map content es' = cc in
    let term : e.term ≡ e'.term = ap (λ p. p.0) heads in
    let command : e.command ≡ e'.command = ap (λ p. p.1) heads in
    let hash : e.hash ≡ e'.hash = ground (arith, c.2, c'.2, term, command) in
    let c'' = subst (λ t. ChainFrom P t (suc i) es') (sym hash) c'.3 in
    let rest = content-inj P e.hash (suc i) es es' c.3 c'' tails in
    ground (arith, term, command, hash, c.0, c.1, c'.0, c'.1, rest)

slice-drop : (l : Log) (k : ℕ) → k ≤ log_len l → slice l (suc k) ≡ drop k l.entries
unfolding slice
slice-drop l k h = ground (arith, drop_all k l.entries)

drop-contents : (k : ℕ) (es : List Entry) → map content (drop k es) ≡ drop k (map content es)
drop-contents zero es = refl
drop-contents (suc k) [] = refl
drop-contents (suc k) (e ∷ es) = drop-contents k es

pub entry_of_content :
    (es : List Entry) (k : ℕ) {p : ℕ × Bytes}
    → get_elem? (map content es) k ≡ some p
    → (x : Entry) × (get_elem? es k ≡ some x) × (content x ≡ p)
entry_of_content [] k h = absurd (cc)
entry_of_content (e ∷ es) zero h = (e, refl, cc)
entry_of_content (e ∷ es) (suc k) h = entry_of_content es k h

-- Matching at every index from `k` on, in the form in which `splice` goes through it.
LogMatching-Agree :
    (follower leader : Log) (k : ℕ) (cs : List (ℕ × Bytes))
    → LogMatching follower leader
    → cs ≡ drop k (contents leader)
    → Agree (contents follower) k cs
LogMatching-Agree follower leader k [] m q = tt
LogMatching-Agree follower leader k (c ∷ cs) m q =
    let (here, behind) = drop-cons k (contents leader) q in
    (
      λ old there one_term.
          let (x, at_x, is_old) = entry_of_content follower.entries k there in
          let (y, at_y, is_c) = entry_of_content leader.entries k here in
          let terms : x.term ≡ y.term =
            ap (λ p. p.0) is_old ∙ one_term ∙ sym (ap (λ p. p.0) is_c) in
          sym is_old ∙ m k x y at_x at_y terms ∙ is_c,
      LogMatching-Agree follower leader (suc k) cs m behind,
    )

same_contents :
    (follower leader : Log) (k : ℕ) (cs : List (ℕ × Bytes))
    → k ≤ log_len follower
    → k ≤ log_len leader
    → take k (contents follower) ≡ take k (contents leader)
    → cs ≡ drop k (contents leader)
    → Agree (contents follower) k cs
    → take (log_len leader) (splice (contents follower) k cs) ≡ contents leader
same_contents follower leader k cs in_f in_l agree behind matching =
    let all_f = length-map follower.entries content in
    let all_l = length-map leader.entries content in
    let size : log_len leader ≡ k + length cs =
      omega (arith, all_l, length-drop k (contents leader), ap length behind) in
    ap (λ n. take n (splice (contents follower) k cs)) size
    ∙ splice-Agree (contents follower) (take k (contents leader)) k cs agree
        (length-take k (contents leader) (omega (arith, all_l))) (omega (arith, all_f)) matching
    ∙ ap (λ t. take k (contents leader) ++ t) behind
    ∙ take-append-drop k (contents leader)

module _ (P : Platform) where
  -- A follower whose first `k` entries are the leader's, and that splices in the leader's slice from
  -- the next index on, holds the whole of the leader's log as its prefix, hashes included. Both logs
  -- are chained and match, and no index wraps.
  pub append_from_leader-slice :
      (follower leader : Log) (k : ℕ)
      → k ≤ log_len follower
      → k ≤ log_len leader
      → log_len leader < 2 ^ 64
      → take k (contents follower) ≡ take k (contents leader)
      → LogMatching follower leader
      → IsChained P follower
      → IsChained P leader
      → take (log_len leader) (append_from_leader P follower k (slice leader (suc k))).0.entries
        ≡ leader.entries
  append_from_leader-slice follower leader k in_f in_l room agree m cf cl =
      let es = slice leader (suc k) in
      let new = append_from_leader P follower k es in
      let sliced = slice-drop leader k in_l in
      let size : k + length es ≡ log_len leader =
        ap (λ t. k + length t) sliced ∙ omega (arith, length-drop k leader.entries) in
      let behind : map content es ≡ drop k (contents leader) =
        ap (map content) sliced ∙ drop-contents k leader.entries in
      let spliced = append_from_leader-splice P follower k es in_f (omega arith) in
      let chained = append_from_leader-IsChained P follower k es in_f (omega arith) cf in
      let matching = LogMatching-Agree follower leader k (map content es) m behind in
      let same_content : map content (take (log_len leader) new.0.entries) ≡ contents leader =
        take-contents (log_len leader) new.0.entries
        ∙ ap (take (log_len leader)) spliced
        ∙ same_contents follower leader k (map content es) in_f in_l agree behind matching in
      content-inj P zero_hash 1 _ _
        (ChainFrom-take P zero_hash 1 (log_len leader) new.0.entries chained.0) cl same_content
