-- ===== src/Consensus/Log/Splice.antt =====
-- AppendFromLeader of internal/consensus/log.go against a reference that says in one go what the loop
-- does round by round: it keeps what agrees, and from the first conflict on it takes the leader's.
use crossfault.Prelude.{
  ℕ, zero, suc, ◌+◌, ◌<◌, ◌≤◌, ◌^◌, ◌≡◌, refl, sym, ap, ◌∙◌, Bool, true, false, ◌||◌, none, some,
  List, [], ◌∷◌, ◌++◌, map, Bytes, length, take, get_elem?, get_elem?-none, get_elem?-some,
  get_elem?_over, append_assoc, append-nil, u64, ◌==◌, if◌then◌else◌, Option-cases, Bool-cases, inl,
  inr, arith,
}
use mathlib.Core.List.{map-append}
use crossfault.Messages.{Entry}
use crossfault.Platform.{Platform}
use crossfault.Consensus.Log.Chain.{length-append_chained, length-truncate_from}
use crossfault.Consensus.Log.{
  Log, log_len, entry_at-suc, truncate_from, chained, append, append_chained, append_round,
  append_loop, append_from_leader,
}

-- What replication has to agree on: the term and the command of an entry.
abbrev pub content : Entry → ℕ × Bytes
content e = (e.term, e.command)

abbrev pub contents : Log → List (ℕ × Bytes)
contents l = map content l.entries

-- `k` entries are known to agree; `cs` are the leader's entries behind them.
unfoldable pub splice : List (ℕ × Bytes) → ℕ → List (ℕ × Bytes) → List (ℕ × Bytes)
splice l k [] = l
splice l k (c ∷ cs) = elim (get_elem? l k) [
  | none ↦ l ++ c ∷ cs
  | some old ↦ if old.0 == c.0 then splice l (suc k) cs else take k l ++ c ∷ cs
]

pub get_elem?-contents :
    (es : List Entry) (k : ℕ)
    → get_elem? (map content es) k
      ≡ (elim (get_elem? es k) [ none ↦ none | some e ↦ some (content e) ])
get_elem?-contents [] k = refl
get_elem?-contents (e ∷ es) zero = refl
get_elem?-contents (e ∷ es) (suc k) = get_elem?-contents es k

pub take-contents : (k : ℕ) (es : List Entry) → map content (take k es) ≡ take k (map content es)
take-contents zero es = refl
take-contents (suc k) [] = refl
take-contents (suc k) (e ∷ es) = ap (λ t. content e ∷ t) (take-contents k es)

module _ (P : Platform) where
  contents-append_chained :
      (l : Log) (term idx : ℕ) (cmd : Bytes)
      → contents (append_chained P l term idx cmd) ≡ contents l ++ (term, cmd) ∷ []
  unfolding append_chained
  contents-append_chained l term idx cmd =
      map-append content l.entries (chained P l term idx cmd ∷ [])

  pub contents-append :
      (l : Log) (term : ℕ) (cmd : Bytes)
      → contents (append P l term cmd) ≡ contents l ++ (term, cmd) ∷ []
  unfolding append
  contents-append l term cmd = contents-append_chained l term (u64 (log_len l + 1)) cmd

  append_loop-cons :
      (l : Log) (prev_index i : ℕ) (e : Entry) (es : List Entry) (conflict : Bool)
      → prev_index + i + 1 < 2 ^ 64
      → append_loop P l prev_index i (e ∷ es) conflict
        ≡ append_loop P
            (append_round P l (suc (prev_index + i)) e).0
            prev_index
            (i + 1)
            es
            (conflict || (append_round P l (suc (prev_index + i)) e).1)
  unfolding append_loop
  append_loop-cons l prev_index i e es conflict room =
      let idx : u64 (prev_index + i + 1) ≡ suc (prev_index + i) = omega arith in
      rw (idx, append_loop)

  append_round_absent :
      (l : Log) (j : ℕ) (e : Entry)
      → get_elem? l.entries j ≡ none
      → append_round P l (suc j) e ≡ (append_chained P l e.term (suc j) e.command, false)
  unfolding append_round
  append_round_absent l j e h = rw (entry_at-suc l j, h, append_round)

  append_round_present :
      (l : Log) (j : ℕ) (e old : Entry)
      → get_elem? l.entries j ≡ some old
      → append_round P l (suc j) e ≡ (
          if old.term == e.term
          then (l, false)
          else (append_chained P (truncate_from l (suc j)) e.term (suc j) e.command, true))
  unfolding append_round
  append_round_present l j e old h = rw (entry_at-suc l j, h, append_round)

  -- Behind the last entry every round appends.
  append_loop_at_end :
      (l : Log) (prev_index i : ℕ) (es : List Entry) (conflict : Bool)
      → log_len l ≡ prev_index + i
      → prev_index + i + length es < 2 ^ 64
      → contents (append_loop P l prev_index i es conflict).0 ≡ contents l ++ map content es
  append_loop_at_end l prev_index i [] conflict h room =
      unfold append_loop in sym (append-nil (contents l))
  append_loop_at_end l prev_index i (e ∷ es) conflict h room =
      let j = prev_index + i in
      let absent = get_elem?_over l.entries j (omega arith) in
      let l' = append_chained P l e.term (suc j) e.command in
      let now = contents-append_chained l e.term (suc j) e.command in
      let longer = length-append_chained P l e.term (suc j) e.command in
      let rest =
        append_loop_at_end l' prev_index (i + 1) es (conflict || false) (omega arith)
          (omega arith) in
      rw
        (
          append_loop-cons l prev_index i e es conflict (omega arith),
          append_round_absent l j e absent,
        )
        (rest
          ∙ ap (λ t. t ++ map content es) now
          ∙ append_assoc (contents l) (content e ∷ []) (map content es))

  truncate_from-suc :
      (l : Log) (j : ℕ) → j < log_len l → contents (truncate_from l (suc j)) ≡ take j (contents l)
  unfolding truncate_from
  truncate_from-suc l j h = ground (arith, take-contents j l.entries)

  -- After a conflict is cut away, the rest is the leader's.
  append_loop-cut :
      (l : Log) (prev_index i : ℕ) (e : Entry) (es : List Entry) (conflict : Bool)
      → prev_index + i < log_len l
      → prev_index + i + 1 + length es < 2 ^ 64
      → let cut = truncate_from l (suc (prev_index + i)) in
        let l' = append_chained P cut e.term (suc (prev_index + i)) e.command in
        contents (append_loop P l' prev_index (i + 1) es conflict).0
        ≡ take (prev_index + i) (contents l) ++ content e ∷ map content es
  append_loop-cut l prev_index i e es conflict inside room =
      let j = prev_index + i in
      let cut = truncate_from l (suc j) in
      let l' = append_chained P cut e.term (suc j) e.command in
      let shorter = length-truncate_from P l j inside in
      let longer = length-append_chained P cut e.term (suc j) e.command in
      let now = contents-append_chained cut e.term (suc j) e.command in
      append_loop_at_end l' prev_index (i + 1) es conflict (omega arith) (omega arith)
      ∙ ap (λ t. t ++ map content es)
          (now ∙ ap (λ t. t ++ content e ∷ []) (truncate_from-suc l j inside))
      ∙ append_assoc (take j (contents l)) (content e ∷ []) (map content es)

  append_loop-splice :
      (l : Log) (prev_index i : ℕ) (es : List Entry) (conflict : Bool)
      → prev_index + i ≤ log_len l
      → prev_index + i + length es < 2 ^ 64
      → contents (append_loop P l prev_index i es conflict).0
        ≡ splice (contents l) (prev_index + i) (map content es)
  unfolding splice
  append_loop-splice l prev_index i [] conflict h room = unfold append_loop in refl
  append_loop-splice l prev_index i (e ∷ es) conflict h room =
      let j = prev_index + i in
      let there = get_elem?-contents l.entries j in
      let one = append_loop-cons l prev_index i e es conflict (omega arith) in
      elim (Option-cases (get_elem? l.entries j)) [
        | inl absent ↦
            let at_end = get_elem?-none l.entries j absent in
            let none_there : get_elem? (contents l) j ≡ none = rw (there, absent) in
            append_loop_at_end l prev_index i (e ∷ es) conflict (omega arith) room
            ∙ rw (none_there, splice)
        | inr (old, present) ↦
            let inside = get_elem?-some l.entries j {x = old} present in
            let some_there : get_elem? (contents l) j ≡ some (content old) = rw (there, present) in
            let round = append_round_present l j e old present in
            elim (Bool-cases (old.term == e.term)) [
              | inl agrees ↦
                  let next : prev_index + (i + 1) ≡ suc j = omega arith in
                  rw (one, round, agrees, some_there, splice)
                    (rw agrees (
                      append_loop-splice l prev_index (i + 1) es (conflict || false) (omega arith)
                        (omega arith)
                      ∙ ap (λ n. splice (contents l) n (map content es)) next))
              | inr conflicts ↦
                  rw (one, round, conflicts, some_there, splice)
                    (rw conflicts
                      (append_loop-cut l prev_index i e es (conflict || true) inside (omega arith)))
            ]
      ]

  -- The loop of AppendFromLeader computes the reference, when the index in front of the entries is in
  -- the log and no index wraps.
  pub append_from_leader-splice :
      (l : Log) (prev_index : ℕ) (es : List Entry)
      → prev_index ≤ log_len l
      → prev_index + length es < 2 ^ 64
      → contents (append_from_leader P l prev_index es).0
        ≡ splice (contents l) prev_index (map content es)
  unfolding append_from_leader
  append_from_leader-splice l prev_index es h room =
      append_loop-splice l prev_index 0 es false (omega arith) (omega arith)
      ∙ ap (λ n. splice (contents l) n (map content es)) (omega arith)
