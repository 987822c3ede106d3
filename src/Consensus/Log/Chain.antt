-- ===== src/Consensus/Log/Chain.antt =====
-- The hash chain of internal/consensus/log.go: every entry's hash covers the whole log before it.
use crossfault.Prelude.{
  ℕ, zero, suc, ◌+◌, ◌-◌, ◌<◌, ◌≤◌, ◌^◌, ◌≡◌, refl, sym, ap, ◌∙◌, subst, inl, inr, Bool, false,
  ◌||◌, Option, none, some, List, [], ◌∷◌, ◌++◌, Bytes, length, take, last?, u64, arith,
  length-append, length-take, get_elem?-none, get_elem?-some, Option-cases, Bool-cases, ◌==◌,
}
use crossfault.Messages.{Entry}
use crossfault.Platform.{Platform}
use crossfault.Crypt.Transcript.{zero_hash}
use crossfault.Consensus.Log.{
  Log, log_len, last_hash, entry_at, entry_at-suc, truncate_from, compute_hash, chained,
  append_chained, append, append_round, append_loop, append_from_leader,
}

module _ (P : Platform) where
  -- Entries that follow on a hash and an index.
  abbrev pub ChainFrom : Bytes → ℕ → List Entry → Type 0
  ChainFrom h i [] = Unit {0}
  ChainFrom h i (e ∷ es) =
      (e.index ≡ i)
      × (e.prev_hash ≡ h)
      × (e.hash ≡ compute_hash P e.term i e.command h)
      × ChainFrom e.hash (suc i) es

  abbrev pub IsChained : Log → Type 0
  IsChained l = ChainFrom zero_hash 1 l.entries

  abbrev pub head_hash : Bytes → List Entry → Bytes
  head_hash h [] = h
  head_hash h (e ∷ es) = head_hash e.hash es

  abbrev hash_or : Bytes → Option Entry → Bytes
  hash_or h none = h
  hash_or h (some e) = e.hash

  hash_or-last? :
      (h h' : Bytes) (e : Entry) (es : List Entry)
      → hash_or h (last? (e ∷ es)) ≡ hash_or h' (last? (e ∷ es))
  hash_or-last? h h' e [] = refl
  hash_or-last? h h' e (e' ∷ es) = hash_or-last? h h' e' es

  head_hash_lem : (h : Bytes) (es : List Entry) → head_hash h es ≡ hash_or h (last? es)
  head_hash_lem h [] = refl
  head_hash_lem h (e ∷ []) = refl
  head_hash_lem h (e ∷ e' ∷ es) = head_hash_lem e.hash (e' ∷ es) ∙ hash_or-last? e.hash h e' es

  pub last_hash-head_hash : (l : Log) → last_hash l ≡ head_hash zero_hash l.entries
  unfolding last_hash
  last_hash-head_hash l = ground (arith, head_hash_lem zero_hash l.entries)

  ChainFrom-snoc :
      (h : Bytes) (i : ℕ) (es : List Entry) (e : Entry)
      → ChainFrom h i es
      → e.index ≡ i + length es
      → e.prev_hash ≡ head_hash h es
      → e.hash ≡ compute_hash P e.term (i + length es) e.command (head_hash h es)
      → ChainFrom h i (es ++ e ∷ [])
  ChainFrom-snoc h i [] e c p q r = ground arith
  ChainFrom-snoc h i (x ∷ xs) e c p q r = (
    c.0,
    c.1,
    c.2,
    ChainFrom-snoc x.hash (suc i) xs e c.3 (omega arith) q
        (subst (λ n. e.hash ≡ compute_hash P e.term n e.command (head_hash x.hash xs)) shifted r),
  )
    where
      shifted : i + length (x ∷ xs) ≡ suc i + length xs
      shifted = omega arith

  pub ChainFrom-take :
      (h : Bytes) (i n : ℕ) (es : List Entry) → ChainFrom h i es → ChainFrom h i (take n es)
  ChainFrom-take h i zero es c = tt
  ChainFrom-take h i (suc n) [] c = tt
  ChainFrom-take h i (suc n) (e ∷ es) c = (c.0, c.1, c.2, ChainFrom-take e.hash (suc i) n es c.3)

  append_chained-IsChained :
      (l : Log) (term idx : ℕ) (cmd : Bytes)
      → idx ≡ log_len l + 1
      → IsChained l
      → IsChained (append_chained P l term idx cmd)
  unfolding append_chained
  append_chained-IsChained l term idx cmd at_end c =
      let position : idx ≡ 1 + log_len l = omega arith in
      let prev = last_hash-head_hash l in
      ChainFrom-snoc zero_hash 1 l.entries (chained P l term idx cmd) c position prev (
        ap (λ h. compute_hash P term idx cmd h) prev
        ∙ ap (λ n. compute_hash P term n cmd (head_hash zero_hash l.entries)) position)

  pub truncate_from-IsChained : (l : Log) (i : ℕ) → IsChained l → IsChained (truncate_from l i)
  unfolding truncate_from
  truncate_from-IsChained l i c = ground (arith, ChainFrom-take zero_hash 1 (i - 1) l.entries c)

  pub length-append_chained :
      (l : Log) (term idx : ℕ) (cmd : Bytes)
      → log_len (append_chained P l term idx cmd) ≡ log_len l + 1
  unfolding append_chained
  length-append_chained l term idx cmd = length-append l.entries (chained P l term idx cmd ∷ [])

  -- A new command keeps the chain, while the index does not wrap.
  pub append-IsChained :
      (l : Log) (term : ℕ) (cmd : Bytes)
      → log_len l + 1 < 2 ^ 64
      → IsChained l
      → IsChained (append P l term cmd)
  unfolding append
  append-IsChained l term cmd room c =
      append_chained-IsChained l term (u64 (log_len l + 1)) cmd (omega arith) c

  pub length-truncate_from :
      (l : Log) (j : ℕ) → j < log_len l → log_len (truncate_from l (suc j)) ≡ j
  unfolding truncate_from
  length-truncate_from l j h = ground (arith, length-take j l.entries)

  -- A round at the index behind `j` entries that are there leaves the log chained and at least one
  -- entry longer than `j`.
  append_round-IsChained :
      (l : Log) (j : ℕ) (e : Entry)
      → j ≤ log_len l
      → IsChained l
      → IsChained (append_round P l (suc j) e).0 × (suc j ≤ log_len (append_round P l (suc j) e).0)
  unfolding append_round
  append_round-IsChained l j e h c = elim (Option-cases (entry_at l (suc j))) [
    | inl absent ↦
        let at_end = get_elem?-none l.entries j (sym (entry_at-suc l j) ∙ absent) in
        rw (absent, append_round)
          (
            append_chained-IsChained l e.term (suc j) e.command (omega arith) c,
            omega (arith, length-append_chained l e.term (suc j) e.command),
          )
    | inr (old, present) ↦
        let inside = get_elem?-some l.entries j {x = old} (sym (entry_at-suc l j) ∙ present) in
        let cut = truncate_from l (suc j) in
        let shorter = length-truncate_from l j inside in
        elim (Bool-cases (old.term == e.term)) [
          | inl agrees ↦ rw (present, agrees, append_round) (c, inside)
          | inr conflicts ↦
              rw (present, conflicts, append_round)
                (
                  append_chained-IsChained cut e.term (suc j) e.command (omega arith)
                      (truncate_from-IsChained l (suc j) c),
                  omega (arith, length-append_chained cut e.term (suc j) e.command),
                )
        ]
  ]

  append_loop-IsChained :
      (l : Log) (prev_index i : ℕ) (es : List Entry) (conflict : Bool)
      → prev_index + i ≤ log_len l
      → prev_index + i + length es < 2 ^ 64
      → IsChained l
      → IsChained (append_loop P l prev_index i es conflict).0
        × (prev_index + i + length es ≤ log_len (append_loop P l prev_index i es conflict).0)
  unfolding append_loop
  append_loop-IsChained l prev_index i [] conflict h room c = (c, omega arith)
  append_loop-IsChained l prev_index i (e ∷ es) conflict h room c =
      let idx : u64 (prev_index + i + 1) ≡ suc (prev_index + i) = omega arith in
      let round = append_round-IsChained l (prev_index + i) e h c in
      let (l', cut) = append_round P l (suc (prev_index + i)) e in
      let rest =
        append_loop-IsChained l' prev_index (i + 1) es (conflict || cut) (omega (arith, round.1))
          (omega arith) round.0 in
      rw (idx, append_loop) (rest.0, omega (arith, rest.1))

  -- Replicated entries keep the chain, and the log then reaches to the last of them, when the index
  -- in front of them is in the log and no index wraps.
  pub append_from_leader-IsChained :
      (l : Log) (prev_index : ℕ) (es : List Entry)
      → prev_index ≤ log_len l
      → prev_index + length es < 2 ^ 64
      → IsChained l
      → IsChained (append_from_leader P l prev_index es).0
        × (prev_index + length es ≤ log_len (append_from_leader P l prev_index es).0)
  unfolding append_from_leader
  append_from_leader-IsChained l prev_index es h room c =
      let done = append_loop-IsChained l prev_index 0 es false (omega arith) (omega arith) c in
      (done.0, omega arith)
