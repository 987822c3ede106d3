-- ===== src/Consensus/Log.antt =====
-- internal/consensus/log.go: the replicated log. Indices are 1-based; `none` is a Go result whose
-- `ok` is false. uint64 sums wrap, and `uint64(len(...))` is the length of the list.
pub mod Chain
pub mod Evidence
pub mod Splice
pub mod Matching
pub mod Order
use crossfault.Prelude.{
  suc, ◌≡◌, get_elem?_over, arith, ℕ, ◌+◌, ◌-◌, ◌==◌, Bool, true, false, ◌||◌, Option, none, some,
  List, [], ◌∷◌, ◌++◌, map, Bytes, length, get_elem?, take, drop, last?, u32, u64, put_uint32,
  put_uint64, ltb, leb, if◌then◌else◌,
}
use crossfault.Messages.{Entry}
use crossfault.Platform.{Platform}
use crossfault.Crypt.Transcript.{zero_hash}

pub record Log : Type 0 where
  pub entries : List Entry

abbrev pub new_log : Log
new_log = record { entries = [] }

abbrev pub log_len : Log → ℕ
log_len l = length l.entries

abbrev pub last_index : Log → ℕ
last_index l = log_len l

unfoldable pub last_term : Log → ℕ
last_term l = elim (last? l.entries) [ none ↦ 0 | some e ↦ e.term ]

unfoldable pub last_hash : Log → Bytes
last_hash l = elim (last? l.entries) [ none ↦ zero_hash | some e ↦ e.hash ]

unfoldable pub entry_at : Log → ℕ → Option Entry
entry_at l index =
    if index == 0 || ltb (log_len l) index then none else get_elem? l.entries (index - 1)

pub entry_at-suc : (l : Log) (j : ℕ) → entry_at l (suc j) ≡ get_elem? l.entries j
unfolding entry_at
entry_at-suc l j =
    let here : suc j - 1 ≡ j = omega arith in rw here (ground (arith, get_elem?_over l.entries j))

unfoldable pub term_at : Log → ℕ → Option ℕ
unfolding entry_at
term_at l index =
    if index == 0 then some 0 else elim (entry_at l index) [ none ↦ none | some e ↦ some e.term ]

unfoldable pub matches : Log → ℕ → ℕ → Bool
unfolding term_at
matches l prev_index prev_term = elim (term_at l prev_index) [
  | none ↦ false
  | some term ↦ term == prev_term
]

unfoldable pub truncate_from : Log → ℕ → Log
truncate_from l index =
    if index == 0 || ltb (log_len l) index
    then l
    else record l { entries = take (index - 1) l.entries }

unfoldable pub slice : Log → ℕ → List Entry
slice l from =
    let start = if from == 0 then 1 else from in
    if ltb (log_len l) start then [] else drop (start - 1) l.entries

unfoldable pub up_to_date : Log → ℕ → ℕ → Bool
unfolding last_term
up_to_date l candidate_term candidate_index =
    if candidate_term == last_term l
    then leb (last_index l) candidate_index
    else ltb (last_term l) candidate_term

unfoldable pub commands : Log → List Bytes
commands l = map (λ e. e.command) l.entries

-- "crossfault/v1/entry" and a zero byte
abbrev pub entry_domain : Bytes
entry_domain =
    b'c' ∷ b'r' ∷ b'o' ∷ b's' ∷ b's' ∷ b'f' ∷ b'a' ∷ b'u' ∷ b'l' ∷ b't' ∷ b'/' ∷ b'v' ∷ b'1' ∷ b'/'
    ∷ b'e' ∷ b'n' ∷ b't' ∷ b'r' ∷ b'y' ∷ 0 ∷ []

-- The bytes that `computeHash` writes into the hash.
unfoldable pub entry_preimage : ℕ → ℕ → Bytes → Bytes → Bytes
entry_preimage term index cmd prev =
    entry_domain
    ++ (put_uint64 term ++ (put_uint64 index ++ (put_uint32 (u32 (length cmd)) ++ (cmd ++ prev))))

module _ (P : Platform) where
  unfoldable pub compute_hash : ℕ → ℕ → Bytes → Bytes → Bytes
  compute_hash term index cmd prev = P.sha256 (entry_preimage term index cmd prev)

  -- The entry that both kinds of append put behind the log, at a given index.
  unfoldable pub chained : Log → ℕ → ℕ → Bytes → Entry
  chained l term idx cmd =
      let prev = last_hash l in
      record {
        term = term;
        index = idx;
        command = cmd;
        prev_hash = prev;
        hash = compute_hash term idx cmd prev;
      }

  unfoldable pub append_chained : Log → ℕ → ℕ → Bytes → Log
  unfolding chained
  append_chained l term idx cmd = record l { entries = l.entries ++ chained l term idx cmd ∷ [] }

  unfoldable pub append : Log → ℕ → Bytes → Log
  unfolding append_chained
  append l term cmd = append_chained l term (u64 (log_len l + 1)) cmd

  -- One round of the loop of AppendFromLeader: the log and whether a conflict was cut away.
  unfoldable pub append_round : Log → ℕ → Entry → Log × Bool
  append_round l idx incoming = elim (entry_at l idx) [
    | none ↦ (append_chained l incoming.term idx incoming.command, false)
    | some existing ↦
        if existing.term == incoming.term
        then (l, false)
        else (append_chained (truncate_from l idx) incoming.term idx incoming.command, true)
  ]

  unfoldable pub append_loop : Log → ℕ → ℕ → List Entry → Bool → Log × Bool
  unfolding append_round
  append_loop l prev_index i [] conflict = (l, conflict)
  append_loop l prev_index i (incoming ∷ rest) conflict =
      let (l', cut) = append_round l (u64 (prev_index + i + 1)) incoming in
      append_loop l' prev_index (i + 1) rest (conflict || cut)

  unfoldable pub append_from_leader : Log → ℕ → List Entry → Log × Bool
  unfolding append_loop
  append_from_leader l prev_index entries = append_loop l prev_index 0 entries false
