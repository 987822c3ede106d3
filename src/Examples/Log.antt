-- ===== src/Examples/Log.antt =====
-- internal/consensus/log.go at short logs.
use crossfault.Prelude.{zero, ◌≡◌, refl, ◌⊎◌, List, [], ◌∷◌, map, take, length, All, arith, suc}
use crossfault.Messages.{Entry}
use crossfault.Platform.{Collision}
use crossfault.Consensus.Log.{
  entry_at, append_chained, chained, Log, new_log, log_len, append, truncate_from,
  append_from_leader, slice,
}
use crossfault.Consensus.Log.Chain.{IsChained, append-IsChained}
use crossfault.Consensus.Log.Evidence.{Fits, last_hash-binding}
use crossfault.Consensus.Log.Splice.{content, contents, splice, append_from_leader-splice}
use crossfault.Consensus.Log.Matching.{LogMatching, append_from_leader-slice}
use crossfault.Examples.Toy.{toy}

-- A leader with two entries of term 1 and one of term 3.
abbrev pub leader_log : Log
leader_log = append toy (append toy (append toy new_log 1 (120 ∷ [])) 1 (121 ∷ [])) 3 (122 ∷ [])

-- A follower whose second entry is left over from term 2.
abbrev pub stale_log : Log
stale_log = append toy (append toy new_log 1 (120 ∷ [])) 2 (99 ∷ [])

abbrev first : Log
first = append toy new_log 1 (120 ∷ [])

length-first : log_len first ≡ 1
unfolding append append_chained
length-first = refl

pub length-stale_log : log_len stale_log ≡ 2
unfolding append append_chained
length-stale_log = refl

pub length-leader_log : log_len leader_log ≡ 3
unfolding append append_chained
length-leader_log = refl

first-IsChained : IsChained toy first
first-IsChained = append-IsChained toy new_log 1 (120 ∷ []) (omega arith) tt

pub stale_log-IsChained : IsChained toy stale_log
stale_log-IsChained =
    append-IsChained toy first 2 (99 ∷ []) (omega (arith, length-first)) first-IsChained

pub leader_log-IsChained : IsChained toy leader_log
unfolding append append_chained
leader_log-IsChained =
    append-IsChained toy (append toy first 1 (121 ∷ [])) 3 (122 ∷ []) (omega arith)
      (append-IsChained toy first 1 (121 ∷ []) (omega arith) first-IsChained)

-- The leader's entries behind the first one.
abbrev behind_first : List Entry
behind_first = slice leader_log 2

length-behind_first : length behind_first ≡ 2
unfolding slice append append_chained
length-behind_first = refl

append_from_leader-splice_example :
    contents (append_from_leader toy stale_log 1 behind_first).0
    ≡ splice (contents stale_log) 1 (map content behind_first)
append_from_leader-splice_example =
    append_from_leader-splice toy stale_log 1 behind_first (omega (arith, length-stale_log))
      (omega (arith, length-behind_first))

-- The conflicting entry goes, and the leader's take its place.
spliced_test :
    contents (append_from_leader toy stale_log 1 behind_first).0
    ≡ (1, 120 ∷ []) ∷ (1, 121 ∷ []) ∷ (3, 122 ∷ []) ∷ []
unfolding append_from_leader slice append append_chained entry_at truncate_from
spliced_test = refl

matching : LogMatching stale_log leader_log
unfolding append append_chained chained
matching zero x y hx hy same_term = ground arith
matching (suc zero) x y hx hy same_term = ground arith
matching (suc (suc i)) x y hx hy same_term = ground arith

pub one_start : take 1 (contents stale_log) ≡ take 1 (contents leader_log)
unfolding append append_chained
one_start = refl

append_from_leader-slice_example :
    take (log_len leader_log) (append_from_leader toy stale_log 1 (slice leader_log 2)).0.entries
    ≡ leader_log.entries
append_from_leader-slice_example =
    append_from_leader-slice toy stale_log leader_log 1 (omega (arith, length-stale_log))
      (omega (arith, length-leader_log)) (omega (arith, length-leader_log)) one_start matching
      stale_log-IsChained leader_log-IsChained

leader_log-Fits : All Fits leader_log.entries
unfolding append append_chained chained
leader_log-Fits = ground arith

last_hash-binding_example : (leader_log ≡ leader_log) ⊎ Collision toy
last_hash-binding_example =
    last_hash-binding toy leader_log leader_log leader_log-IsChained leader_log-IsChained
      leader_log-Fits leader_log-Fits (omega (arith, length-leader_log)) refl refl
