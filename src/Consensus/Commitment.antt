-- ===== src/Consensus/Commitment.antt =====
-- A proposal under internal/consensus on its way to being committed: Propose, the followers' answers
-- that they hold it, and advanceCommit behind each of them.
pub mod Top
pub mod Answers
pub mod Proposal
use crossfault.Prelude.{
  ℕ, suc, ◌+◌, ◌-◌, ◌/◌, ◌<◌, ◌≤◌, ◌≡◌, ◌≢◌, ◌⊎◌, refl, ap, sym, subst, ◌∙◌, true, some, List, [],
  ◌∷◌, Bytes, NodeId, NodeId-Key, Map, lookup-insert, insert, get_or, contains, length, get_elem?,
  get_elem?-none, get_elem?-append_length, length-append, Option-cases, inl, inr, arith,
  if◌then◌else◌, u64, dec_le,
}
use crossfault.Prelude.Sorting.{count_ge, above, sort, sort-count, ranked, AllLe}
use crossfault.Platform.{Platform}
use crossfault.Consensus.Log.{
  last_index, log_len, term_at, entry_at-suc, entry_at, append, append_chained, chained,
}
use crossfault.Consensus.State.{Node, leader, log_event, proposed, members_of, quorum}
use crossfault.Consensus.Node.{broadcast_append}
use crossfault.Consensus.Node.Handlers.{matches_of, may_commit, advance_commit, handle_append_resp}
use crossfault.Consensus.Node.Deliver.{propose}
use crossfault.Consensus.Node.Commit.{holders, advance_commit-CommitRule}
use crossfault.Consensus.Node.Quiet.{broadcast_append-Kept}
use crossfault.Consensus.Log.{Log}
use crossfault.Messages.{Entry}

-- Members other than `self` that are believed behind an index, each listed once.
abbrev pub Behind : ℕ → NodeId → List NodeId → Map NodeId ℕ → List NodeId → Type 0
Behind c self members matched [] = Unit {0}
Behind c self members matched (id ∷ ids) =
    (id ≢ self)
    × (contains members id ≡ true)
    × (get_or id 0 matched < c)
    × Behind c self members (insert id c matched) ids

module _ (P : Platform) where
  -- A follower's answer that it holds the leader's log up to an index, as the leader takes it in.
  unfoldable pub acknowledged : ℕ → Node P → NodeId → Node P
  acknowledged c n id =
      handle_append_resp P n id
        (record { term = n.current_term; success = true; match_index = c; conflict_index = 0 })

  -- The same of several followers, one by one.
  unfoldable pub acknowledge : ℕ → Node P → List NodeId → Node P
  acknowledge c n [] = n
  acknowledge c n (id ∷ ids) = acknowledge c (acknowledged c n id) ids

  -- A leader whose last entry, at `c`, is of its term; `k` members or more hold it, and it is committed
  -- as soon as a majority does.
  abbrev pub Holding : ℕ → ℕ → Node P → Type 0
  Holding c k n =
      (n.role ≡ leader)
      × (last_index n.log ≡ c)
      × (term_at n.log c ≡ some n.current_term)
      × AllLe c (matches_of P n (members_of P n))
      × (n.commit_index ≤ c)
      × (k ≤ holders P n c)
      × ((holders P n c < quorum P n) ⊎ (n.commit_index ≡ c))
