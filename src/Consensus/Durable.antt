-- ===== src/Consensus/Durable.antt =====
-- Commitment over the life of a replica of internal/consensus: what a request to append has to respect
-- so that nothing committed is lost, and what is then kept.
pub mod Splicing
pub mod Handling
pub mod Lifetime
use crossfault.Codec.{decode_append_req}
use crossfault.Prelude.{ℕ, ◌+◌, ◌<◌, ◌≤◌, ◌^◌, ◌≡◌, some, List, ◌++◌, length, take, get_elem?}
use crossfault.Platform.{Platform}
use crossfault.Messages.{Entry, AppendReq}
use crossfault.Consensus.Log.{log_len}
use crossfault.Consensus.Log.Splice.{contents}
use crossfault.Consensus.State.{Node}
use crossfault.Consensus.Ballot.{Action, message, clock, command}

module _ (P : Platform) where
  -- A request agrees with the committed part of the log: where it has an entry for a committed index, it
  -- has the term that the log has there. Its indices do not wrap.
  abbrev pub Respects : Node P → AppendReq → Type 0
  Respects n m =
      (m.prev_index + length m.entries < 2 ^ 64)
      × ((j : ℕ) (old new : Entry)
          → m.prev_index + j < n.commit_index
          → get_elem? n.log.entries (m.prev_index + j) ≡ some old
          → get_elem? m.entries j ≡ some new
          → old.term ≡ new.term)

  -- An action in which every request to append does.
  abbrev pub ActsWithin : Node P → Action → Type 0
  ActsWithin n (message env) =
      (m : AppendReq) → decode_append_req P env.payload ≡ some m → Respects n m
  ActsWithin n clock = Unit {0}
  ActsWithin n (command cmd) = Unit {0}

  -- The commit index is an index of the log.
  abbrev pub CommitInLog : Node P → Type 0
  CommitInLog n = n.commit_index ≤ log_len n.log

  -- The commit index has not gone back, is an index of the log, and what was committed is still there.
  abbrev pub Durable : Node P → Node P → Type 0
  Durable n n' =
      (n.commit_index ≤ n'.commit_index)
      × CommitInLog n'
      × (take n.commit_index (contents n'.log) ≡ take n.commit_index (contents n.log))
