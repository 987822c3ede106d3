-- ===== src/Consensus/Replication.antt =====
-- The exchange that brings a follower of internal/consensus up to its leader: the request that
-- broadcastAppend builds, handleAppendReq at the follower, and handleAppendResp on its answer.
pub mod Rounds
pub mod CatchUp
use crossfault.Codec.{decode_append_resp}
use crossfault.Prelude.{
  ℕ, zero, suc, ◌+◌, ◌-◌, ◌<◌, ◌≤◌, ◌^◌, ◌≡◌, ◌⊎◌, refl, sym, ap, subst, ◌∙◌, Bool, true, false,
  Option, none, some, List, [], ◌∷◌, ◌++◌, NodeId, NodeId-Key, lookup, lookup-insert_self, insert,
  get_or, length, take, last?, get_elem?, u64, sub64, leb, ltb, ◌==◌, if◌then◌else◌, Bool-cases,
  Option-cases, inl, inr, arith,
}
use crossfault.Platform.{Platform}
use crossfault.Messages.{Entry, AppendReq, AppendResp}
use crossfault.Crypt.Envelope.{Envelope, kind_append_resp}
use crossfault.Crypt.Transcript.{Transcript}
use crossfault.Consensus.Log.{
  Log, log_len, last_index, entry_at, entry_at-suc, term_at, matches, slice, append_from_leader,
}
use crossfault.Consensus.Log.Chain.{IsChained}
use crossfault.Consensus.Log.Splice.{content, contents}
use crossfault.Consensus.Log.Matching.{LogMatching, append_from_leader-slice}
use crossfault.Consensus.State.{Node, Role, leader}
use crossfault.Consensus.Node.{send, next_for, append_req_for}
use crossfault.Consensus.Node.Handlers.{
  min64, follow, refuse_append, take_entries, handle_append_req, handle_append_resp, is_leader,
}
use crossfault.Consensus.Node.Quiet.{send-Kept}
use crossfault.Consensus.Node.Commit.{follow_lem, send-outbox, accepted, take_entries-answer}
use crossfault.Consensus.Node.LogKept.{matches-in_log, take_entries-log, follow-log}

-- Raft's Log Matching: where two logs have the same term at an index, they agree up to there.
abbrev pub AgreeWhereTermsDo : Log → Log → Type 0
AgreeWhereTermsDo f l =
    (i : ℕ) (x y : Entry)
    → get_elem? f.entries i ≡ some x
    → get_elem? l.entries i ≡ some y
    → x.term ≡ y.term
    → take (suc i) (contents f) ≡ take (suc i) (contents l)

module _ (P : Platform) where
  -- The request that the leader builds for a follower.
  abbrev pub request : Node P → Node P → AppendReq
  request l f = append_req_for P l (next_for P l f.id)

  -- One request and the leader's handling of the answer; `none` if there is no answer or it does not
  -- decode.
  unfoldable pub exchange : Node P → Node P → Option (Node P × Node P)
  exchange l f =
      let f' = handle_append_req P (record f { outbox = [] }) l.id (request l f) in
      elim (last? f'.outbox) [
        | none ↦ none
        | some env ↦ elim (decode_append_resp P env.payload) [
          | none ↦ none
          | some m ↦ some (handle_append_resp P l f.id m, f')
        ]
      ]

  unfoldable pub exchanges : ℕ → Node P → Node P → Option (Node P × Node P)
  exchanges zero l f = some (l, f)
  exchanges (suc k) l f = elim (exchange l f) [ none ↦ none | some p ↦ exchanges k p.0 p.1 ]

  -- A leader and a follower between which the exchange can work: the follower is in no newer term and has
  -- a transcript with the leader; both logs are chained, match and leave room for an index; and the
  -- leader does not believe the follower further than its own log reaches.
  pub record Replicates (l f : Node P) : Type 0 where
    pub leads : l.role ≡ leader
    pub older : f.current_term ≤ l.current_term
    pub linked : (tr : Transcript) × (lookup l.id f.send_tr ≡ some tr)
    pub l_chained : IsChained P l.log
    pub f_chained : IsChained P f.log
    pub l_room : log_len l.log + 1 < 2 ^ 64
    pub f_room : log_len f.log + 1 < 2 ^ 64
    pub agree : AgreeWhereTermsDo f.log l.log
    pub positive : 0 < next_for P l f.id
    pub within : next_for P l f.id ≤ log_len l.log + 1
