-- ===== src/Messages.antt =====
-- The wire payloads of internal/consensus/messages.go, and the log entry of
-- internal/consensus/log.go that an AppendReq carries. A hash is a list of 32 bytes.
use crossfault.Prelude.{ℕ, Bool, List, Bytes, NodeId, map}

pub record Entry : Type 0 where
  pub term : ℕ
  pub index : ℕ
  pub command : Bytes
  pub prev_hash : Bytes
  pub hash : Bytes

pub record AppendReq : Type 0 where
  pub term : ℕ
  pub leader : Bytes
  pub prev_index : ℕ
  pub prev_term : ℕ
  pub entries : List Entry
  pub leader_commit : ℕ

pub record AppendResp : Type 0 where
  pub term : ℕ
  pub success : Bool
  pub match_index : ℕ
  pub conflict_index : ℕ

pub record VoteReq : Type 0 where
  pub term : ℕ
  pub candidate : Bytes
  pub last_index : ℕ
  pub last_term : ℕ
  pub pre_vote : Bool

pub record VoteResp : Type 0 where
  pub term : ℕ
  pub granted : Bool
  pub pre_vote : Bool

pub record ProbeReq : Type 0 where
  pub term : ℕ
  pub from : Bytes
  pub inbound_up : List Bytes

pub record ProbeResp : Type 0 where
  pub term : ℕ
  pub from : Bytes
  pub inbound_up : List Bytes

-- A NodeID is a string, so both conversions keep every item.
abbrev pub to_node_ids : List Bytes → List NodeId
to_node_ids ss = map (λ s. s) ss

abbrev pub to_strings : List NodeId → List Bytes
to_strings ids = map (λ s. s) ids
