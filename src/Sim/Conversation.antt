-- ===== src/Sim/Conversation.antt =====
-- What the replicas of internal/sim/network.go say to each other in one tick, and how many messages they are
-- handed, told without the queue, the links and the counters of the network.
use crossfault.Prelude.{
  if◌then◌else◌, ℕ, ◌+◌, some, none, Map, List, [], ◌∷◌, ◌++◌, NodeId, NodeId-Key, lookup, insert,
  ltb, u64,
}
use crossfault.Platform.{Platform}
use crossfault.Crypt.Envelope.{Envelope}
use crossfault.Consensus.State.{Node}
use crossfault.Consensus.Node.Deliver.{deliver}
use crossfault.Consensus.Node.Tick.{tick}
use crossfault.Sim.Network.{Network, InFlight}

-- How many messages of a queue are due at a tick.
unfoldable pub due_count : ℕ → List InFlight → ℕ
due_count now [] = 0
due_count now (m ∷ ms) = (if ltb now m.due_tick then 0 else 1) + due_count now ms

module _ (P : Platform) where
  -- What the addressee of a message answers to it if it is due, and the replicas then.
  unfoldable pub answer : ℕ → Map NodeId (Node P) → InFlight → Map NodeId (Node P) × List Envelope
  answer now nodes m = elim (if ltb now m.due_tick then none else lookup m.env.to nodes) [
    | none ↦ (nodes, [])
    | some dst ↦ let dst' = deliver P dst m.env in (insert m.env.to dst' nodes, dst'.outbox)
  ]

  -- The same of a queue of messages, one after another.
  unfoldable pub answers :
      ℕ → Map NodeId (Node P) → List InFlight → Map NodeId (Node P) × List Envelope
  answers now nodes [] = (nodes, [])
  answers now nodes (m ∷ ms) =
      let (nodes', said) = answer now nodes m in
      let (nodes'', later) = answers now nodes' ms in (nodes'', said ++ later)

  -- What replicas say when they tick one after another, and the replicas then.
  unfoldable pub remarks : Map NodeId (Node P) → List NodeId → Map NodeId (Node P) × List Envelope
  remarks nodes [] = (nodes, [])
  remarks nodes (id ∷ ids) = elim (lookup id nodes) [
    | none ↦ remarks nodes ids
    | some node ↦
        let node' = tick P node in
        let (nodes', later) = remarks (insert id node' nodes) ids in (nodes', node'.outbox ++ later)
  ]

  -- The replicas behind a tick of the network and all that they send in it, without the wire between them.
  unfoldable pub conversation : Network P → Map NodeId (Node P) × List Envelope
  conversation n =
      let (nodes', replies) = answers (u64 (n.tick + 1)) n.nodes n.in_flight in
      let (nodes'', said) = remarks nodes' n.order in (nodes'', replies ++ said)
