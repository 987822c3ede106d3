-- ===== src/Consensus/Ballot.antt =====
-- What internal/consensus promises about roles, terms and votes: an abstract machine that forgets the
-- log, the timers and the messages, and the actions of a replica that are to refine it.
pub mod Handling
pub mod Stepping
pub mod Refine
use crossfault.Prelude.{
  ℕ, ◌+◌, ◌<◌, ◌^◌, ◌≡◌, ◌≢◌, ◌⊎◌, Option, none, some, List, [], ◌∷◌, Bytes, NodeId, no_node,
}
use crossfault.Platform.{Platform}
use crossfault.Crypt.Envelope.{Envelope}
use crossfault.Consensus.State.{Node, Role, follower, pre_candidate, candidate, leader}
use crossfault.Consensus.Node.Deliver.{deliver, propose}
use crossfault.Consensus.Node.Tick.{tick}

-- A replica as an election sees it.
pub record Ballot : Type 0 where
  pub role : Role
  pub term : ℕ
  pub vote : NodeId

-- The moves of the abstract machine. A vote is only given up by a node that is no follower (`yield`), or
-- with its term (`run`, `adopt`).
pub data Move (me : NodeId) (b b' : Ballot) : Type 0 where
  stay : b'.role ≡ b.role → b'.term ≡ b.term → b'.vote ≡ b.vote → Move me b b'
  poll :
      b.role ≢ leader → b'.role ≡ pre_candidate → b'.term ≡ b.term → b'.vote ≡ b.vote → Move me b b'
  run : b.role ≢ leader → b'.role ≡ candidate → b'.term ≡ b.term + 1 → b'.vote ≡ me → Move me b b'
  win : b.role ≡ candidate → b'.role ≡ leader → b'.term ≡ b.term → b'.vote ≡ b.vote → Move me b b'
  adopt : b.term < b'.term → b'.role ≡ follower → Move me b b'
  yield :
      b.role ≢ follower → b'.role ≡ follower → b'.term ≡ b.term → b'.vote ≡ no_node → Move me b b'
  cast : b.vote ≡ no_node → b'.role ≡ b.role → b'.term ≡ b.term → Move me b b'

-- What reaches a replica from outside.
pub data Action : Type 0 where
  message : Envelope → Action
  clock : Action
  command : Bytes → Action

module _ (P : Platform) where
  abbrev pub ballot : Node P → Ballot
  ballot n = record { role = n.role; term = n.current_term; vote = n.voted_for }

  -- A proposal that is refused leaves the node as it is.
  unfoldable pub act : Node P → Action → Node P
  act n (message env) = deliver P n env
  act n clock = tick P n
  act n (command cmd) = elim (propose P n cmd) [ none ↦ n | some n' ↦ n' ]

  unfoldable pub acts : Node P → List Action → Node P
  acts n [] = n
  acts n (a ∷ rest) = acts (act n a) rest

  -- What holds of every state in which an action of the list is taken.
  abbrev pub Along : (Node P → Type 0) → Node P → List Action → Type 0
  Along Q n [] = Unit {0}
  Along Q n (a ∷ rest) = Q n × Along Q (act n a) rest

  -- The term after the current one does not wrap.
  abbrev pub HasRoom : Node P → Type 0
  HasRoom n = n.current_term + 1 < 2 ^ 64

  -- What ground works with in place of `Move`.
  abbrev pub MoveRule : Node P → Node P → Type 0
  MoveRule n n' =
      ((n'.role ≡ n.role) × (n'.current_term ≡ n.current_term) × (n'.voted_for ≡ n.voted_for))
      ⊎ (((n.role ≢ leader)
            × (n'.role ≡ pre_candidate)
            × (n'.current_term ≡ n.current_term)
            × (n'.voted_for ≡ n.voted_for))
          ⊎ (((n.role ≢ leader)
                × (n'.role ≡ candidate)
                × (n'.current_term ≡ n.current_term + 1)
                × (n'.voted_for ≡ n.id))
              ⊎ (((n.role ≡ candidate)
                    × (n'.role ≡ leader)
                    × (n'.current_term ≡ n.current_term)
                    × (n'.voted_for ≡ n.voted_for))
                  ⊎ (((n.current_term < n'.current_term) × (n'.role ≡ follower))
                      ⊎ (((n.role ≢ follower)
                            × (n'.role ≡ follower)
                            × (n'.current_term ≡ n.current_term)
                            × (n'.voted_for ≡ no_node))
                          ⊎ ((n.voted_for ≡ no_node)
                              × (n'.role ≡ n.role)
                              × (n'.current_term ≡ n.current_term)))))))
