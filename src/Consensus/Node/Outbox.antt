-- ===== src/Consensus/Node/Outbox.antt =====
-- What becomes of messages that a replica of internal/consensus left in its outbox: Tick and Deliver
-- start from an empty one.
use crossfault.Prelude.{◌≡◌, refl, List}
use crossfault.Platform.{Platform}
use crossfault.Crypt.Envelope.{Envelope}
use crossfault.Consensus.State.{Node}
use crossfault.Consensus.Node.Deliver.{deliver}
use crossfault.Consensus.Node.Tick.{advance_clock, tick}

module _ (P : Platform) where
  -- Messages that are still in the outbox when the node ticks or receives an envelope leave no trace:
  -- the outcome, its outbox included, is the same as without them.
  pub outbox_forgotten :
      (n : Node P) (waiting : List Envelope)
      → (tick P (record n { outbox = waiting }) ≡ tick P n)
        × ((env : Envelope) → deliver P (record n { outbox = waiting }) env ≡ deliver P n env)
  unfolding tick advance_clock deliver
  outbox_forgotten n waiting = (refl, λ env. refl)
