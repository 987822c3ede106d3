-- ===== src/Examples/Clock.antt =====
-- The election guard of internal/consensus at a replica that hears nobody.
use crossfault.Prelude.{
  ◌≡◌, refl, false, bytes_discrete, ℕ_discrete, lookup, insert, get_or, bytes_lt,
}
use crossfault.Prelude.Sorting.{sort}
use crossfault.Netmatrix.View.{
  bidirectional, can_send, new_view, observe_silence, has_bidirectional_quorum,
}
use crossfault.Consensus.State.{Node}
use crossfault.Examples.Toy.{toy, a, b, c}
use crossfault.Examples.Replica.{replica}

-- b no longer hears a and c, and its election timeout is up.
abbrev deaf : Node toy
deaf = record replica {
  view = observe_silence (observe_silence replica.view a) c;
  election_elapsed = 14;
}

cut_off : has_bidirectional_quorum deaf.view b ≡ false
unfolding has_bidirectional_quorum observe_silence new_view sort bytes_lt bytes_discrete ℕ_discrete
    bidirectional can_send lookup insert get_or
cut_off = refl
