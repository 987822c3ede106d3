-- ===== src/Examples/CatchUp.antt =====
-- internal/consensus: leader a brings replica b, whose log has a stale tail, up to its own log.
use crossfault.Codec.{decode_append_resp, encode_append_resp}
use crossfault.Prelude.{
  zero, suc, ◌≤◌, ◌≡◌, refl, some, [], ◌∷◌, ℕ, take, lookup, get_or, bytes_discrete, ℕ_discrete,
  arith,
}
use crossfault.Messages.{AppendResp}
use crossfault.Crypt.Transcript.{new_transcript}
use crossfault.Consensus.Log.{log_len, append, append_chained, chained}
use crossfault.Consensus.State.{Node, leader}
use crossfault.Consensus.Node.{next_for}
use crossfault.Consensus.Replication.{AgreeWhereTermsDo, exchanges, Replicates}
use crossfault.Consensus.Replication.CatchUp.{catches_up}
use crossfault.Examples.Toy.{toy, a, b, key_pair}
use crossfault.Examples.Log.{
  stale_log, leader_log, stale_log-IsChained, leader_log-IsChained, length-stale_log,
  length-leader_log, one_start,
}
use crossfault.Examples.Replica.{replica}

abbrev chief : Node toy
chief = record replica {
  settings = record (replica.settings) { id = a; ident = key_pair a };
  log = leader_log;
  role = leader;
  voted_for = a;
  send_tr = (b, new_transcript b) ∷ [];
}

toy-json : (m : AppendResp) → decode_append_resp toy (encode_append_resp toy m) ≡ some m
unfolding encode_append_resp
toy-json m = ground arith

stale_agrees : AgreeWhereTermsDo stale_log leader_log
unfolding append append_chained chained
stale_agrees zero x y hx hy same_term = one_start
stale_agrees (suc zero) x y hx hy same_term = absurd (ground arith)
stale_agrees (suc (suc i)) x y hx hy same_term = absurd (ground arith)

next_for-chief : next_for toy chief b ≡ 4
unfolding next_for get_or lookup append append_chained
next_for-chief = refl

pair-Replicates : Replicates toy chief replica
unfolding lookup bytes_discrete ℕ_discrete
pair-Replicates = record {
  leads = refl;
  older = omega arith;
  linked = (new_transcript a, refl);
  l_chained = leader_log-IsChained;
  f_chained = stale_log-IsChained;
  l_room = omega (arith, length-leader_log);
  f_room = omega (arith, length-stale_log);
  agree = stale_agrees;
  positive = omega (arith, next_for-chief);
  within = omega (arith, next_for-chief, length-leader_log);
}

catches_up_example :
    (j : ℕ) × (j ≤ next_for toy chief replica.id)
    × (l' f' : Node toy) × (exchanges toy j chief replica ≡ some (l', f'))
    × (take (log_len leader_log) f'.log.entries ≡ leader_log.entries)
catches_up_example = catches_up toy toy-json chief replica pair-Replicates
