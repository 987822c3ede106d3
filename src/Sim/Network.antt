-- ===== src/Sim/Network.antt =====
-- internal/sim/network.go: the simulated fabric between replicas. Delays are plain numbers, so a
-- latency below 0 has no counterpart, and neither has a node that is missing from the map of nodes
-- although it stands in `order`. An int64 seed is the number of its 64 bits.
use crossfault.Prelude.{
  ℕ, zero, suc, ◌+◌, ◌-◌, ◌==◌, Bool, true, false, not, ◌||◌, Option, none, some, List, [], ◌∷◌,
  ◌++◌, Bytes, NodeId, no_node, Key, NodeId-Key, Map, lookup, insert, erase, get_or, bytes_discrete,
  same, u64, length, drop, ltb, if◌then◌else◌,
}
use crossfault.Platform.{Platform}
use crossfault.Crypt.Envelope.{Envelope, tamper}
use crossfault.Netmatrix.View.{relay}
use crossfault.Consensus.State.{Mode, Node}
use crossfault.Consensus.Node.Deliver.{deliver}
use crossfault.Consensus.Node.Tick.{tick}

abbrev pub Edge : Type 0
Edge = NodeId × NodeId

instance abbrev pub Edge-Key : Key Edge
Edge-Key = record { decide_eq = hlevel bytes_discrete }

pub record InFlight : Type 0 where
  pub env : Envelope
  pub due_tick : ℕ
  pub via : NodeId

pub record Options : Type 0 where
  pub mode : Mode
  pub seed : ℕ
  pub base_delay : ℕ
  pub cross_cloud_delay : ℕ
  pub election_timeout : ℕ
  pub heartbeat_interval : ℕ
  pub probe_interval : ℕ

pub record NodeSpec : Type 0 where
  pub id : NodeId
  pub cloud : Bytes

-- The lines of the network's log, before they are printed.
pub data Fault : Type 0 where
  cut healed hostile : (from to : NodeId) → Fault

pub record Network (P : Platform) : Type 0 where
  pub nodes : Map NodeId (Node P)
  pub order : List NodeId
  pub down : Map Edge Bool
  pub corrupt : Map Edge Bool
  pub latency : Map Edge ℕ
  pub base_delay : ℕ
  pub cross_delay : ℕ
  pub in_flight : List InFlight
  pub tick : ℕ
  pub rng : P.Rng
  pub relaying : Bool
  pub delivered : ℕ
  pub dropped : ℕ
  pub corrupted : ℕ
  pub relayed : ℕ
  pub history : List (ℕ × Fault)

abbrev pub max_history : ℕ
max_history = 200

-- `out[i] ^= 0xff`
unfoldable pub flip_at : ℕ → Bytes → Bytes
flip_at i [] = []
flip_at zero (b ∷ bs) = (255 - b) ∷ bs
flip_at (suc i) (b ∷ bs) = b ∷ flip_at i bs

module _ (P : Platform) where
  unfoldable pub note_fault : Network P → Fault → Network P
  note_fault n fault =
      let all = n.history ++ (n.tick, fault) ∷ [] in
      record n {
        history = if ltb max_history (length all) then drop (length all - max_history) all else all;
      }

  unfoldable pub cut_link : Network P → NodeId → NodeId → Network P
  cut_link n from to = note_fault (record n { down = insert (from, to) true n.down }) (cut from to)

  unfoldable pub heal_link : Network P → NodeId → NodeId → Network P
  heal_link n from to = note_fault (record n { down = erase (from, to) n.down }) (healed from to)

  unfoldable pub partition_both : Network P → NodeId → NodeId → Network P
  partition_both n a b = cut_link (cut_link n a b) b a

  unfoldable pub corrupt_link : Network P → NodeId → NodeId → Network P
  corrupt_link n from to =
      note_fault (record n { corrupt = insert (from, to) true n.corrupt }) (hostile from to)

  unfoldable pub clean_link : Network P → NodeId → NodeId → Network P
  clean_link n from to = record n { corrupt = erase (from, to) n.corrupt }

  unfoldable pub set_latency : Network P → NodeId → NodeId → ℕ → Network P
  set_latency n from to ticks = record n { latency = insert (from, to) ticks n.latency }

  unfoldable pub is_down : Network P → NodeId → NodeId → Bool
  is_down n from to = get_or (from, to) false n.down

  unfoldable pub is_corrupt : Network P → NodeId → NodeId → Bool
  is_corrupt n from to = get_or (from, to) false n.corrupt

  -- Whether both nodes exist and stand in different clouds.
  unfoldable pub crosses_clouds : Network P → NodeId → NodeId → Bool
  crosses_clouds n from to = elim (lookup from n.nodes) [
    | none ↦ false
    | some a ↦ elim (lookup to n.nodes) [ none ↦ false | some b ↦ not (same a.cloud b.cloud) ]
  ]

  unfoldable pub delay_for : Network P → NodeId → NodeId → ℕ
  delay_for n from to = elim (lookup (from, to) n.latency) [
    | some d ↦ d
    | none ↦ if crosses_clouds n from to then n.base_delay + n.cross_delay else n.base_delay
  ]

  unfoldable pub find_relay : Network P → NodeId → NodeId → Option NodeId
  find_relay n from to = elim (lookup from n.nodes) [
    | none ↦ none
    | some src ↦ elim (relay src.view from to) [
      | none ↦ none
      | some via ↦
          if same via to || (is_down n from via || is_down n via to) then none else some via
    ]
  ]

  -- The hostile gateway: one byte of a payload that has any is flipped.
  unfoldable pub rewrite : Network P → Envelope → Network P × Envelope
  rewrite n env =
      let counted = record n { corrupted = n.corrupted + 1 } in
      let (i, rng') = P.intn n.rng (length env.payload) in
      if length env.payload == 0
      then (counted, env)
      else (record counted { rng = rng' }, tamper (flip_at i) env)

  abbrev pub put : Network P → InFlight → Network P
  put n m = record n { in_flight = n.in_flight ++ m ∷ [] }

  unfoldable pub send_relayed : Network P → Envelope → NodeId → Network P
  send_relayed n env via =
      put (record n { relayed = n.relayed + 1 })
        (record {
          env = env;
          due_tick = u64 (n.tick + u64 (delay_for n env.from via + delay_for n via env.to));
          via = via;
        })

  abbrev pub direct_flight : Network P → Envelope → InFlight
  direct_flight n env = record {
    env = env;
    due_tick = u64 (n.tick + delay_for n env.from env.to);
    via = no_node;
  }

  unfoldable pub send_direct : Network P → Envelope → Network P
  send_direct n env = put n (direct_flight n env)

  unfoldable pub enqueue : Network P → Envelope → Network P
  enqueue n env =
      if is_down n env.from env.to
      then (elim (if n.relaying then find_relay n env.from env.to else none) [
        | some via ↦ send_relayed n env via
        | none ↦ record n { dropped = n.dropped + 1 }
      ])
      else if is_corrupt n env.from env.to
      then (let (rewriting, env') = rewrite n env in send_direct rewriting env')
      else send_direct n env

  unfoldable pub enqueue_all : Network P → List Envelope → Network P
  enqueue_all n [] = n
  enqueue_all n (env ∷ envs) = enqueue_all (enqueue n env) envs

  unfoldable pub hand_over : Network P → InFlight → Network P
  hand_over n m = elim (lookup m.env.to n.nodes) [
    | none ↦ n
    | some dst ↦
        let dst' = deliver P dst m.env in
        enqueue_all (record n { delivered = n.delivered + 1; nodes = insert m.env.to dst' n.nodes })
          dst'.outbox
  ]

  unfoldable pub deliver_due : Network P → List InFlight → Network P
  deliver_due n [] = n
  deliver_due n (m ∷ ms) = deliver_due (if ltb n.tick m.due_tick then put n m else hand_over n m) ms

  unfoldable pub run_nodes : Network P → List NodeId → Network P
  run_nodes n [] = n
  run_nodes n (id ∷ ids) = elim (lookup id n.nodes) [
    | none ↦ run_nodes n ids
    | some node ↦
        let node' = tick P node in
        run_nodes (enqueue_all (record n { nodes = insert id node' n.nodes }) node'.outbox) ids
  ]

  unfoldable pub step : Network P → Network P
  step n =
      let started = record n { tick = u64 (n.tick + 1); in_flight = [] } in
      let served = deliver_due started n.in_flight in run_nodes served served.order
