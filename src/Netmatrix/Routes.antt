-- ===== src/Netmatrix/Routes.antt =====
-- What internal/netmatrix/matrix.go answers: the fresh view, the election guard, relays and the
-- list of one-way links.
use crossfault.Prelude.{
  ◌+◌, ◌*◌, ◌<◌, ◌≤◌, ◌≡◌, ◌≢◌, ◌↔◌, refl, sym, ◌⊎◌, inl, inr, Bool, true, false, ◌&&◌, ◌||◌,
  Option, none, some, List, [], ◌∷◌, NodeId, NodeId-Key, Map, lookup, insert, get_or, lookup-insert,
  same, same_self, contains, bytes_lt, length, if◌then◌else◌, arith, Option-cases, Bool-cases,
  subst,
}
use crossfault.Prelude.Sorting.{sort, contains-sort}
use crossfault.Netmatrix.View.{
  View, full_row, full_rows, new_view, can_send, bidirectional, two_way, bidirectional_peers,
  view_quorum, has_bidirectional_quorum, find_via, relay,
}

full_row_lem :
    (ms : List NodeId) (row : Map NodeId Bool) (b : NodeId)
    → lookup b (full_row ms row) ≡ (if contains ms b then some true else lookup b row)
unfolding full_row contains
full_row_lem [] row b = refl
full_row_lem (m ∷ ms) row b =
    ground (arith, full_row_lem ms (insert m true row) b, lookup-insert m b true row)

full_rows_lem :
    (ms rest : List NodeId) (edges : Map NodeId (Map NodeId Bool)) (a : NodeId)
    → lookup a (full_rows ms rest edges)
      ≡ (if contains rest a then some (full_row ms []) else lookup a edges)
unfolding full_rows contains
full_rows_lem ms [] edges a = refl
full_rows_lem ms (m ∷ rest) edges a = ground (
  arith,
  full_rows_lem ms rest (insert m (full_row ms []) edges) a,
  lookup-insert m a (full_row ms []) edges,
)

-- A fresh view believes every edge between two members, and none from or to anyone else.
pub can_send-new_view :
    (owner : NodeId) (members : List NodeId) (a b : NodeId)
    → can_send (new_view owner members) a b
      ≡ (same a b || (contains members a && contains members b))
unfolding new_view can_send get_or
can_send-new_view owner members a b =
    let sorted = sort bytes_lt members in
    let none_there = full_row_lem sorted [] b in
    unfold lookup in
    ground (
      arith,
      full_rows_lem sorted sorted [] a,
      none_there,
      contains-sort bytes_lt members a,
      contains-sort bytes_lt members b,
    )

-- The answers of Relay: a node to send to, or none.
abbrev pub Routes : View → NodeId → NodeId → Option NodeId → Type 0
Routes v from to none =
    (can_send v from to ≡ false)
    × ((via : NodeId)
        → contains v.members via ≡ true
        → (can_send v from via && can_send v via to) ≡ false)
Routes v from to (some via) =
    ((via ≡ to) × (can_send v from to ≡ true))
    ⊎ ((can_send v from to ≡ false)
        × (contains v.members via ≡ true)
        × (can_send v from via ≡ true)
        × (can_send v via to ≡ true)
        × (via ≢ from)
        × (via ≢ to))

find_via-some :
    (v : View) (from to : NodeId) (ms : List NodeId) {via : NodeId}
    → find_via v from to ms ≡ some via
    → (contains ms via ≡ true)
      × (can_send v from via ≡ true)
      × (can_send v via to ≡ true)
      × (via ≢ from)
      × (via ≢ to)
unfolding find_via contains
find_via-some v from to [] e = absurd (cc)
find_via-some v from to (m ∷ ms) {via} e = ground (arith, find_via-some v from to ms {via = via})

find_via-none :
    (v : View) (from to : NodeId) (ms : List NodeId) (via : NodeId)
    → can_send v from to ≡ false
    → find_via v from to ms ≡ none
    → contains ms via ≡ true
    → (can_send v from via && can_send v via to) ≡ false
unfolding find_via contains
find_via-none v from to [] via down e h = absurd (cc)
find_via-none v from to (m ∷ ms) via down e h = ground (arith, find_via-none v from to ms via)

-- Relay answers the destination exactly if it believes in the direct edge; else a third member over
-- which it believes in both hops; and nothing only if no member could carry the message that way.
pub relay-Routes : (v : View) (from to : NodeId) → Routes v from to (relay v from to)
unfolding relay
relay-Routes v from to = elim (Bool-cases (can_send v from to)) [
  | inl up ↦ rw up (inl (refl, up))
  | inr down ↦ elim (Option-cases (find_via v from to v.members)) [
    | inl missing ↦
        rw (down, missing)
          (down, λ via member. find_via-none v from to v.members via down missing member)
    | inr (via, found) ↦
        let (member, out, on, ne_from, ne_to) = find_via-some v from to v.members found in
        rw (down, found) (inr (down, member, out, on, ne_from, ne_to))
  ]
]

-- How many of the listed nodes have a two-way link with `id`, counting `id` itself.
two_way-le : (v : View) (id : NodeId) (ms : List NodeId) → length (two_way v id ms) ≤ length ms
unfolding two_way
two_way-le v id [] = omega arith
two_way-le v id (m ∷ ms) = ground (arith, two_way-le v id ms)

-- Two sets of peers that together count more than the roster have a member in common.
two_way-overlap :
    (v w : View) (a b : NodeId) (ms : List NodeId)
    → length ms < length (two_way v a ms) + length (two_way w b ms)
    → (m : NodeId) × (contains ms m ≡ true)
      × ((same m a || bidirectional v a m) ≡ true)
      × ((same m b || bidirectional w b m) ≡ true)
unfolding two_way contains
two_way-overlap v w a b [] h = absurd (omega arith)
two_way-overlap v w a b (m ∷ ms) h =
    elim (Bool-cases ((same m a || bidirectional v a m) && (same m b || bidirectional w b m))) [
      | inl both ↦ (m, ground (arith, same_self m), ground arith, ground arith)
      | inr lacking ↦
          let (x, member, pa, pb) = two_way-overlap v w a b ms (ground arith) in
          (x, ground arith, pa, pb)
    ]

-- The election guard: a node passes it exactly if more than half of the roster has a two-way link
-- with it.
pub has_bidirectional_quorum_iff :
    (v : View) (id : NodeId)
    → (has_bidirectional_quorum v id ≡ true)
      ↔ (length v.members < 2 * length (bidirectional_peers v id))
unfolding has_bidirectional_quorum view_quorum
has_bidirectional_quorum_iff v id = (λ h. ground arith, λ h. ground arith)

-- Two nodes that pass the election guard, each by a view of its own over one roster, share a member:
-- each of the two is that member or believes in a two-way link with it.
pub quorums_meet :
    (v w : View) (a b : NodeId)
    → v.members ≡ w.members
    → has_bidirectional_quorum v a ≡ true
    → has_bidirectional_quorum w b ≡ true
    → (m : NodeId) × (contains v.members m ≡ true)
      × ((same m a || bidirectional v a m) ≡ true)
      × ((same m b || bidirectional w b m) ≡ true)
unfolding bidirectional_peers
quorums_meet v w a b one_roster ha hb =
    let na = (has_bidirectional_quorum_iff v a).0 ha in
    let nb = (has_bidirectional_quorum_iff w b).0 hb in
    let nb' = subst (λ ms. length ms < 2 * length (two_way w b ms)) (sym one_roster) nb in
    two_way-overlap v w a b v.members (omega arith)
