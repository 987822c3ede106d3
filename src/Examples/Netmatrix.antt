-- ===== src/Examples/Netmatrix.antt =====
-- internal/netmatrix at a roster of three whose link from c to a is cut.
use crossfault.Prelude.{
  get_or, ◌≡◌, refl, true, ◌&&◌, ◌||◌, some, [], ◌∷◌, NodeId, same, contains, if◌then◌else◌, All,
  bytes_discrete, ℕ_discrete, lookup, insert, bytes_lt,
}
use crossfault.Prelude.Sorting.{sort}
use crossfault.Netmatrix.View.{
  View, new_view, set_edge, observe_silence, merge, can_send, bidirectional,
  has_bidirectional_quorum, relay, asymmetries,
}
use crossfault.Netmatrix.Edges.{edge_of, preferring, merge_lem}
use crossfault.Netmatrix.Routes.{Routes, relay-Routes, quorums_meet}
use crossfault.Netmatrix.Asymmetry.{OneWay, lists_pair, asymmetries_exact}
use crossfault.Examples.Toy.{a, b, c, trio}

abbrev fresh : View
fresh = new_view a trio

abbrev cut : View
cut = observe_silence fresh c

-- What b reports: it does not hear c.
abbrev report : View
report = observe_silence (new_view b trio) c

merge_lem_example : edge_of (merge cut report) c b ≡ (
    if contains cut.members c && same report.owner b
    then preferring (edge_of report c b) (edge_of cut c b)
    else edge_of cut c b)
merge_lem_example = merge_lem cut report c b

relay-Routes_example : Routes cut c a (relay cut c a)
relay-Routes_example = relay-Routes cut c a

relayed_test : relay cut c a ≡ some b
unfolding relay observe_silence can_send bytes_discrete ℕ_discrete lookup insert new_view sort
    bytes_lt get_or
relayed_test = refl

passes : has_bidirectional_quorum cut c ≡ true
unfolding has_bidirectional_quorum observe_silence new_view sort bytes_lt bytes_discrete ℕ_discrete
    bidirectional can_send lookup insert get_or
passes = refl

passes_there : has_bidirectional_quorum report a ≡ true
unfolding has_bidirectional_quorum observe_silence new_view sort bytes_lt bytes_discrete ℕ_discrete
    bidirectional can_send lookup insert get_or
passes_there = refl

one_roster : cut.members ≡ report.members
unfolding observe_silence new_view set_edge
one_roster = refl

quorums_meet_example :
    (m : NodeId) × (contains cut.members m ≡ true)
    × ((same m c || bidirectional cut c m) ≡ true)
    × ((same m a || bidirectional report a m) ≡ true)
quorums_meet_example = quorums_meet cut report c a one_roster passes passes_there

asymmetries_exact_example :
    All (OneWay cut) (asymmetries cut)
    × ((x y : NodeId)
        → contains cut.members x ≡ true
        → contains cut.members y ≡ true
        → OneWay cut (x, y)
        → lists_pair (asymmetries cut) x y ≡ true)
asymmetries_exact_example = asymmetries_exact cut

asymmetries_test : asymmetries cut ≡ (a, c) ∷ []
unfolding asymmetries observe_silence new_view sort bytes_lt can_send bytes_discrete ℕ_discrete
    lookup insert get_or
asymmetries_test = refl

-- b reports that it hears a and nobody else.
