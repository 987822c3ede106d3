-- ===== src/Prelude/Ids.antt =====
-- Equality and order of node identifiers (crypt.NodeID, a Go string compared by its bytes).
use Prim.Native.Nat.{ℕ, ◌+◌}
use mathlib.Core.Path.{◌≡◌}
use mathlib.Core.Bool.{Bool, true, false, ◌||◌}
use mathlib.Core.List.{List, [], ◌∷◌}
use native.Mathlib.Decide.{ℕ_discrete}
use native.Mathlib.Omega.{arith}
use crossfault.Prelude.Words.{Bytes}
use crossfault.Prelude.Tests.{ltb, ◌==◌, if◌then◌else◌}

abbrev pub NodeId : Type 0
NodeId = Bytes

-- The empty identifier, which stands for no node.
abbrev pub no_node : NodeId
no_node = []

unfoldable pub bytes_discrete : Discrete Bytes
bytes_discrete = hlevel ℕ_discrete

-- Equality of strings, byte slices and identifiers.
abbrev pub same : Bytes → Bytes → Bool
same a b = elim (bytes_discrete a b) [ yes _ ↦ true | no _ ↦ false ]

pub same_self : (a : Bytes) → same a a ≡ true
same_self a = ground arith

pub same→eq : (a b : Bytes) → same a b ≡ true → a ≡ b
same→eq a b h = ground arith

-- Go's `<` on strings.
unfoldable pub bytes_lt : Bytes → Bytes → Bool
bytes_lt a [] = false
bytes_lt [] (y ∷ b) = true
bytes_lt (x ∷ a) (y ∷ b) = if x == y then bytes_lt a b else ltb x y

-- Whether an identifier is in a roster.
unfoldable pub contains : List NodeId → NodeId → Bool
contains [] a = false
contains (m ∷ ms) a = same m a || contains ms a

-- How often a roster names an identifier.
unfoldable pub times_named : NodeId → List NodeId → ℕ
times_named a [] = 0
times_named a (m ∷ ms) = (if same m a then 1 else 0) + times_named a ms
