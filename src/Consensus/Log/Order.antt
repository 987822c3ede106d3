-- ===== src/Consensus/Log/Order.antt =====
-- UpToDate of internal/consensus/log.go as an order on logs.
use crossfault.Prelude.{◌≡◌, ◌⊎◌, true, arith}
use crossfault.Consensus.Log.{Log, last_index, last_term, up_to_date}

-- The second log is at least as up to date as the first.
abbrev pub Behind : Log → Log → Type 0
Behind l k = up_to_date l (last_term k) (last_index k) ≡ true

-- Of any two logs one is at least as up to date as the other; the relation is transitive; and two logs
-- that are each as up to date as the other end in the same term at the same index.
pub up_to_date-Behind :
    (x y z : Log)
    → (Behind x y ⊎ Behind y x)
      × (Behind x y → Behind y z → Behind x z)
      × (Behind x y → Behind y x → (last_term x ≡ last_term y) × (last_index x ≡ last_index y))
unfolding up_to_date
up_to_date-Behind x y z = (ground arith, λ h k. ground arith, λ h k. ground arith)
