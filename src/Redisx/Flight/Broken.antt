-- ===== src/Redisx/Flight/Broken.antt =====
-- redisx/singleFlight.go: what a panic in a function leaves behind.
use g_micor.Base.{Bool, true, false}
use g_micor.Redisx.Flight.{Phase, blocked}

module _ {V A : Type 0} where
  -- A goroutine that a panic ended in the function that recovers.
  abbrev pub is_broken : Phase V A → Bool
  is_broken (blocked key id) = true
  is_broken _ = false
