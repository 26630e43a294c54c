-- ===== src/Prelude/Words.antt =====
-- Tests of all numbers below a bound, by evaluation.
use Prim.Native.Nat.{ℕ, zero, suc, ◌<◌}
use mathlib.Core.Path.{◌≡◌}
use mathlib.Core.Bool.{Bool, true, ◌&&◌}
use native.Mathlib.Omega.{arith}

-- The test of every number below the bound, the largest first.
unfoldable pub holds_below : ℕ → (ℕ → Bool) → Bool
holds_below zero test = true
holds_below (suc top) test = let others = holds_below top test in test top && others

pub holds_below_lem :
    (bound : ℕ) (test : ℕ → Bool) (k : ℕ)
    → holds_below bound test ≡ true
    → k < bound
    → test k ≡ true
unfolding holds_below
holds_below_lem zero test k whole small = absurd (omega arith)
holds_below_lem (suc top) test k whole small =
    let earlier = holds_below_lem top test k in ground (arith, earlier)
