-- ===== src/Prelude/Small.antt =====
-- Go's arithmetic on numbers that are small and not negative.
use Prim.Native.Nat.{ℕ, ◌<◌, ◌/◌, ◌^◌}
use tink.Prelude.{arith, ◌≡◌}
use tink.Prelude.Int.{pos, quot_ℤ, wrap64}
use native.Mathlib.Nat.{div-eq_of_lt}

pub wrap64-small : (n : ℕ) → n < 2 ^ 63 → wrap64 (pos n) ≡ pos n
unfolding wrap64
wrap64-small n h = ground arith

pub quot_pos : (n t : ℕ) → 0 < t → quot_ℤ (pos n) t ≡ pos (n / t)
unfolding quot_ℤ
quot_pos n t h = ground (arith, div-eq_of_lt {n = 0} {m = t} h)
