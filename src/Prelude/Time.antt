-- ===== src/Prelude/Time.antt =====
-- Go's time package, as far as the program uses it: an instant is its distance in nanoseconds from a
-- fixed one, a `time.Duration` an int64 of nanoseconds.
use tink.Prelude.{Bool, ◌^◌}
use tink.Prelude.Int.{ℤ, pos, ◌+ℤ◌, ◌-ℤ◌, ◌*ℤ◌, ltb_ℤ, quot_ℤ, wrap64, clamp64}

-- `time.Duration(n) * time.Second`, which wraps around
unfoldable pub seconds : ℤ → ℤ
seconds n = wrap64 (n *ℤ pos (10 ^ 9))

-- `t.Add(d)`
unfoldable pub add : ℤ → ℤ → ℤ
add t d = t +ℤ d

-- `t.After(u)`
unfoldable pub after : ℤ → ℤ → Bool
after t u = ltb_ℤ u t

-- `int64(t.Sub(u).Seconds())`: the difference saturates, and the fraction is cut off. (Below 97 days
-- the float64 in between is exact enough for this.)
unfoldable pub seconds_since : ℤ → ℤ → ℤ
seconds_since t u = quot_ℤ (clamp64 (t -ℤ u)) (10 ^ 9)
