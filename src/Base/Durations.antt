-- ===== src/Base/Durations.antt =====
-- Go's `time.Duration`, an int64 of nanoseconds: a product of counts wraps around, and the difference of two
-- times saturates at about 292 years.
use Prim.Native.Nat.{ℕ, zero, suc, ◌+◌, ◌-◌, ◌*◌, ◌/◌, ◌%◌, ◌≤◌, min}
use mathlib.Core.Path.{◌≡◌, refl, ap}
use mathlib.Core.Bool.{Bool, true, false}
use native.Mathlib.Omega.{arith}
use nxs_anomaly.Base.Tests.{ltb, leb, if◌then◌else◌}
use nxs_anomaly.Base.Time.{Instant}

-- `negsuc n` is -(n + 1).
pub data ℤ : Type 0 where
  pos : ℕ → ℤ
  negsuc : ℕ → ℤ

-- 2 ^ 64 and the greatest int64.
abbrev pub words : ℕ
words = 18_446_744_073_709_551_616

abbrev pub max_int64 : ℕ
max_int64 = 9_223_372_036_854_775_807

-- The int64 that a number wraps around to.
unfoldable pub signed : ℕ → ℤ
signed n = let low = n % words in if leb low max_int64 then pos low else negsuc (words - 1 - low)

unfoldable pub wrap : ℤ → ℤ
unfolding signed
wrap (pos n) = signed n
wrap (negsuc n) = signed (words - 1 - n % words)

-- -n.
unfoldable pub minus : ℕ → ℤ
minus zero = pos 0
minus (suc n) = negsuc n

-- A product with a count.
unfoldable pub mul : ℤ → ℕ → ℤ
unfolding wrap minus
mul (pos n) k = signed (n * k)
mul (negsuc n) k = wrap (minus (suc n * k))

-- A quotient, which drops the fraction towards 0. A divisor of 0, at which Go panics, is not looked at.
unfoldable pub quot : ℤ → ℤ → ℤ
unfolding minus signed
quot (pos m) (pos n) = pos (m / n)
quot (pos m) (negsuc n) = minus (m / suc n)
quot (negsuc m) (pos n) = minus (suc m / n)
quot (negsuc m) (negsuc n) = signed (suc m / suc n)

-- The remainder of that quotient by a count, which is negative for a negative dividend.
unfoldable pub rem : ℤ → ℕ → ℤ
unfolding minus
rem (pos m) k = pos (m % k)
rem (negsuc m) k = minus (suc m % k)

-- `t.Add(d)`; no instant is before 0.
unfoldable pub add : Instant → ℤ → Instant
add t (pos n) = t + n
add t (negsuc n) = t - suc n

-- `t.Sub(u)`.
unfoldable pub sub : Instant → Instant → ℤ
sub t u = if leb u t then pos (min (t - u) max_int64) else negsuc (min (u - t - 1) max_int64)

unfoldable pub less : ℤ → ℤ → Bool
less (pos m) (pos n) = ltb m n
less (pos m) (negsuc n) = false
less (negsuc m) (pos n) = true
less (negsuc m) (negsuc n) = ltb n m

-- A sum of two durations.
unfoldable pub plus : ℤ → ℤ → ℤ
unfolding wrap
plus (pos m) (pos n) = wrap (pos (m + n))
plus (pos m) (negsuc n) = if ltb n m then pos (m - suc n) else negsuc (n - m)
plus (negsuc m) (pos n) = if ltb m n then pos (n - suc m) else negsuc (m - n)
plus (negsuc m) (negsuc n) = wrap (negsuc (suc (m + n)))

pub signed_small : (n : ℕ) → n ≤ max_int64 → signed n ≡ pos n
unfolding signed
signed_small n h = rw (low, fits) refl
  where
    low : n % words ≡ n
    low = omega (arith, h)

    fits : leb n max_int64 ≡ true
    fits = ground (arith, h)

pub add-signed : (t : Instant) (n : ℕ) → n ≤ max_int64 → add t (signed n) ≡ t + n
unfolding add
add-signed t n h = ap (add t) (signed_small n h)

pub mul_small : (n k : ℕ) → n * k ≤ max_int64 → mul (pos n) k ≡ pos (n * k)
unfolding mul
mul_small n k h = signed_small (n * k) h

pub sub_small : (t u : Instant) → u ≤ t → t - u ≤ max_int64 → sub t u ≡ pos (t - u)
unfolding sub
sub_small t u h short = rw (after h, whole) refl
  where
    after : u ≤ t → leb u t ≡ true
    after h = ground arith

    whole : min (t - u) max_int64 ≡ t - u
    whole = omega (arith, short)
