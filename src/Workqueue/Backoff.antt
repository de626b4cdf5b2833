-- ===== src/Workqueue/Backoff.antt =====
-- The schedule of `rateLimitedDelay` in closed form.
use asty.Common.{ℕ, zero, suc, ◌*◌, ◌^◌, ◌≤◌, ◌≡◌, min, arith}
use asty.Workqueue.{doubled, rate_limited_delay}
use native.Mathlib.Nat.{pow-suc}

pow_pos : (n : ℕ) → 1 ≤ 2 ^ n
pow_pos zero = omega arith
pow_pos (suc n) = rw (pow-suc 2 n) (omega (arith, pow_pos n))

double_pow : (d n : ℕ) → d * 2 * 2 ^ n ≡ d * 2 ^ suc n
double_pow d n = rw (pow-suc 2 n) (omega arith)

le-mul_pow : (d n : ℕ) → d ≤ d * 2 ^ n
le-mul_pow d n = grind (arith, pow_pos n)

min-doubled : (n d m : ℕ) → min (doubled n d m) m ≡ min (d * 2 ^ n) m
unfolding doubled
min-doubled zero d m = omega arith
min-doubled (suc n) d m =
    ground (arith, min-doubled n (d * 2) m, double_pow d n, le-mul_pow d (suc n))

-- The delay after `n` failures is `base` doubled `n` times, or the cap if that is more.
pub rate_limited_delay_lem :
    (n base max_delay : ℕ) → rate_limited_delay n base max_delay ≡ min (base * 2 ^ n) max_delay
unfolding rate_limited_delay
rate_limited_delay_lem n base max_delay = ground (arith, min-doubled n base max_delay)
