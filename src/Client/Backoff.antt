-- ===== src/Client/Backoff.antt =====
-- `backoff` of internal/client/client.go. It computes with float64: here with exact numbers, and
-- `rand.Float64()` is k / 2^53 for a k below 2^53. Durations are nanoseconds.
use team_x.Base.{ℕ, suc, ◌+◌, ◌*◌, ◌/◌, ◌^◌, ◌≤◌, ◌<◌, ◌≡◌, refl, arith, if◌then◌else◌, ltb, leb}

abbrev pub smaller : ℕ → ℕ → ℕ
smaller a b = if leb a b then a else b

-- `initial * 2^min(attempt, 63)`, clamped.
unfoldable pub base_delay : ℕ → ℕ → ℕ → ℕ
base_delay initial max attempt = smaller (initial * 2 ^ smaller attempt 63) max

-- `d + d * 0.25 * (rand * 2 - 1)`, cut to an integer.
unfoldable pub jittered : ℕ → ℕ → ℕ
jittered d k = d * (3 * 2 ^ 53 + 2 * k) / 2 ^ 55

unfoldable pub backoff : ℕ → ℕ → ℕ → ℕ → ℕ
backoff initial max attempt k = jittered (base_delay initial max attempt) k

-- A second and a minute, at the middle of the jitter.
third_attempt : backoff 1000000000 60000000000 3 (2 ^ 52) ≡ 8000000000
unfolding backoff base_delay jittered
third_attempt = refl

tenth_attempt : backoff 1000000000 60000000000 10 (2 ^ 52) ≡ 60000000000
unfolding backoff base_delay jittered
tenth_attempt = refl

jittered_bounds :
    (d k : ℕ) → k < 2 ^ 53 → (3 * d ≤ 4 * jittered d k + 3) × (4 * jittered d k ≤ 5 * d)
unfolding jittered
jittered_bounds d k h = grind arith

double-pow : (n : ℕ) → 2 ^ suc n ≡ 2 * 2 ^ n
double-pow n = grind arith

base_delay-suc :
    (initial max attempt : ℕ)
    → attempt < 63
    → base_delay initial max (suc attempt) ≡ smaller (2 * base_delay initial max attempt) max
unfolding base_delay
base_delay-suc initial max attempt h = ground (arith, double-pow attempt, more)
  where
    more : initial * 2 ^ suc attempt ≡ 2 * (initial * 2 ^ attempt)
    more = rw double-pow (grind arith)

base_delay-le : (initial max attempt : ℕ) → base_delay initial max attempt ≤ max
unfolding base_delay
base_delay-le initial max attempt = ground arith

base_delay-capped :
    (initial max attempt : ℕ)
    → 63 ≤ attempt
    → base_delay initial max (suc attempt) ≡ base_delay initial max attempt
unfolding base_delay
base_delay-capped initial max attempt h = ground arith

-- The delay lies within a quarter of the base delay, up to the cut to an integer, and so is at most
-- five quarters of the maximum. The base delay doubles with each attempt up to the maximum, from
-- the initial delay at attempt 0, and is the same from attempt 63 on.
pub backoff_lem :
    (initial max attempt k : ℕ)
    → k < 2 ^ 53
    → (3 * base_delay initial max attempt ≤ 4 * backoff initial max attempt k + 3)
      × (4 * backoff initial max attempt k ≤ 5 * base_delay initial max attempt)
      × (4 * backoff initial max attempt k ≤ 5 * max)
      × (base_delay initial max 0 ≡ smaller initial max)
      × (base_delay initial max (suc attempt) ≡ (
          if ltb attempt 63
          then smaller (2 * base_delay initial max attempt) max
          else base_delay initial max attempt))
unfolding backoff
backoff_lem initial max attempt k h =
    let b = jittered_bounds (base_delay initial max attempt) k h in
    (
      b.0,
      b.1,
      omega (arith, base_delay-le initial max attempt, b.1),
      unfold base_delay in ground arith,
      ground (arith, base_delay-suc initial max attempt, base_delay-capped initial max attempt),
    )
