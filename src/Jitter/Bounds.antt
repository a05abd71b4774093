-- ===== src/Jitter/Bounds.antt =====
-- s3client/backoff.go: the bounds of a delay.
use s3pgstore.Base.{ℕ, ◌+◌, ◌/◌, ◌≤◌, ◌<◌, arith, if◌then◌else◌, leb}
use s3pgstore.Jitter.{EqualJitterBackoff, backoff_window, backoff_delay}

window_bounds :
    (b : EqualJitterBackoff) (attempt : ℕ)
    → 0 < b.cap
    → (0 < backoff_window b attempt) × (backoff_window b attempt ≤ b.cap)
unfolding backoff_window
window_bounds b attempt h = ground (arith, h)

delay_bounds :
    (rand : ℕ → ℕ) (window : ℕ)
    → 0 < window
    → ((n : ℕ) → 0 < n → rand n < n)
    → (0 < (if leb (window / 2) 0 then window else window / 2 + rand (window / 2)))
      × (window / 2 ≤ (if leb (window / 2) 0 then window else window / 2 + rand (window / 2)))
      × ((if leb (window / 2) 0 then window else window / 2 + rand (window / 2)) ≤ window)
delay_bounds rand window h r = ground (arith, r (window / 2))

-- With a positive cap, and random numbers below their bound, a delay is never zero and never above
-- the cap, whatever the attempt and the base, overflows included; it is at least half of its
-- window and at most the window.
pub backoff_delay_bounds :
    (rand : ℕ → ℕ) (b : EqualJitterBackoff) (attempt : ℕ)
    → 0 < b.cap
    → ((n : ℕ) → 0 < n → rand n < n)
    → (0 < backoff_delay rand b attempt)
      × (backoff_delay rand b attempt ≤ b.cap)
      × (backoff_window b attempt / 2 ≤ backoff_delay rand b attempt)
      × (backoff_delay rand b attempt ≤ backoff_window b attempt)
unfolding backoff_delay
backoff_delay_bounds rand b attempt h r =
    let (some_window, within) = window_bounds b attempt h in
    let (later, half, most) = delay_bounds rand (backoff_window b attempt) some_window r in
    (later, omega (arith, most, within), half, most)
