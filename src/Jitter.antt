-- ===== src/Jitter.antt =====
-- s3client/backoff.go: the delay before a retry of an S3 call.
pub mod Bounds
use s3pgstore.Base.{
  ℕ, ◌+◌, ◌-◌, ◌*◌, ◌/◌, ◌%◌, ◌^◌, min, max, Bool, ◌||◌, if◌then◌else◌, ltb, leb, ◌==◌,
}

-- equalJitterBackoff, in nanoseconds.
pub record EqualJitterBackoff : Type 0 where
  pub base : ℕ
  pub cap : ℕ

abbrev pub default_backoff : EqualJitterBackoff
default_backoff = record { base = 200 * 1000000; cap = 10 * 1000000000 }

-- The window of an attempt; an attempt below 1 counts as 1, and the shift is one of int64, negative
-- from 2 ^ 63 on.
unfoldable pub backoff_window : EqualJitterBackoff → ℕ → ℕ
backoff_window b attempt =
    let shift = min (max attempt 1 - 1) 30 in
    let window = b.base * 2 ^ shift % 2 ^ 64 in
    if ltb b.cap window || (window == 0 || leb (2 ^ 63) window) then b.cap else window

-- BackoffDelay, with `rand.Int64N` as an argument.
unfoldable pub backoff_delay : (ℕ → ℕ) → EqualJitterBackoff → ℕ → ℕ
unfolding backoff_window
backoff_delay rand b attempt =
    let window = backoff_window b attempt in
    let half = window / 2 in if leb half 0 then window else half + rand half
