-- ===== src/Tests/Retries.antt =====
-- The delay before the third retry, with the least random number.
use s3pgstore.Base.{ℕ, ◌*◌, ◌≡◌, refl}
use s3pgstore.Jitter.{default_backoff, backoff_delay}

abbrev least : ℕ → ℕ
least n = 0

third_delay : backoff_delay least default_backoff 3 ≡ 400 * 1000000
unfolding backoff_delay
third_delay = refl
