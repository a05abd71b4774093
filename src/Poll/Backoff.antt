-- ===== src/Poll/Backoff.antt =====
-- The waits between empty polls.
use s3pgstore.Base.{ℕ, zero, suc, ◌-◌, ◌*◌, ◌%◌, ◌^◌, ◌≤◌, ◌<◌, ◌≡◌, ◌&&◌, ◌==◌, leb, min, arith}
use s3pgstore.Poll.{capped_shift, next_tail_backoff}

capped_shift-min :
    (d max_interval : ℕ) → d < 2 ^ 63 → capped_shift (d % 2 ^ 64) max_interval ≡ min d max_interval
unfolding capped_shift
capped_shift-min d max_interval h = ground arith

-- The wait after n empty polls, for n from 1 to 30, is the base doubled n - 1 times, at most the
-- maximum, where the base is at most the maximum and the doubled base fits an int64.
pub next_tail_backoff-min :
    (n base max_interval : ℕ)
    → 1 ≤ n
    → n ≤ 30
    → base ≤ max_interval
    → base * 2 ^ (n - 1) < 2 ^ 63
    → next_tail_backoff n base max_interval ≡ min (base * 2 ^ (n - 1)) max_interval
unfolding next_tail_backoff
next_tail_backoff-min zero base max_interval pos small le fits = absurd (omega arith)
next_tail_backoff-min (suc zero) base max_interval pos small le fits = ground arith
next_tail_backoff-min (suc (suc n)) base max_interval pos small le fits =
    ground (arith, capped_shift-min (base * 2 ^ (suc (suc n) - 1)) max_interval fits)

-- With a positive base that is at most the maximum, the wait after n empty polls is zero exactly
-- where n is from 2 to 30 and the low 64 bits of the base, doubled n - 1 times, are zero.
pub next_tail_backoff_zero :
    (n base max_interval : ℕ)
    → 0 < base
    → base ≤ max_interval
    → (next_tail_backoff n base max_interval == 0)
      ≡ (leb 2 n && leb n 30 && base * 2 ^ (n - 1) % 2 ^ 64 == 0)
unfolding next_tail_backoff capped_shift
next_tail_backoff_zero n base max_interval pos le = ground arith
