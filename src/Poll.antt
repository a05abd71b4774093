-- ===== src/Poll.antt =====
-- poll.go: one poll of the feed, its tips, and the waits of the tail loop.
pub mod Window
pub mod Backoff
pub mod Pages
use s3pgstore.Base.{
  ℕ, zero, suc, ◌+◌, ◌-◌, ◌*◌, ◌%◌, ◌^◌, max, Bool, Option, none, some, List, [], ◌∷◌, map,
  if◌then◌else◌, ltb, leb, ◌==◌, ◌||◌, Result, ok, err,
}
use s3pgstore.Base.Int.{ℤ}
use s3pgstore.Base.Defaults.{positive_or}
use s3pgstore.Catalog.Tables.{FileRow, Tables}
use s3pgstore.Catalog.Feed.{seq_or_zero, poll_files, offset_latest_sql, offset_at_sql}
use s3pgstore.Store.{Store, FileRef, file_ref_of}

pub data PollError : Type 0 where
  bad_range query_failed : PollError

-- `if e.Offset+1 > next { next = e.Offset + 1 }`, over the rows.
unfoldable pub next_offset : ℕ → List FileRow → ℕ
next_offset next [] = next
next_offset next (r ∷ rows) =
    next_offset (if ltb next (seq_or_zero r.feed_seq + 1) then seq_or_zero r.feed_seq + 1 else next)
      rows

-- Poll, with the offset to go on from.
unfoldable pub poll : Bool → Store → ℕ → ℕ → Tables → Result PollError (List FileRef) × ℕ
unfolding next_offset
poll fails store since until t =
    if ltb until since
    then (err bad_range, since)
    else if since == until
    then (ok [], since)
    else if fails
    then (err query_failed, since)
    else (
      ok (map (file_ref_of store.exts) (poll_files since until t)),
      next_offset since (poll_files since until t),
    )

-- OffsetLatest: the next number after the highest; 1 with an error.
unfoldable pub offset_latest : Bool → Tables → Result PollError (Unit {0}) × ℕ
offset_latest fails t = if fails then (err query_failed, 1) else (ok tt, offset_latest_sql t + 1)

-- OffsetAt: 0 is OffsetNone.
unfoldable pub offset_at : Bool → ℕ → Tables → Result PollError (Unit {0}) × ℕ
offset_at fails time t =
    if fails then (err query_failed, 0) else (ok tt, seq_or_zero (offset_at_sql time t))

abbrev pub default_tail_base_interval : ℕ
default_tail_base_interval = 100000000

abbrev pub default_tail_max_interval : ℕ
default_tail_max_interval = 2000000000

-- tailIntervals, in nanoseconds.
unfoldable pub tail_intervals : ℤ → ℤ → ℕ × ℕ
tail_intervals base max_interval =
    let b = positive_or base default_tail_base_interval in
    (b, max b (positive_or max_interval default_tail_max_interval))

-- A shifted int64: its low 64 bits, negative from 2 ^ 63 on.
unfoldable pub capped_shift : ℕ → ℕ → ℕ
capped_shift d max_interval = if ltb max_interval d || leb (2 ^ 63) d then max_interval else d

-- nextTailBackoff
unfoldable pub next_tail_backoff : ℕ → ℕ → ℕ → ℕ
unfolding capped_shift
next_tail_backoff n base max_interval =
    if leb n 1
    then base
    else if ltb 30 n
    then max_interval
    else capped_shift (base * 2 ^ (n - 1) % 2 ^ 64) max_interval
