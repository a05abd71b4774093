-- ===== src/Catalog/Feed.antt =====
-- The feed columns: PollFilesSQL, OffsetLatestSQL and OffsetAtSQL of sql.go, and the assignment
-- statement of sequencer.go.
pub mod Stamps
pub mod Dense
use s3pgstore.Base.{
  ℕ, suc, ◌+◌, Bool, true, false, ◌&&◌, not, Option, none, some, List, [], ◌∷◌, map, if◌then◌else◌,
  ◌==◌, ltb, leb, keep, take, length, min, max,
}
use s3pgstore.Base.Orders.{nat_order, lex_order}
use s3pgstore.Base.Sorting.{sort, by}
use s3pgstore.Catalog.Tables.{FileRow, Tables}

abbrev pub seq_or_zero : Option ℕ → ℕ
seq_or_zero none = 0
seq_or_zero (some q) = q

abbrev pub seq_is : ℕ → Option ℕ → Bool
seq_is q none = false
seq_is q (some s) = s == q

abbrev pub has_seq : ℕ → FileRow → Bool
has_seq q r = seq_is q r.feed_seq

abbrev is_null : Option ℕ → Bool
is_null none = true
is_null (some q) = false

-- feed_seq IS NULL
abbrev pub unsequenced : FileRow → Bool
unsequenced r = is_null r.feed_seq

abbrev in_range : ℕ → ℕ → Option ℕ → Bool
in_range since until none = false
in_range since until (some q) = leb since q && ltb q until

abbrev pub in_window : ℕ → ℕ → FileRow → Bool
in_window since until r = in_range since until r.feed_seq

abbrev pub by_seq : FileRow → FileRow → Bool
by_seq = by nat_order (λ r. seq_or_zero r.feed_seq)

-- PollFilesSQL
unfoldable pub poll_files : ℕ → ℕ → Tables → List FileRow
poll_files since until t = sort by_seq (keep (in_window since until) t.files)

unfoldable pub max_seq : List FileRow → ℕ
max_seq [] = 0
max_seq (r ∷ rs) = max (seq_or_zero r.feed_seq) (max_seq rs)

-- OffsetLatestSQL
unfoldable pub offset_latest_sql : Tables → ℕ
offset_latest_sql t = max_seq t.files

abbrev stamped_since : ℕ → Option ℕ → Bool
stamped_since time none = false
stamped_since time (some at) = leb time at

abbrev least : Option ℕ → Option ℕ → Option ℕ
least none o = o
least (some a) none = some a
least (some a) (some b) = some (min a b)

min_seq : List FileRow → Option ℕ
min_seq [] = none
min_seq (r ∷ rs) = least r.feed_seq (min_seq rs)

-- OffsetAtSQL
unfoldable pub offset_at_sql : ℕ → Tables → Option ℕ
unfolding min_seq
offset_at_sql time t =
    min_seq (keep (λ r. not (unsequenced r) && stamped_since time r.feed_seq_at) t.files)

abbrev pub by_arrival : FileRow → FileRow → Bool
by_arrival = by (lex_order nat_order nat_order) (λ r. (r.written_at, r.file_id))

-- The CTE `numbered`: the first rows that have no feed_seq, by (written_at, file_id).
unfoldable pub numbered : ℕ → Tables → List FileRow
numbered batch t = take batch (sort by_arrival (keep unsequenced t.files))

-- The UPDATE at the row of one file_id.
unfoldable pub stamp : ℕ → ℕ → ℕ → FileRow → FileRow
stamp id seq now r =
    if r.file_id == id then record r { feed_seq = some seq; feed_seq_at = some now } else r

-- The UPDATE joined with `numbered` and `base`, whose row numbers begin at `rn`.
unfoldable pub stamp_rows : ℕ → ℕ → ℕ → List FileRow → List FileRow → List FileRow
unfolding stamp
stamp_rows base rn now [] files = files
stamp_rows base rn now (x ∷ xs) files =
    stamp_rows base (suc rn) now xs (map (stamp x.file_id (base + rn) now) files)

-- buildAssignSQL: the rows that were assigned, and the tables behind the statement.
unfoldable pub assign_feed_seq : ℕ → ℕ → Tables → ℕ × Tables
unfolding stamp_rows numbered
assign_feed_seq batch now t = (
  length (numbered batch t),
  record t { files = stamp_rows (max_seq t.files) 1 now (numbered batch t) t.files },
)
