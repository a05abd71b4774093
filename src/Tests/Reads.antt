-- ===== src/Tests/Reads.antt =====
-- Polls, waits and the newest records of a read.
use s3pgstore.Base.{
  ◌^◌, ◌≡◌, refl, true, false, ◌==◌, some, List, [], ◌∷◌, map, arith, Bytes, codes, ok, bytes_ltb,
  bytes_eq,
}
use s3pgstore.Base.Int.{ℤ, pos, int_ltb}
use s3pgstore.Base.Sorting.{sort}
use s3pgstore.Catalog.Tables.{Tables, no_tables}
use s3pgstore.Catalog.Feed.Stamps.{IsDense}
use s3pgstore.Store.{FileRef}
use s3pgstore.Dedup.{sort_and_dedup}
use s3pgstore.Dedup.Latest.{AreNewest, sort_and_dedup-AreNewest}
use s3pgstore.Poll.{poll, next_tail_backoff}
use s3pgstore.Poll.Backoff.{next_tail_backoff-min, next_tail_backoff_zero}
use s3pgstore.Poll.Window.{poll-IsDense}
use s3pgstore.Tests.{toy_store, new_row}

abbrev pub one_numbered : Tables
one_numbered = record no_tables {
  files = record new_row { feed_seq = some 1; feed_seq_at = some 9 } ∷ [];
}

pub one_numbered-IsDense : IsDense 1 one_numbered.files
one_numbered-IsDense q = ground arith

poll-IsDense_example :
    (refs : List FileRef) × (poll false toy_store 1 10 one_numbered ≡ (ok refs, 2))
    × (map (λ f. f.offset) refs ≡ 1 ∷ [])
poll-IsDense_example =
    poll-IsDense toy_store 1 10 1 one_numbered (omega arith) (omega arith) one_numbered-IsDense

next_tail_backoff-min_example : next_tail_backoff 4 100 2000 ≡ 800
next_tail_backoff-min_example =
    next_tail_backoff-min 4 100 2000 (omega arith) (omega arith) (omega arith) (omega arith)

next_tail_backoff_zero_example : (next_tail_backoff 29 68719476736 (2 ^ 40) == 0) ≡ true
next_tail_backoff_zero_example =
    next_tail_backoff_zero 29 68719476736 (2 ^ 40) (omega arith) (omega arith)

abbrev toy_records : List (Bytes × ℤ)
toy_records = (codes "b", pos 1) ∷ (codes "a", pos 1) ∷ (codes "b", pos 2) ∷ []

newest_records :
    sort_and_dedup (some (λ (r : Bytes × ℤ). r.0)) (some (λ r. r.1)) false toy_records
    ≡ (codes "a", pos 1) ∷ (codes "b", pos 2) ∷ []
unfolding sort_and_dedup sort bytes_ltb int_ltb bytes_eq
newest_records = refl

sort_and_dedup-AreNewest_example :
    AreNewest
      (λ (r : Bytes × ℤ). r.0)
      (λ r. r.1)
      toy_records
      (sort_and_dedup (some (λ (r : Bytes × ℤ). r.0)) (some (λ r. r.1)) false toy_records)
sort_and_dedup-AreNewest_example = sort_and_dedup-AreNewest (λ r. r.0) (λ r. r.1) toy_records
