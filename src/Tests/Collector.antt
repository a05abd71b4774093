-- ===== src/Tests/Collector.antt =====
-- A pass of the collector over one orphan.
use s3pgstore.Base.{ℕ, ◌≡◌, refl, false, none, [], ◌∷◌, arith, Bytes, codes, bytes_eq_iff, length}
use s3pgstore.Base.Sorting.{sort}
use s3pgstore.Catalog.Tables.{no_tables}
use s3pgstore.Catalog.Pending.{pending_writes_scan}
use s3pgstore.Sequencer.{committed}
use s3pgstore.Store.{World, stored, filed, pending}
use s3pgstore.Write.Tracking.{IsTidy}
use s3pgstore.Gc.{Turn, deleted, Resolved, run_once_with_metrics}
use s3pgstore.Gc.Quiet.{quiet, IsSwept, run_once-quiet}
use s3pgstore.Gc.Tracking.{IsSettled, KeepsTidy, IsSpared, run_once-IsTidy}

abbrev orphan_world : World
orphan_world = record {
  tables = record no_tables {
    pending_writes = record { s3_key = codes "o"; intended_at = 3 } ∷ [];
  };
  objects = record { key = codes "o"; body = []; metadata = [] } ∷ [];
  delivered = [];
}

abbrev quiet_turn : ℕ → Turn
quiet_turn n = record { meanwhile = λ w. w; is_done = false; deletion = deleted; row = committed }

abbrev short_grace : Resolved
short_grace = record {
  schema_name = codes "public";
  table_prefix = codes "s3pgstore_";
  grace = 5;
  interval = 1;
  batch_size = 10;
}

orphan_world-IsTidy : IsTidy orphan_world
unfolding IsTidy stored filed pending
orphan_world-IsTidy j = ground (arith, bytes_eq_iff (codes "o") j)

orphan_world-IsSettled : IsSettled orphan_world
unfolding IsSettled filed
orphan_world-IsSettled j h = refl

quiet_turn-KeepsTidy : (n : ℕ) → KeepsTidy (quiet_turn n).meanwhile
unfolding KeepsTidy
quiet_turn-KeepsTidy n w tidy = tidy

quiet_turn-IsSpared : (k : Bytes) → IsSpared quiet_turn k
unfolding IsSpared
quiet_turn-IsSpared k n w h = h

orphan_reclaimed :
    (run_once_with_metrics false quiet_turn short_grace 20 orphan_world).0 ≡ (1, none)
unfolding run_once_with_metrics pending_writes_scan sort
orphan_reclaimed = refl

run_once-IsTidy_example :
    IsTidy (run_once_with_metrics false quiet_turn short_grace 20 orphan_world).1
unfolding pending_writes_scan sort
run_once-IsTidy_example =
    run_once-IsTidy false quiet_turn short_grace 20 orphan_world orphan_world-IsTidy
      orphan_world-IsSettled quiet_turn-KeepsTidy (quiet_turn-IsSpared (codes "o"), tt)

run_once-quiet_example :
    ((run_once_with_metrics false (λ _. quiet) short_grace 20 orphan_world).0
      ≡ (length (pending_writes_scan 15 10 orphan_world.tables), none))
    × IsSwept
        (pending_writes_scan 15 10 orphan_world.tables)
        orphan_world
        (run_once_with_metrics false (λ _. quiet) short_grace 20 orphan_world).1
run_once-quiet_example = run_once-quiet short_grace 20 orphan_world
