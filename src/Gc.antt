-- ===== src/Gc.antt =====
-- gc/gc.go: the process that reclaims the objects of writes that never finished.
pub mod Tracking
pub mod Quiet
use s3pgstore.Base.{
  ℕ, zero, suc, ◌+◌, ◌-◌, Bool, true, false, ◌&&◌, not, Option, none, some, List, [], ◌∷◌, ◌++◌,
  if◌then◌else◌, Bytes, bytes_eq, codes, keep, Result, ok, err,
}
use s3pgstore.Base.Int.{ℤ}
use s3pgstore.Base.Defaults.{or_default, positive_or}
use s3pgstore.Catalog.Tables.{Tables}
use s3pgstore.Catalog.Pending.{pending_write_delete, pending_writes_scan}
use s3pgstore.Sequencer.{TxOutcome, committed, rolled_back, committed_unseen}
use s3pgstore.Store.{World}

-- Durations in nanoseconds; the two tests are false for a nil pool or client.
pub record Config : Type 0 where
  pub has_pool : Bool
  pub has_s3_client : Bool
  pub s3_bucket : Bytes
  pub schema_name : Bytes
  pub table_prefix : Bytes
  pub grace : ℤ
  pub interval : ℤ
  pub batch_size : ℤ

abbrev pub default_grace : ℕ
default_grace = 86400000000000

abbrev pub default_interval : ℕ
default_interval = 3600000000000

abbrev pub default_batch_size : ℕ
default_batch_size = 1000

pub record Resolved : Type 0 where
  pub schema_name : Bytes
  pub table_prefix : Bytes
  pub grace : ℕ
  pub interval : ℕ
  pub batch_size : ℕ

unfoldable pub resolved : Config → Resolved
resolved c = record {
  schema_name = or_default c.schema_name (codes "public");
  table_prefix = or_default c.table_prefix (codes "s3pgstore_");
  grace = positive_or c.grace default_grace;
  interval = positive_or c.interval default_interval;
  batch_size = positive_or c.batch_size default_batch_size;
}

pub data GcError : Type 0 where
  pool_required client_required bucket_required metrics_failed scan_failed cancelled : GcError

abbrev check_bucket : Bytes → Result GcError (Unit {0})
check_bucket [] = err bucket_required
check_bucket (c ∷ bucket) = ok tt

unfoldable pub validate : Config → Result GcError (Unit {0})
validate c =
    if not c.has_pool
    then err pool_required
    else if not c.has_s3_client
    then err client_required
    else check_bucket c.s3_bucket

-- A DELETE removes the object, or fails; a failed one may have removed it.
pub data Deletion : Type 0 where
  deleted refused deleted_unseen : Deletion

-- What happens around one key: what others do first, whether the context is done by then, and how
-- the DELETE and the transaction that deletes the row end.
pub record Turn : Type 0 where
  pub meanwhile : World → World
  pub is_done : Bool
  pub deletion : Deletion
  pub row : TxOutcome

-- DeleteObject
unfoldable pub delete_object : Bytes → World → World
delete_object key w = record w { objects = keep (λ o. not (bytes_eq o.key key)) w.objects }

-- The transaction of reclaimOne; the flag says whether it returned no error.
unfoldable pub delete_row : TxOutcome → Bytes → World → Bool × World
delete_row committed key w = (true, record w { tables = pending_write_delete key w.tables })
delete_row rolled_back key w = (false, w)
delete_row committed_unseen key w = (false, record w { tables = pending_write_delete key w.tables })

-- reclaimOne: the object first, its row after it.
unfoldable pub reclaim_one : Deletion → TxOutcome → Bytes → World → Bool × World
unfolding delete_object delete_row
reclaim_one deleted row key w = delete_row row key (delete_object key w)
reclaim_one refused row key w = (false, w)
reclaim_one deleted_unseen row key w = (false, delete_object key w)

-- The loop over the scanned keys; a key that fails is skipped. The number is the reclaimed ones.
unfoldable pub reclaim_all : (ℕ → Turn) → List Bytes → ℕ → World → (ℕ × Option GcError) × World
unfolding reclaim_one
reclaim_all turn [] reclaimed w = ((reclaimed, none), w)
reclaim_all turn (key ∷ keys) reclaimed w =
    if (turn 0).is_done
    then ((reclaimed, some cancelled), (turn 0).meanwhile w)
    else (let one = reclaim_one (turn 0).deletion (turn 0).row key ((turn 0).meanwhile w) in
        reclaim_all (λ n. turn (n + 1)) keys (if one.0 then reclaimed + 1 else reclaimed) one.1)

-- runOnceWithMetrics, at a time: the scan, which may fail, and the loop.
unfoldable pub run_once_with_metrics :
    Bool → (ℕ → Turn) → Resolved → ℕ → World → (ℕ × Option GcError) × World
unfolding reclaim_all
run_once_with_metrics scan_fails turn r now w =
    if scan_fails
    then ((0, some scan_failed), w)
    else reclaim_all turn (pending_writes_scan (now - r.grace) r.batch_size w.tables) 0 w

-- RunOnce
unfoldable pub run_once :
    Bool → Bool → (ℕ → Turn) → Config → ℕ → World → (ℕ × Option GcError) × World
unfolding run_once_with_metrics validate resolved
run_once metrics_fail scan_fails turn c now w = elim (validate c) [
  | err e ↦ ((0, some e), w)
  | ok _ ↦
      if metrics_fail
      then ((0, some metrics_failed), w)
      else run_once_with_metrics scan_fails turn (resolved c) now w
]
