-- ===== src/Catalog/Pending.antt =====
-- sql.go, s3pgstore_pending_writes: the rows that track objects of unfinished writes.
pub mod Rows
use s3pgstore.Base.{
  ℕ, not, Option, none, some, List, [], ◌∷◌, ◌++◌, map, if◌then◌else◌, ltb, Bytes, bytes_eq, any,
  keep, take,
}
use s3pgstore.Base.Orders.{nat_order}
use s3pgstore.Base.Sorting.{sort, by}
use s3pgstore.Catalog.Tables.{Tables}

-- PendingWriteInsertSQL; `none` is a violation of the primary key.
unfoldable pub pending_write_insert : Bytes → ℕ → Tables → Option Tables
pending_write_insert key now t =
    if any (λ r. bytes_eq r.s3_key key) t.pending_writes
    then none
    else some (record t {
      pending_writes = t.pending_writes ++ (record { s3_key = key; intended_at = now } ∷ []);
    })

-- PendingWriteDeleteSQL
unfoldable pub pending_write_delete : Bytes → Tables → Tables
pending_write_delete key t = record t {
  pending_writes = keep (λ r. not (bytes_eq r.s3_key key)) t.pending_writes;
}

-- PendingWritesScanSQL
unfoldable pub pending_writes_scan : ℕ → ℕ → Tables → List Bytes
pending_writes_scan cutoff limit t =
    map (λ r. r.s3_key)
      (take limit (
        sort (by nat_order (λ r. r.intended_at))
          (keep (λ r. ltb r.intended_at cutoff) t.pending_writes)))
