-- ===== src/Write/Occ.antt =====
-- WithExpectedVersion of write.go: upsertPartition against the versions of the partitions.
use s3pgstore.Base.{
  ℕ, zero, suc, ◌+◌, ◌≤◌, ◌≡◌, Bool, true, false, Option, none, some, List, if◌then◌else◌, ◌==◌,
  arith, Bytes, bytes_eq, bytes_eq_refl,
}
use s3pgstore.Base.Int.{ℤ, pos, negsuc}
use s3pgstore.Catalog.Tables.{Tables}
use s3pgstore.Catalog.Partitions.{version_of}
use s3pgstore.Catalog.Partitions.Versions.{
  partition_upsert-version_of, partition_update_occ-version_of,
}
use s3pgstore.Write.Tx.{upsert_statement}

-- The expected versions that a partition's version satisfies; a negative one stands for 0.
unfoldable pub accepts : Option ℤ → ℕ → Bool
accepts none version = true
accepts (some (pos n)) version = version == n
accepts (some (negsuc n)) version = version == 0

-- The statement that upsertPartition runs, for every form of the expected version: it returns the
-- partition's version plus one when the expected version is absent or is the partition's (a
-- negative one stands for 0), and no row otherwise; the partition's version afterwards is the one
-- returned, and stays with no row; every other partition keeps its version.
pub upsert_statement-version_of :
    (e : Option ℤ) (key : Bytes) (values : List Bytes) (now : ℕ) (t : Tables) (j : Bytes)
    → (upsert_statement e key values now t).0
        ≡ (if accepts e (version_of key t) then some (version_of key t + 1) else none)
      × (version_of j (upsert_statement e key values now t).1 ≡ (
          if accepts e (version_of key t)
          then (if bytes_eq key j then version_of key t + 1 else version_of j t)
          else version_of j t))
unfolding accepts upsert_statement
upsert_statement-version_of none key values now t j =
    ground (arith, partition_upsert-version_of false key values now t j)
upsert_statement-version_of (some (pos zero)) key values now t j =
    ground (arith, partition_upsert-version_of true key values now t j)
upsert_statement-version_of (some (pos (suc n))) key values now t j =
    ground (arith, partition_update_occ-version_of key n now t j)
upsert_statement-version_of (some (negsuc n)) key values now t j =
    ground (arith, partition_upsert-version_of true key values now t j)

-- Of two writers that expect the same version of a partition, once one has had its version, the
-- other gets no row, in any tables where the partition's version has not gone back since.
pub upsert_statement_exclusive :
    (z : ℤ) (key : Bytes) (values values' : List Bytes) (now now' version : ℕ) (t t' : Tables)
    → (upsert_statement (some z) key values now t).0 ≡ some version
    → version_of key (upsert_statement (some z) key values now t).1 ≤ version_of key t'
    → (upsert_statement (some z) key values' now' t').0 ≡ none
unfolding accepts
upsert_statement_exclusive (pos n) key values values' now now' version t t' won later = ground (
  arith,
  upsert_statement-version_of (some (pos n)) key values now t key,
  upsert_statement-version_of (some (pos n)) key values' now' t' key,
  bytes_eq_refl key,
)
upsert_statement_exclusive (negsuc n) key values values' now now' version t t' won later = ground (
  arith,
  upsert_statement-version_of (some (negsuc n)) key values now t key,
  upsert_statement-version_of (some (negsuc n)) key values' now' t' key,
  bytes_eq_refl key,
)
