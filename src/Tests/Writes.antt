-- ===== src/Tests/Writes.antt =====
-- Writes on an empty store.
use s3pgstore.Base.{
  ◌+◌, if◌then◌else◌, ◌≡◌, refl, true, some, none, List, [], ◌∷◌, arith, Bytes, codes, ok, bytes_eq,
}
use s3pgstore.Base.Int.{pos}
use s3pgstore.Catalog.Tables.{Tables, no_tables}
use s3pgstore.Catalog.Partitions.{version_of, partition_upsert, partition_update_occ}
use s3pgstore.Store.{World, FileRef, stored, filed}
use s3pgstore.Write.Tx.{
  put_ok, put_refused, put_stored_unseen, upsert_statement, tx_body, run_in_tx,
}
use s3pgstore.Catalog.Files.{idempotency_lookup, files_insert}
use s3pgstore.Catalog.Pending.{pending_write_insert}
use s3pgstore.Metadata.Bag.{build_s3_metadata}
use s3pgstore.Metadata.Values.{metadata_value_for}
use s3pgstore.Base.Decimal.{format_int}
use s3pgstore.Write.{written_ref, tx_input, write_partition, lookup_token_file_ref, resolve_token}
use s3pgstore.Write.Occ.{accepts, upsert_statement-version_of, upsert_statement_exclusive}
use s3pgstore.Write.Tracking.{IsTidy, IsPolite, write_partition-IsTidy}
use s3pgstore.Write.Retry.{IsSameFile, write_partition-retry}
use s3pgstore.Write.Ends.{write_partition-filed}
use s3pgstore.Tests.{toy_store, toy_options, quiet_faults, empty_world}

abbrev key : Bytes
key = codes "day=1"

abbrev token : Bytes
token = codes "t"

empty_world-IsTidy : IsTidy empty_world
unfolding IsTidy stored filed
empty_world-IsTidy j = ground arith

idle-IsPolite : (k : Bytes) → IsPolite k (λ w. w)
unfolding IsPolite
idle-IsPolite k w tidy own = (tidy, own)

-- A write whose PUT is stored but reported as failed.
write_partition-IsTidy_example :
    IsTidy
      (write_partition toy_store
        (quiet_faults put_stored_unseen)
        (toy_options token)
        key
        (codes "1" ∷ [])
        (3 ∷ [])
        empty_world).1
write_partition-IsTidy_example =
    write_partition-IsTidy toy_store (quiet_faults put_stored_unseen) (toy_options token) key
      (codes "1" ∷ []) (3 ∷ []) empty_world empty_world-IsTidy (λ uuid e. idle-IsPolite _)
      (λ v tidy. tidy)

abbrev first_ref : FileRef
first_ref =
    written_ref
      (tx_input toy_store (quiet_faults put_ok) (toy_options token) key (codes "1" ∷ []) token
        (3 ∷ []) [] (1 ∷ 2 ∷ [], 5) (codes "u"))
      1 1 7

abbrev after_first : World
after_first =
    (write_partition toy_store (quiet_faults put_ok) (toy_options token) key (codes "1" ∷ [])
      (3 ∷ []) empty_world).1

first_write :
    write_partition toy_store
      (quiet_faults put_ok)
      (toy_options token)
      key
      (codes "1" ∷ [])
      (3 ∷ [])
      empty_world
    ≡ (ok first_ref, after_first)
unfolding write_partition lookup_token_file_ref idempotency_lookup pending_write_insert run_in_tx
    tx_body partition_upsert files_insert build_s3_metadata metadata_value_for format_int
first_write = refl

write_partition-filed_example : filed first_ref.s3_key after_first.tables ≡ true
write_partition-filed_example =
    write_partition-filed toy_store (quiet_faults put_ok) (toy_options token) key (codes "1" ∷ [])
      (3 ∷ []) empty_world after_first first_ref first_write

write_partition-retry_example :
    (hit : FileRef) × (write_partition toy_store
        (quiet_faults put_refused)
        (toy_options token)
        key
        (codes "1" ∷ [])
        (4 ∷ [])
        after_first
      ≡ (ok hit, after_first))
    × IsSameFile hit first_ref
unfolding resolve_token
write_partition-retry_example =
    write_partition-retry toy_store (quiet_faults put_ok) (quiet_faults put_refused)
      (toy_options token) (toy_options token) key (codes "1" ∷ []) (3 ∷ []) (4 ∷ []) empty_world
      after_first first_ref b't' [] refl refl refl first_write

abbrev one_upsert : Tables
one_upsert = (upsert_statement none key (codes "1" ∷ []) 7 no_tables).1

upsert_statement-version_of_example :
    ((upsert_statement (some (pos 1)) key (codes "1" ∷ []) 8 one_upsert).0 ≡ (
      if accepts (some (pos 1)) (version_of key one_upsert)
      then some (version_of key one_upsert + 1)
      else none))
    × (version_of
          (codes "day=2")
          (upsert_statement (some (pos 1)) key (codes "1" ∷ []) 8 one_upsert).1
        ≡ (if accepts (some (pos 1)) (version_of key one_upsert)
            then (if bytes_eq key (codes "day=2")
                then version_of key one_upsert + 1
                else version_of (codes "day=2") one_upsert)
            else version_of (codes "day=2") one_upsert))
upsert_statement-version_of_example =
    upsert_statement-version_of (some (pos 1)) key (codes "1" ∷ []) 8 one_upsert (codes "day=2")

upsert_statement_exclusive_example :
    (upsert_statement
      (some (pos 1))
      key
      (codes "1" ∷ [])
      9
      (upsert_statement (some (pos 1)) key (codes "1" ∷ []) 8 one_upsert).1).0
    ≡ none
unfolding upsert_statement partition_upsert partition_update_occ version_of bytes_eq
upsert_statement_exclusive_example =
    upsert_statement_exclusive (pos 1) key (codes "1" ∷ []) (codes "1" ∷ []) 8 9 2 one_upsert
      (upsert_statement (some (pos 1)) key (codes "1" ∷ []) 8 one_upsert).1 refl (omega arith)

abbrev two_and_one : List (List Bytes)
two_and_one = (codes "a" ∷ []) ∷ (codes "b" ∷ []) ∷ (codes "a" ∷ []) ∷ []
