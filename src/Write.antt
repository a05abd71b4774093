-- ===== src/Write.antt =====
-- write.go, write_options.go, idempotency.go: the write of one partition, WriteWithKey and
-- LookupByToken. What other processes do in between, and which calls fail, is an argument.
pub mod Tx
pub mod Occ
mod Body
pub mod Tracking
mod Found
pub mod Retry
pub mod Ends
use s3pgstore.Base.{
  ℕ, zero, suc, Bool, true, false, not, Option, none, some, List, [], ◌∷◌, ◌++◌, if◌then◌else◌,
  Bytes, codes, length, Result, ok, err,
}
use s3pgstore.Base.Int.{ℤ}
use s3pgstore.Metadata.Values.{Meta, ExtensionColumn}
use s3pgstore.Metadata.Check.{CheckError, validate_metadata}
use s3pgstore.Catalog.Tables.{Tables}
use s3pgstore.Catalog.Files.{idempotency_lookup}
use s3pgstore.Catalog.Pending.{pending_write_insert, pending_write_delete}
use s3pgstore.Partition.{PartitionError, partition_key_values}
use s3pgstore.Store.{Store, World, FileRef, file_ref_of, data_key}
use s3pgstore.Write.Tx.{
  TxError, version_conflict, token_race_lost, TxFaults, TxInput, ViewRows, Outcome, run_in_tx,
  tx_body,
}

pub data WriteError : Type 0 where
  exclusive_options empty_records empty_key empty_token : WriteError
  token_failed lookup_failed views_failed encode_failed uuid_failed pending_failed : WriteError
  relookup_failed race_vanished conflict : WriteError
  bad_metadata : CheckError → WriteError
  bad_partition_key : PartitionError → WriteError
  catalog_tx : TxError → WriteError

module _ (T : Type 0) where
  -- The options as the caller gives them; `token_of` is WithIdempotencyTokenOf, `none` its error.
  pub record Options : Type 0 where
    pub idempotency_token : Option Bytes
    pub token_of : Option (List T → Option Bytes)
    pub expected_version : Option ℤ
    pub metadata : Meta

  -- The surroundings of one write: the third-party encoder, the views' rows, the UUID, the calls
  -- that fail, and what others commit before the transaction and before a lookup after it.
  pub record Faults : Type 0 where
    pub lookup_fails : Bool
    pub view_rows : List T → Option (List ViewRows)
    pub encode : List T → Option (Bytes × ℕ)
    pub uuid : Option Bytes
    pub pending_fails : Bool
    pub pending_unseen : Bool
    pub pending_at : ℕ
    pub before_tx : World → World
    pub tx : TxFaults
    pub cleanup_fails : Bool
    pub after_tx : World → World
    pub relookup_fails : Bool

-- resolveWriteOpts
unfoldable pub resolve_write_opts : {T : Type 0} → Store → Options T → Result WriteError (Options T)
resolve_write_opts store o = elim o.token_of [
  | none ↦ elim (validate_metadata o.metadata store.exts) [
    | ok _ ↦ ok o
    | err e ↦ err (bad_metadata e)
  ]
  | some fn ↦ elim o.idempotency_token [
    | some token ↦ err exclusive_options
    | none ↦ elim (validate_metadata o.metadata store.exts) [
      | ok _ ↦ ok o
      | err e ↦ err (bad_metadata e)
    ]
  ]
]

-- resolveTokenForPartition: an empty token is none.
unfoldable pub resolve_token : {T : Type 0} → Options T → List T → Option Bytes
resolve_token o records = elim o.idempotency_token [
  | some token ↦ some token
  | none ↦ elim o.token_of [ none ↦ some [] | some fn ↦ fn records ]
]

-- lookupTokenFileRef
unfoldable pub lookup_token_file_ref :
    Bool → Store → Bytes → Bytes → World → Option (Option FileRef)
unfolding file_ref_of
lookup_token_file_ref fails store key token w =
    if fails
    then none
    else some (elim (idempotency_lookup key token w.tables) [
      | none ↦ none
      | some r ↦ some (file_ref_of store.exts r)
    ])

-- insertPendingWriteDetachedTx
unfoldable pub insert_pending_detached : Bool → Bytes → ℕ → World → Option World
insert_pending_detached fails key at w =
    if fails then none else elim (pending_write_insert key at w.tables) [
      | none ↦ none
      | some t ↦ some (record w { tables = t })
    ]

-- The insert of the tracking row is reported as failed: it may have taken effect unseen.
unfoldable pub pending_after_failure : Bool → Bytes → ℕ → World → World
unfolding insert_pending_detached
pending_after_failure unseen key at w =
    if unseen then elim (insert_pending_detached false key at w) [ none ↦ w | some w' ↦ w' ] else w

-- deletePendingWriteDetachedTx: best effort.
unfoldable pub delete_pending_detached : Bool → Bytes → World → World
delete_pending_detached fails key w =
    if fails then w else record w { tables = pending_write_delete key w.tables }

-- translateWriteTxErr
unfoldable pub translate_write_tx_err :
    Bool → Store → TxError → Bytes → Bytes → World → Result WriteError FileRef
unfolding lookup_token_file_ref
translate_write_tx_err fails store token_race_lost key token w =
    elim (lookup_token_file_ref fails store key token w) [
      | none ↦ err relookup_failed
      | some none ↦ err race_vanished
      | some (some ref) ↦ ok ref
    ]
translate_write_tx_err fails store version_conflict key token w = err conflict
translate_write_tx_err fails store e key token w = err (catalog_tx e)

abbrev pub written_ref : TxInput → ℕ → ℕ → ℕ → FileRef
written_ref i version file_id written_at = record {
  file_id = file_id;
  partition_key = i.partition_key;
  s3_key = i.s3_key;
  version = version;
  written_at = written_at;
  file_size = length i.body;
  uncompressed_size = i.uncompressed_size;
  record_count = i.record_count;
  offset = 0;
  extensions = i.metadata;
}

module _ {T : Type 0} (store : Store) (f : Faults T) where
  -- Step 7: the result of the transaction, or the cleanup and the translation of its error.
  unfoldable pub conclude : TxInput → Outcome (ℕ × ℕ × ℕ) → Result WriteError FileRef × World
  unfolding delete_pending_detached
  conclude i (ok (version, file_id, written_at), attempted, w) =
      (ok (written_ref i version file_id written_at), w)
  conclude i (err e, attempted, w) =
      let cleaned = if attempted then w else delete_pending_detached f.cleanup_fails i.s3_key w in
      let later = f.after_tx cleaned in
      (translate_write_tx_err f.relookup_fails store e i.partition_key i.token later, later)

  -- Steps 5 to 7, from the tracking row on.
  unfoldable pub write_tracked : TxInput → World → Result WriteError FileRef × World
  unfolding conclude insert_pending_detached pending_after_failure
  write_tracked i w = elim (insert_pending_detached f.pending_fails i.s3_key f.pending_at w) [
    | none ↦ (err pending_failed, pending_after_failure f.pending_unseen i.s3_key f.pending_at w)
    | some w' ↦ conclude i (run_in_tx f.tx (tx_body f.tx store i) (f.before_tx w'))
  ]

  abbrev pub tx_input :
      Options T → Bytes → List Bytes → Bytes → List T → List ViewRows → Bytes × ℕ → Bytes → TxInput
  tx_input o key values token records views encoded uuid = record {
    partition_key = key;
    part_values = values;
    expected_version = o.expected_version;
    s3_key = data_key store.s3_prefix key uuid;
    body = encoded.0;
    uncompressed_size = encoded.1;
    record_count = length records;
    token = token;
    metadata = o.metadata;
    views = views;
  }

  -- Steps 2 to 4: what is prepared before anything is written.
  unfoldable pub write_fresh :
      Options T → Bytes → List Bytes → Bytes → List T → World → Result WriteError FileRef × World
  unfolding write_tracked
  write_fresh o key values token records w = elim (f.view_rows records) [
    | none ↦ (err views_failed, w)
    | some views ↦ elim (f.encode records) [
      | none ↦ (err encode_failed, w)
      | some encoded ↦ elim f.uuid [
        | none ↦ (err uuid_failed, w)
        | some uuid ↦ write_tracked (tx_input o key values token records views encoded uuid) w
      ]
    ]
  ]

  -- Step 1: the short-circuit on a token that has a row.
  unfoldable pub write_with_token :
      Options T → Bytes → List Bytes → Bytes → List T → World → Result WriteError FileRef × World
  unfolding write_fresh
  write_with_token o key values [] records w = write_fresh o key values [] records w
  write_with_token o key values (c ∷ token) records w =
      elim (lookup_token_file_ref f.lookup_fails store key (c ∷ token) w) [
        | none ↦ (err lookup_failed, w)
        | some (some ref) ↦ (ok ref, w)
        | some none ↦ write_fresh o key values (c ∷ token) records w
      ]

  -- writePartition
  unfoldable pub write_partition :
      Options T → Bytes → List Bytes → List T → World → Result WriteError FileRef × World
  unfolding write_with_token resolve_token
  write_partition o key values records w = elim (resolve_token o records) [
    | none ↦ (err token_failed, w)
    | some token ↦ write_with_token o key values token records w
  ]

  -- WriteWithKey
  unfoldable pub write_with_key :
      Options T → Bytes → List T → World → Result WriteError FileRef × World
  unfolding write_partition resolve_write_opts
  write_with_key o key [] w = (err empty_records, w)
  write_with_key o key (r ∷ records) w = elim (partition_key_values key store.parts) [
    | err e ↦ (err (bad_partition_key e), w)
    | ok values ↦ elim (resolve_write_opts store o) [
      | err e ↦ (err e, w)
      | ok o' ↦ write_partition o' key values (r ∷ records) w
    ]
  ]

-- LookupByToken
unfoldable pub lookup_by_token :
    Bool → Store → Bytes → Bytes → World → Result WriteError (Option FileRef)
unfolding lookup_token_file_ref
lookup_by_token fails store [] token w = err empty_key
lookup_by_token fails store (c ∷ key) [] w = err empty_token
lookup_by_token fails store (c ∷ key) (d ∷ token) w =
    elim (partition_key_values (c ∷ key) store.parts) [
      | err e ↦ err (bad_partition_key e)
      | ok values ↦ elim (lookup_token_file_ref fails store (c ∷ key) (d ∷ token) w) [
        | none ↦ err lookup_failed
        | some hit ↦ ok hit
      ]
    ]
