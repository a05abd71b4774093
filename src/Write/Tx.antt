-- ===== src/Write/Tx.antt =====
-- The wrapping transaction of writePartition: its steps, and Executor.RunInTx of executor.go.
pub mod Chunks
use s3pgstore.Base.{
  ℕ, zero, suc, Bool, true, false, Option, none, some, List, [], ◌∷◌, ◌++◌, map, if◌then◌else◌,
  Bytes, length, take, drop, Result, ok, err,
}
use s3pgstore.Base.Int.{ℤ, pos, negsuc}
use s3pgstore.Base.Dict.{Dict}
use s3pgstore.Metadata.Values.{Meta, metadata_value_for}
use s3pgstore.Metadata.Bag.{BagError, build_s3_metadata}
use s3pgstore.Catalog.Tables.{Tables}
use s3pgstore.Catalog.Partitions.{partition_upsert, partition_update_occ}
use s3pgstore.Catalog.Files.{NewFile, files_insert}
use s3pgstore.Catalog.Pending.{pending_write_delete}
use s3pgstore.Catalog.Views.{mv_insert}
use s3pgstore.Sequencer.{TxOutcome, committed, rolled_back, committed_unseen}
use s3pgstore.Store.{Store, Object, World}

pub data TxError : Type 0 where
  version_conflict token_race_lost : TxError
  begin_failed upsert_failed insert_failed put_failed delete_failed views_failed notify_failed
        commit_failed :
      TxError
  bad_bag : BagError → TxError

-- A PUT stores the object, or fails; a failed one may have stored it.
pub data PutOutcome : Type 0 where
  put_ok put_refused put_stored_unseen : PutOutcome

-- Which calls of the transaction fail, and the server's clock.
pub record TxFaults : Type 0 where
  pub begin_fails : Bool
  pub upsert_fails : Bool
  pub insert_fails : Bool
  pub put : PutOutcome
  pub delete_fails : Bool
  pub views_fail : Bool
  pub notify_fails : Bool
  pub commit : TxOutcome
  pub now : ℕ

-- What the transaction works on: its view of the tables, the bucket, the flag `s3PutAttempted` and
-- the notifications queued for the commit.
pub record TxState : Type 0 where
  pub tables : Tables
  pub objects : List Object
  pub put_attempted : Bool
  pub queued : List Bytes

abbrev pub TxM : Type 0 → Type 0
TxM A = TxState → Result TxError A × TxState

abbrev pub proceed :
    {A B : Type 0} → Result TxError A × TxState → (A → TxM B) → Result TxError B × TxState
proceed (ok a, s) f = f a s
proceed (err e, s) f = (err e, s)

infixl 5 ◌>>=◌ ◌>>◌
abbrev pub ◌>>=◌ : {A B : Type 0} → TxM A → (A → TxM B) → TxM B
◌>>=◌ m f s = proceed (m s) f

abbrev pub ◌>>◌ : {A B : Type 0} → TxM A → TxM B → TxM B
m >> n = m >>= λ _. n

-- The rows that resolveMVRows makes for one view.
pub record ViewRows : Type 0 where
  pub name : Bytes
  pub rows : List (List Bytes)

-- All that the transaction of one write is given.
pub record TxInput : Type 0 where
  pub partition_key : Bytes
  pub part_values : List Bytes
  pub expected_version : Option ℤ
  pub s3_key : Bytes
  pub body : Bytes
  pub uncompressed_size : ℕ
  pub record_count : ℕ
  pub token : Bytes
  pub metadata : Meta
  pub views : List ViewRows

-- The version that a statement returned; no row means that a condition did not hold.
unfoldable pub returned : TxError → Option ℕ × Tables → TxM ℕ
returned e (none, t) s = (err e, record s { tables = t })
returned e (some version, t) s = (ok version, record s { tables = t })

-- upsertPartition: a positive expected version goes to the compare-and-swap update; any other
-- expected version gates the upsert on version 0.
unfoldable pub upsert_statement : Option ℤ → Bytes → List Bytes → ℕ → Tables → Option ℕ × Tables
upsert_statement none key part_values now t = partition_upsert false key part_values now t
upsert_statement (some (pos (suc n))) key part_values now t = partition_update_occ key (suc n) now t
upsert_statement (some (pos zero)) key part_values now t =
    partition_upsert true key part_values now t
upsert_statement (some (negsuc n)) key part_values now t =
    partition_upsert true key part_values now t

abbrev pub no_row_error : Option ℤ → TxError
no_row_error none = upsert_failed
no_row_error (some z) = version_conflict

unfoldable pub upsert_partition : TxFaults → TxInput → TxM ℕ
unfolding returned upsert_statement
upsert_partition f i s =
    if f.upsert_fails
    then (err upsert_failed, s)
    else returned (no_row_error i.expected_version)
        (upsert_statement i.expected_version i.partition_key i.part_values f.now s.tables) s

-- nullableString
abbrev pub nullable_string : Bytes → Option Bytes
nullable_string [] = none
nullable_string (c ∷ s) = some (c ∷ s)

abbrev pub violation_error : Bytes → TxError
violation_error [] = insert_failed
violation_error (c ∷ s) = token_race_lost

unfoldable pub inserted : TxError → Option (ℕ × ℕ) × Tables → TxM (ℕ × ℕ)
inserted e (none, t) s = (err e, record s { tables = t })
inserted e (some row, t) s = (ok row, record s { tables = t })

abbrev pub new_file : Store → TxInput → ℕ → NewFile
new_file store i version = record {
  partition_key = i.partition_key;
  s3_key = i.s3_key;
  version = version;
  file_size = length i.body;
  uncompressed_size = i.uncompressed_size;
  record_count = i.record_count;
  token = nullable_string i.token;
  part_values = i.part_values;
  ext_values = map (metadata_value_for i.metadata) store.exts;
}

-- insertFile: a unique violation is a lost race if the write has a token.
unfoldable pub insert_file : TxFaults → Store → TxInput → ℕ → TxM (ℕ × ℕ)
unfolding inserted
insert_file f store i version s =
    if f.insert_fails
    then (err insert_failed, s)
    else inserted (violation_error i.token) (files_insert (new_file store i version) f.now s.tables)
        s

unfoldable pub bag : Result BagError (Dict Bytes) → TxM (Dict Bytes)
bag (ok md) s = (ok md, s)
bag (err e) s = (err (bad_bag e), s)

-- `s3PutAttempted` is set before the call, whatever becomes of it.
unfoldable pub put_object : PutOutcome → Object → TxM Unit
put_object put_ok o s = (ok tt, record s { objects = s.objects ++ (o ∷ []); put_attempted = true })
put_object put_refused o s = (err put_failed, record s { put_attempted = true })
put_object put_stored_unseen o s =
    (err put_failed, record s { objects = s.objects ++ (o ∷ []); put_attempted = true })

unfoldable pub delete_pending : TxFaults → Bytes → TxM Unit
delete_pending f key s =
    if f.delete_fails
    then (err delete_failed, s)
    else (ok tt, record s { tables = pending_write_delete key s.tables })

abbrev pub mv_insert_chunk_size : ℕ
mv_insert_chunk_size = 50000

-- The loop over the chunks of one view's rows; as much fuel as there are rows is enough.
unfoldable pub insert_chunks : ℕ → ℕ → Bytes → List (List Bytes) → Tables → Tables
insert_chunks fuel size name [] t = t
insert_chunks zero size name (row ∷ rows) t = t
insert_chunks (suc fuel) size name (row ∷ rows) t =
    insert_chunks fuel size name (drop size (row ∷ rows))
      (mv_insert name (take size (row ∷ rows)) t)

-- The loop over the views.
unfoldable pub insert_view_rows : List ViewRows → Tables → Tables
unfolding insert_chunks
insert_view_rows [] t = t
insert_view_rows (v ∷ views) t =
    insert_view_rows views (insert_chunks (length v.rows) mv_insert_chunk_size v.name v.rows t)

-- insertMVRows
unfoldable pub insert_mv_rows : TxFaults → List ViewRows → TxM Unit
unfolding insert_view_rows
insert_mv_rows f views s =
    if f.views_fail
    then (err views_failed, s)
    else (ok tt, record s { tables = insert_view_rows views s.tables })

-- notifySequencer: an empty channel is no notification.
unfoldable pub notify_sequencer : TxFaults → Bytes → TxM Unit
notify_sequencer f [] s = (ok tt, s)
notify_sequencer f (c ∷ channel) s =
    if f.notify_fails
    then (err notify_failed, s)
    else (ok tt, record s { queued = s.queued ++ ((c ∷ channel) ∷ []) })

-- The body of the transaction: the version, the file id and the time of the row.
unfoldable pub tx_body : TxFaults → Store → TxInput → TxM (ℕ × ℕ × ℕ)
unfolding upsert_partition insert_file put_object delete_pending insert_mv_rows notify_sequencer bag
tx_body f store i = do
  version ← upsert_partition f i
  row ← insert_file f store i version
  md ← bag (
      build_s3_metadata store.codec i.token (pos i.record_count) (pos i.uncompressed_size)
        (pos version) store.exts i.metadata)
  put_object f.put (record { key = i.s3_key; body = i.body; metadata = md })
  delete_pending f i.s3_key
  insert_mv_rows f i.views
  notify_sequencer f store.notify_channel
  λ s. (ok (version, row.0, row.1), s)

-- What a rollback leaves: the ids that were drawn and the objects that were put.
unfoldable pub rollback : World → TxState → World
rollback w s = record w {
  tables = record w.tables { next_file_id = s.tables.next_file_id };
  objects = s.objects;
}

unfoldable pub commit : World → TxState → World
commit w s = record { tables = s.tables; objects = s.objects; delivered = w.delivered ++ s.queued }

-- The end of RunInTx: a result, the flag and the world.
abbrev pub Outcome : Type 0 → Type 0
Outcome A = Result TxError A × Bool × World

unfoldable pub finish : {A : Type 0} → TxOutcome → World → Result TxError A × TxState → Outcome A
unfolding rollback commit
finish c w (err e, s) = (err e, s.put_attempted, rollback w s)
finish committed w (ok a, s) = (ok a, s.put_attempted, commit w s)
finish rolled_back w (ok a, s) = (err commit_failed, s.put_attempted, rollback w s)
finish committed_unseen w (ok a, s) = (err commit_failed, s.put_attempted, commit w s)

abbrev pub begin : World → TxState
begin w = record { tables = w.tables; objects = w.objects; put_attempted = false; queued = [] }

-- Executor.RunInTx on the pool, with no transaction of the caller's.
unfoldable pub run_in_tx : {A : Type 0} → TxFaults → TxM A → World → Outcome A
unfolding finish
run_in_tx f body w =
    if f.begin_fails then (err begin_failed, false, w) else finish f.commit w (body (begin w))
