-- ===== src/Read.antt =====
-- read.go: the rows of a read, its partitions, and the bounds of its pipeline.
pub mod Partitions
pub mod Defaults
pub mod Range
use s3pgstore.Base.{
  ℕ, zero, suc, ◌+◌, ◌-◌, ◌/◌, min, max, Bool, true, false, not, Option, none, some, List, [], ◌∷◌,
  ◌++◌, map, if◌then◌else◌, ltb, Bytes, codes, length, Result, ok, err,
}
use s3pgstore.Base.Int.{ℤ}
use s3pgstore.Base.Dict.{Dict, lookup}
use s3pgstore.Base.Groups.{or_nil, keys_of, group_into}
use s3pgstore.Base.Keyed.{by_name}
use s3pgstore.Base.Orders.{bytes_order}
use s3pgstore.Base.Separated.{has_prefix}
use s3pgstore.Base.Sorting.{sort, by}
use s3pgstore.Catalog.Tables.{FileRow, Tables}
use s3pgstore.Catalog.Files.{files_query}
use s3pgstore.Dedup.{sort_and_dedup}
use s3pgstore.Filter.{Filters, no_filters, FilterError, part_col_resolver, translate_filters}
use s3pgstore.Store.{Store, FileRef, file_ref_of, data_path}

pub data ReadError : Type 0 where
  bad_filter : FilterError → ReadError
  select_failed : ReadError
  other_store : Bytes → ReadError
  decode_failed : Bytes → ReadError

-- queryFileRows; `selects` is what PostgreSQL makes of a WHERE clause and its arguments.
unfoldable pub query_file_rows :
    (Bytes → List Bytes → FileRow → Bool)
    → Bool
    → Store
    → Bytes
    → List Bytes
    → Tables
    → Result ReadError (List FileRef)
unfolding files_query file_ref_of
query_file_rows selects query_fails store where_text args t =
    if query_fails
    then err select_failed
    else ok (map (file_ref_of store.exts) (files_query (selects where_text args) t))

-- ResolveFileRefs
unfoldable pub resolve_file_refs :
    (Bytes → List Bytes → FileRow → Bool)
    → Bool
    → Store
    → Filters
    → Tables
    → Result ReadError (List FileRef)
unfolding query_file_rows translate_filters part_col_resolver
resolve_file_refs selects query_fails store fs t = elim fs [
  | no_filters ↦ ok []
  | given ↦ elim (translate_filters given (part_col_resolver store.parts)) [
    | err e ↦ err (bad_filter e)
    | ok (where_text, args) ↦ query_file_rows selects query_fails store where_text args t
  ]
]

-- validateFileRefs
unfoldable pub validate_file_refs : Store → List FileRef → Option ReadError
unfolding data_path has_prefix
validate_file_refs store [] = none
validate_file_refs store (e ∷ entries) =
    let rest = validate_file_refs store entries in
    if has_prefix e.s3_key (data_path store.s3_prefix ++ codes "/")
    then rest
    else some (other_store e.s3_key)

-- partState, without the bodies and what counts their downloads.
pub record PartState : Type 0 where
  pub partition_key : Bytes
  pub files : List FileRef
  pub version : ℕ

abbrev pub by_s3_key : FileRef → FileRef → Bool
by_s3_key = by bytes_order (λ f. f.s3_key)

-- The highest version, by the loop that starts at 0.
unfoldable pub highest : ℕ → List FileRef → ℕ
highest v [] = v
highest v (f ∷ fs) = highest (if ltb v f.version then f.version else v) fs

unfoldable pub part_state : Dict (List FileRef) → Bytes → PartState
unfolding highest
part_state by_partition k =
    let files = sort by_s3_key (or_nil (lookup k by_partition)) in
    record { partition_key = k; files = files; version = highest 0 files }

-- preparePartitions
unfoldable pub prepare_partitions : List FileRef → List PartState
unfolding part_state group_into
prepare_partitions entries =
    let by_partition = group_into (λ e. e.partition_key) entries [] in
    map (part_state by_partition) (sort by_name (keys_of by_partition))

-- fileRefStats: the uncompressed bytes and the records of the files.
unfoldable pub file_ref_stats : List FileRef → ℕ × ℕ
file_ref_stats [] = (0, 0)
file_ref_stats (f ∷ fs) =
    let (bytes, rows) = file_ref_stats fs in (f.uncompressed_size + bytes, f.record_count + rows)

-- The options of a read, with 0 or `none` for those not set.
pub record ReadOpts : Type 0 where
  pub include_history : Bool
  pub decode_workers : ℕ
  pub decode_ahead_partitions : Option ℕ
  pub fetch_ahead_files : ℕ
  pub decode_ahead_bytes : ℤ

abbrev pub or_set : Option ℕ → ℕ → Option ℕ
or_set none n = some n
or_set (some k) n = some k

abbrev pub or_positive : ℕ → ℕ → ℕ
or_positive zero n = n
or_positive (suc k) n = suc k

-- iterStreamDefaults
unfoldable pub iter_stream_defaults : ReadOpts → ReadOpts
iter_stream_defaults o = record o {
  decode_workers = or_positive o.decode_workers 1;
  decode_ahead_partitions = or_set o.decode_ahead_partitions 1;
}

-- readBatchDefaults, for a pool with `slots` slots and GOMAXPROCS.
unfoldable pub read_batch_defaults : ℕ → ℕ → ReadOpts → ℕ → ReadOpts
read_batch_defaults slots max_procs o len_parts =
    let workers = or_positive o.decode_workers (min (min slots max_procs) len_parts) in
    let wc = max workers 1 in
    record o {
      decode_workers = workers;
      decode_ahead_partitions = or_set o.decode_ahead_partitions ((len_parts + wc - 1) / wc);
    }

-- The clamp of readFetchAndDecodeIter.
unfoldable pub clamp_workers : ℕ → ℕ → ℕ
clamp_workers workers len_parts = max 1 (min workers len_parts)

-- bodyCap, raised to the number of files of the largest partition.
unfoldable pub raise_cap : ℕ → List PartState → ℕ
raise_cap cap [] = cap
raise_cap cap (p ∷ parts) =
    raise_cap (if ltb cap (length p.files) then length p.files else cap) parts

unfoldable pub body_cap : ReadOpts → ℕ → List PartState → ℕ
unfolding raise_cap
body_cap o slots parts = raise_cap (or_positive o.fetch_ahead_files slots) parts

-- decodePartition, over the files of a partition with their bodies: a body that is nil is skipped.
module _ {T : Type 0} (decode : Bytes → Option (List T)) where
  unfoldable pub decode_bodies : List (FileRef × Option Bytes) → List T → Result ReadError (List T)
  decode_bodies [] out = ok out
  decode_bodies ((f, none) ∷ bodies) out = decode_bodies bodies out
  decode_bodies ((f, some body) ∷ bodies) out = elim (decode body) [
    | none ↦ err (decode_failed f.s3_key)
    | some recs ↦ decode_bodies bodies (out ++ recs)
  ]

  unfoldable pub decode_partition :
      Option (T → Bytes)
      → Option (T → ℤ)
      → Bool
      → List (FileRef × Option Bytes)
      → Result ReadError (List T)
  unfolding decode_bodies sort_and_dedup
  decode_partition entity_key version_of history bodies = elim (decode_bodies bodies []) [
    | err e ↦ err e
    | ok out ↦ ok (sort_and_dedup entity_key version_of history out)
  ]
