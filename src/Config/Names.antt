-- ===== src/Config/Names.antt =====
-- names.go and ddl.go: the names of the tables, indexes and columns that a configuration makes.
use s3pgstore.Base.{List, [], ◌∷◌, ◌++◌, map, Bytes, codes}
use s3pgstore.Config.{Config, MaterializedViewDef}

-- Bare
unfoldable pub bare : Bytes → Bytes → Bytes
bare prefix suffix = prefix ++ suffix

-- FilesBare, PartitionsBare, PendingWritesBare and MVBare
unfoldable pub files_bare : Bytes → Bytes
unfolding bare
files_bare prefix = bare prefix (codes "files")

unfoldable pub partitions_bare : Bytes → Bytes
unfolding bare
partitions_bare prefix = bare prefix (codes "partitions")

unfoldable pub pending_writes_bare : Bytes → Bytes
unfolding bare
pending_writes_bare prefix = bare prefix (codes "pending_writes")

unfoldable pub mv_bare : Bytes → Bytes → Bytes
mv_bare prefix name = prefix ++ (codes "mv_" ++ name)

-- The indexes that renderFiles, renderPartitions and renderPendingWrites create.
unfoldable pub files_indexes : Bytes → List Bytes
unfolding files_bare
files_indexes prefix =
    map (λ suffix. files_bare prefix ++ suffix)
      (codes "_partition_written_idx"
        ∷ codes "_written_at_idx"
        ∷ codes "_feed_seq_idx"
        ∷ codes "_seq_scan_idx"
        ∷ codes "_part_idx"
        ∷ codes "_token_idx"
        ∷ [])

unfoldable pub other_indexes : Bytes → List Bytes
unfolding partitions_bare pending_writes_bare
other_indexes prefix =
    (partitions_bare prefix ++ codes "_part_idx")
    ∷ (pending_writes_bare prefix ++ codes "_intended_idx")
    ∷ []

unfoldable pub part_column : Bytes → Bytes
part_column name = codes "part_" ++ name

unfoldable pub ext_column : Bytes → Bytes
ext_column name = codes "ext_" ++ name

-- The columns of the views, which renderMV takes as they are declared.
unfoldable pub view_columns : List MaterializedViewDef → List Bytes
view_columns [] = []
view_columns (v ∷ views) = v.columns ++ view_columns views

-- Every identifier that the catalog of a resolved configuration needs.
unfoldable pub identifiers : Config → List Bytes
unfolding files_bare partitions_bare pending_writes_bare mv_bare files_indexes other_indexes
    part_column ext_column view_columns
identifiers c =
    (c.schema_name
      ∷ files_bare c.table_prefix
      ∷ partitions_bare c.table_prefix
      ∷ pending_writes_bare c.table_prefix
      ∷ files_indexes c.table_prefix)
    ++ (other_indexes c.table_prefix
        ++ (map part_column c.partition_key_parts
            ++ (map (λ e. ext_column e.name) c.extension_columns
                ++ (map (λ v. mv_bare c.table_prefix v.name) c.materialized_views
                    ++ view_columns c.materialized_views))))
