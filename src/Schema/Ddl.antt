-- ===== src/Schema/Ddl.antt =====
-- internal/catalog/ddl.go: the text of the CREATE statements, from the tables that they create.
use s3pgstore.Base.{List, [], ◌∷◌, ◌++◌, map, Bytes, codes}
use s3pgstore.Base.Separated.{join}
use s3pgstore.Metadata.Values.{ExtensionColumn, upper}
use s3pgstore.Config.{Config, MaterializedViewDef}
use s3pgstore.Config.Names.{
  files_bare, partitions_bare, pending_writes_bare, mv_bare, part_column, ext_column,
}

-- A column: its name, how the statement writes the name, and what stands behind it.
pub record Column : Type 0 where
  pub name : Bytes
  pub shown : Bytes
  pub definition : Bytes

abbrev pub column : Bytes → Bytes → Column
column name definition = record { name = name; shown = name; definition = definition }

-- A table: its name without the schema, its columns, and the lines behind them.
pub record Table : Type 0 where
  pub name : Bytes
  pub columns : List Column
  pub constraints : List Bytes

-- renderFiles, its columns.
unfoldable pub files_table : Config → Table
unfolding files_bare part_column ext_column upper
files_table r = record {
  name = files_bare r.table_prefix;
  columns =
      (column (codes "file_id") (codes "              BIGSERIAL PRIMARY KEY")
        ∷ column (codes "s3_key") (codes "               TEXT NOT NULL UNIQUE")
        ∷ column (codes "partition_key") (codes "        TEXT NOT NULL")
        ∷ [])
      ++ (map (λ p. column (part_column p) (codes "            TEXT NOT NULL"))
            r.partition_key_parts
          ++ ((column (codes "file_size") (codes "            BIGINT NOT NULL")
                ∷ column (codes "uncompressed_size") (codes "    BIGINT NOT NULL")
                ∷ column (codes "record_count") (codes "         BIGINT")
                ∷ column (codes "written_at_version") (codes "   BIGINT")
                ∷ column (codes "written_at")
                    (codes "           TIMESTAMPTZ NOT NULL DEFAULT now()")
                ∷ column (codes "idempotency_token") (codes "    TEXT")
                ∷ column (codes "feed_seq") (codes "             BIGINT UNIQUE")
                ∷ column (codes "feed_seq_at") (codes "          TIMESTAMPTZ")
                ∷ [])
              ++ map
                  (λ (e : ExtensionColumn).
                    column (ext_column e.name) (codes "         " ++ upper e.type))
                  r.extension_columns));
  constraints = [];
}

-- renderPartitions, its columns.
unfoldable pub partitions_table : Config → Table
unfolding partitions_bare part_column
partitions_table r = record {
  name = partitions_bare r.table_prefix;
  columns =
      column (codes "partition_key") (codes "   TEXT PRIMARY KEY")
      ∷ (map (λ p. column (part_column p) (codes "       TEXT NOT NULL")) r.partition_key_parts
          ++ (column (codes "version") (codes "         BIGINT NOT NULL DEFAULT 0")
              ∷ column (codes "file_count") (codes "      INT NOT NULL DEFAULT 0")
              ∷ column (codes "updated_at") (codes "      TIMESTAMPTZ NOT NULL DEFAULT now()")
              ∷ []));
  constraints = [];
}

-- renderPendingWrites, its columns.
unfoldable pub pending_writes_table : Config → Table
unfolding pending_writes_bare
pending_writes_table r = record {
  name = pending_writes_bare r.table_prefix;
  columns =
      column (codes "s3_key") (codes "       TEXT PRIMARY KEY")
      ∷ column (codes "intended_at") (codes "  TIMESTAMPTZ NOT NULL DEFAULT now()")
      ∷ [];
  constraints = [];
}

-- pgx.Identifier.Sanitize, outside this repository, of a name.
module _ (sanitize : Bytes → Bytes) where
  -- renderMV, its columns and its key.
  unfoldable pub mv_table : Config → MaterializedViewDef → Table
  unfolding mv_bare join
  mv_table r mv = record {
    name = mv_bare r.table_prefix mv.name;
    columns =
        map (λ c. record { name = c; shown = sanitize c; definition = codes " TEXT NOT NULL" })
          mv.columns;
    constraints =
        (codes "    PRIMARY KEY (" ++ (join (codes ", ") (map sanitize mv.columns) ++ codes ")"))
        ∷ [];
  }

  -- The tables that RenderAll creates.
  unfoldable pub ddl_tables : Config → List Table
  unfolding files_table partitions_table pending_writes_table mv_table
  ddl_tables r =
      files_table r
      ∷ partitions_table r
      ∷ pending_writes_table r
      ∷ map (mv_table r) r.materialized_views

-- The same, and of a name behind a schema.
module _ (sanitize : Bytes → Bytes) (qualify : Bytes → Bytes → Bytes) where
  unfoldable pub render_column : Column → Bytes
  render_column c = codes "    " ++ (c.shown ++ c.definition)

  -- The CREATE TABLE statement of a table.
  unfoldable pub render_table : Bytes → Table → Bytes
  unfolding render_column join
  render_table schema t =
      codes "CREATE TABLE IF NOT EXISTS "
      ++ (qualify schema t.name
          ++ (codes " (\n"
              ++ (join (codes ",\n") (map render_column t.columns ++ t.constraints)
                  ++ codes "\n);\n")))

  -- `kind` is INDEX or UNIQUE INDEX.
  unfoldable pub render_index : Bytes → Bytes → Bytes → Bytes → Bytes
  render_index kind name table body =
      codes "CREATE "
      ++ (kind
          ++ (codes " IF NOT EXISTS "
              ++ (name ++ (codes " ON " ++ (table ++ (codes " " ++ (body ++ codes ";\n")))))))

  -- The index over the columns of the parts, if there are parts.
  unfoldable pub render_part_index : Bytes → Bytes → List Bytes → Bytes
  unfolding render_index join part_column
  render_part_index bare table [] = []
  render_part_index bare table (p ∷ parts) =
      render_index (codes "INDEX") (bare ++ codes "_part_idx") table
        (codes "(" ++ (join (codes ", ") (map part_column (p ∷ parts)) ++ codes ")"))

  unfoldable pub render_files : Config → Bytes
  unfolding render_table render_index render_part_index files_table files_bare
  render_files r =
      let bare = files_bare r.table_prefix in
      let files = qualify r.schema_name bare in
      let index : Bytes → Bytes → Bytes =
        λ suffix body. render_index (codes "INDEX") (bare ++ suffix) files body in
      render_table r.schema_name (files_table r)
      ++ (index (codes "_partition_written_idx") (codes "(partition_key, written_at)")
          ++ (index (codes "_written_at_idx") (codes "(written_at)")
              ++ (index (codes "_feed_seq_idx") (codes "(feed_seq) WHERE feed_seq IS NOT NULL")
                  ++ (index (codes "_seq_scan_idx")
                        (codes "(written_at, file_id) WHERE feed_seq IS NULL")
                      ++ (render_part_index bare files r.partition_key_parts
                          ++ render_index (codes "UNIQUE INDEX") (bare ++ codes "_token_idx") files
                              (codes
                                "(partition_key, idempotency_token) WHERE idempotency_token IS NOT NULL"))))))

  unfoldable pub render_partitions : Config → Bytes
  unfolding render_table render_part_index partitions_table partitions_bare
  render_partitions r =
      let bare = partitions_bare r.table_prefix in
      render_table r.schema_name (partitions_table r)
      ++ render_part_index bare (qualify r.schema_name bare) r.partition_key_parts

  unfoldable pub render_pending_writes : Config → Bytes
  unfolding render_table render_index pending_writes_table pending_writes_bare
  render_pending_writes r =
      let bare = pending_writes_bare r.table_prefix in
      render_table r.schema_name (pending_writes_table r)
      ++ render_index (codes "INDEX") (bare ++ codes "_intended_idx") (qualify r.schema_name bare)
          (codes "(intended_at)")

  -- The loop over the views, with an empty line before each.
  unfoldable pub render_mvs : Config → List MaterializedViewDef → Bytes
  unfolding render_table mv_table
  render_mvs r [] = []
  render_mvs r (mv ∷ views) =
      codes "\n" ++ (render_table r.schema_name (mv_table sanitize r mv) ++ render_mvs r views)

  -- RenderAll, for a configuration with a schema, a prefix and parts.
  unfoldable pub render_all : Config → Bytes
  unfolding render_files render_partitions render_pending_writes render_mvs
  render_all r =
      render_files r
      ++ (codes "\n"
          ++ (render_partitions r
              ++ (codes "\n" ++ (render_pending_writes r ++ render_mvs r r.materialized_views))))
