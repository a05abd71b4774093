-- ===== src/Schema/Rows.antt =====
-- ddl.go: the rows of information_schema that stand for the tables that were created.
use s3pgstore.Base.{
  ◌≡◌, refl, sym, ap, subst, ◌∙◌, true, false, ◌&&◌, List, [], ◌∷◌, ◌++◌, map, arith, Bytes,
  append_assoc, bytes_eq, bytes_eq_refl, keep, any, All, All-map,
}
use s3pgstore.Config.{Config}
use s3pgstore.Schema.{ExpectedTable, ColumnRow, TableRow, Information}
use s3pgstore.Schema.Ddl.{Column, Table, ddl_tables}
use s3pgstore.Schema.Covers.{
  Covers, Covers-left, Covers-right, Covers-refl, keep-append, map-append, Covers-trans,
}
use s3pgstore.Schema.Checked.{IsPresent}

-- The rows of information_schema that stand for some tables.
abbrev pub table_rows : Bytes → List Table → List TableRow
table_rows schema [] = []
table_rows schema (t ∷ ts) =
    record { table_schema = schema; table_name = t.name } ∷ table_rows schema ts

abbrev pub rows_of : Bytes → Bytes → List Column → List ColumnRow
rows_of schema table [] = []
rows_of schema table (c ∷ cs) =
    record { table_schema = schema; table_name = table; column_name = c.name }
    ∷ rows_of schema table cs

abbrev pub column_rows : Bytes → List Table → List ColumnRow
column_rows schema [] = []
column_rows schema (t ∷ ts) = rows_of schema t.name t.columns ++ column_rows schema ts

-- The database has the tables that RenderDDL creates, and others.
abbrev pub created : (Bytes → Bytes) → Config → List TableRow → List ColumnRow → Information
created sanitize r tables columns = record {
  tables = table_rows r.schema_name (ddl_tables sanitize r) ++ tables;
  columns = column_rows r.schema_name (ddl_tables sanitize r) ++ columns;
  tables_fails = λ t. false;
  columns_fails = λ t. false;
}

abbrev pub names_of : List Column → List Bytes
names_of = map (λ (c : Column). c.name)

-- The columns of a table among those of some tables and others.
module _ (schema table : Bytes) where
  abbrev pub listed : List ColumnRow → List Bytes
  listed rows =
      map (λ (r : ColumnRow). r.column_name)
        (keep (λ r. bytes_eq r.table_schema schema && bytes_eq r.table_name table) rows)

  pub listed-append : (xs ys : List ColumnRow) → listed (xs ++ ys) ≡ listed xs ++ listed ys
  listed-append xs ys =
      ap (map (λ (r : ColumnRow). r.column_name)) (keep-append _ xs ys)
      ∙ map-append _ (keep _ xs) (keep _ ys)

  pub listed-own : (cs : List Column) → listed (rows_of schema table cs) ≡ names_of cs
  listed-own [] = refl
  listed-own (c ∷ cs) =
      rw (bytes_eq_refl schema, bytes_eq_refl table) (ap (λ r. c.name ∷ r) (listed-own cs))

-- Every table is found among its rows, with its columns.
unfoldable pub IsThere : Bytes → List TableRow → List ColumnRow → Table → Type 0
IsThere schema tables columns t =
    (any (λ r. bytes_eq r.table_schema schema && bytes_eq r.table_name t.name) tables ≡ true)
    × Covers (listed schema t.name columns) (names_of t.columns)

pub All-IsThere :
    (schema : Bytes) (ts : List Table) (tables : List TableRow) (columns : List ColumnRow)
    → All (IsThere schema (table_rows schema ts ++ tables) (column_rows schema ts ++ columns)) ts
unfolding IsThere
All-IsThere schema [] tables columns = tt
All-IsThere schema (t ∷ ts) tables columns =
    let own = rows_of schema t.name t.columns in
    let rest = column_rows schema ts ++ columns in
    let split_up : (own ++ column_rows schema ts) ++ columns ≡ own ++ rest =
      append_assoc own (column_rows schema ts) columns in
    (
      (
        rw (bytes_eq_refl schema, bytes_eq_refl t.name) refl,
        subst (λ cs. Covers cs (names_of t.columns))
            (ap (λ cs. cs ++ listed schema t.name rest) (sym (listed-own schema t.name t.columns))
              ∙ sym (listed-append schema t.name own rest)
              ∙ ap (listed schema t.name) (sym split_up))
            (Covers-left (names_of t.columns) (listed schema t.name rest) (names_of t.columns)
              (Covers-refl (names_of t.columns))),
      ),
      All-map
          (λ u (found, covered). (
            ground (arith, found),
            subst (λ cs. Covers cs (names_of u.columns))
                (sym (listed-append schema u.name own rest)
                  ∙ ap (listed schema u.name) (sym split_up))
                (Covers-right (listed schema u.name own) (listed schema u.name rest)
                  (names_of u.columns) covered),
          ))
          ts (All-IsThere schema ts tables columns),
    )

-- An expected table that a created one provides.
unfoldable pub Provides : Table → ExpectedTable → Type 0
Provides t e = (t.name ≡ e.name) × Covers (names_of t.columns) e.columns

pub provided :
    (info : Information) (schema : Bytes) (t : Table) (e : ExpectedTable)
    → IsThere schema info.tables info.columns t
    → Provides t e
    → IsPresent info schema e
unfolding IsThere Provides
provided info schema t e (found, covered) (same, covers) = (
  subst
      (λ n. any (λ r. bytes_eq r.table_schema schema && bytes_eq r.table_name n) info.tables ≡ true)
      same found,
  subst (λ n. Covers (listed schema n info.columns) e.columns) same
      (Covers-trans (listed schema t.name info.columns) (names_of t.columns) e.columns covered
        covers),
)
