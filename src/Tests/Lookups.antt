-- ===== src/Tests/Lookups.antt =====
-- Views, their rows and lookups in them, and the witnesses of the theorems about them.
use s3pgstore.Base.{
  ℕ, ◌+◌, ◌≡◌, refl, true, false, ◌||◌, some, List, [], ◌∷◌, map, arith, if◌then◌else◌, Bytes,
  bytes_eq, codes, any, count_if, ok, err,
}
use s3pgstore.Catalog.Tables.{no_tables}
use s3pgstore.Catalog.Views.{tuple_eq, same_view_row}
use s3pgstore.Config.{MaterializedViewDef}
use s3pgstore.Filter.{no_filters, translate_filters}
use s3pgstore.Metadata.Values.{upper}
use s3pgstore.Write.Tx.{ViewRows, insert_view_rows}
use s3pgstore.Views.{
  ViewDef, query_failed, LookupDef, MaterializedView, Database, resolve_mv_rows,
  new_materialized_view, find_declared_mv, equal_slice_case, equal_fold, all_known, lookup_view,
}
use s3pgstore.Views.Rows.{emits}
use s3pgstore.Views.Found.{lookup_view-resolve_mv_rows}

abbrev initials : ViewDef ℕ
initials = record {
  name = codes "initials";
  columns = codes "letter" ∷ [];
  of = λ n. some ((((n + 65) ∷ []) ∷ []) ∷ []);
}

abbrev initials_rows : List ViewRows
initials_rows =
    record { name = codes "initials"; rows = ((66 ∷ []) ∷ []) ∷ ((67 ∷ []) ∷ []) ∷ [] } ∷ []

abbrev toy_database : Database
toy_database = record {
  sanitize = λ c. c;
  selects = λ where_text args u. true;
  before = λ u v. false;
  columns_of = λ name. codes "letter" ∷ [];
  query_fails = false;
}

abbrev toy_lookup : MaterializedView (List Bytes)
toy_lookup = record { name = codes "initials"; columns = codes "letter" ∷ []; from = λ v. some v }

initials_resolved : resolve_mv_rows (initials ∷ []) (1 ∷ 2 ∷ 1 ∷ []) ≡ ok initials_rows
unfolding resolve_mv_rows bytes_eq
initials_resolved = refl

toy_columns : all_known toy_lookup.columns (toy_database.columns_of toy_lookup.name) ≡ true
unfolding all_known bytes_eq
toy_columns = refl

lookup_view-resolve_mv_rows_example :
    (found : List (List Bytes)) × (lookup_view toy_database toy_lookup no_filters
        (insert_view_rows initials_rows no_tables)
      ≡ ok (map (λ v. v) found))
    × ((r : List Bytes)
        → count_if (λ u. tuple_eq u r) found ≡ (
            if any (same_view_row (codes "initials") r) no_tables.views
              || emits (initials ∷ []) (1 ∷ 2 ∷ 1 ∷ []) (codes "initials") r
            then 1
            else 0))
lookup_view-resolve_mv_rows_example =
    lookup_view-resolve_mv_rows (initials ∷ []) (1 ∷ 2 ∷ 1 ∷ []) initials_rows no_tables
      toy_database toy_lookup (λ v. v) ((λ n. ((((λ e. omega (arith, e)), tt), tt), tt)), tt)
      initials_resolved (λ name r. refl) refl toy_columns refl (λ u. refl)

-- A lookup whose column differs in case from the declared one is accepted, and fails.
abbrev other_case : LookupDef (List Bytes)
other_case = record {
  name = codes "initials";
  columns = codes "Letter" ∷ [];
  from = some (λ v. some v);
}

abbrev declared : List MaterializedViewDef
declared = record { name = codes "initials"; columns = codes "letter" ∷ []; has_of = true } ∷ []

abbrev accepted : MaterializedView (List Bytes)
accepted = record { name = codes "initials"; columns = codes "Letter" ∷ []; from = λ v. some v }

case_accepted : new_materialized_view declared other_case ≡ ok accepted
unfolding new_materialized_view find_declared_mv equal_slice_case equal_fold upper bytes_eq
case_accepted = refl

case_fails : lookup_view toy_database accepted no_filters no_tables ≡ err query_failed
unfolding lookup_view all_known translate_filters bytes_eq
case_fails = refl
