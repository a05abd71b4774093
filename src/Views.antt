-- ===== src/Views.antt =====
-- materialized_view.go: the rows that a write makes for the declared views, and the lookups in them.
pub mod Tuples
pub mod Rows
pub mod Found
use s3pgstore.Base.{
  ℕ, suc, Bool, true, false, not, ◌&&◌, ◌||◌, Option, none, some, List, [], ◌∷◌, ◌++◌, map,
  if◌then◌else◌, ◌==◌, Bytes, bytes_eq, length, keep, any, find, Result, ok, err, ◌>>=◌,
}
use s3pgstore.Base.Separated.{join}
use s3pgstore.Base.Sorting.{sort}
use s3pgstore.Metadata.Values.{upper}
use s3pgstore.Config.{MaterializedViewDef}
use s3pgstore.Catalog.Tables.{ViewRow, Tables}
use s3pgstore.Filter.{Filters, FilterError, translate_filters, mv_col_resolver}
use s3pgstore.Write.Tx.{ViewRows}

pub data ViewError : Type 0 where
  of_failed : Bytes → ℕ → ViewError
  bad_tuple : Bytes → ℕ → ℕ → ViewError
  not_declared columns_mismatch from_required query_failed : ViewError
  bad_filter : FilterError → ViewError
  from_failed : ℕ → ViewError

module _ (T : Type 0) where
  -- MaterializedViewDef with its closure, where `none` is an error.
  pub record ViewDef : Type 0 where
    pub name : Bytes
    pub columns : List Bytes
    pub of : T → Option (List (List Bytes))

-- `rows` and `seen` of resolveMVRows.
pub record Gathered : Type 0 where
  pub rows : List (List Bytes)
  pub seen : List Bytes

-- The dedup key, with NUL as the separator.
unfoldable pub tuple_key : List Bytes → Bytes
unfolding join
tuple_key r = join (0 ∷ []) r

-- A tuple whose key was seen is skipped.
unfoldable pub gather : List Bytes → Gathered → Gathered
unfolding tuple_key
gather r g =
    if any (λ k. bytes_eq k (tuple_key r)) g.seen
    then g
    else record { rows = g.rows ++ (r ∷ []); seen = tuple_key r ∷ g.seen }

module _ {T : Type 0} where
  -- The loop over the tuples of the record at `i`, from the one at `j` on.
  unfoldable pub add_emitted :
      ViewDef T → ℕ → ℕ → List (List Bytes) → Gathered → Result ViewError Gathered
  unfolding gather
  add_emitted mv i j [] g = ok g
  add_emitted mv i j (r ∷ emitted) g =
      let rest = add_emitted mv i (suc j) emitted (gather r g) in
      if length r == length mv.columns then rest else err (bad_tuple mv.name j i)

  -- The loop over the records, from the one at `i` on.
  unfoldable pub add_records : ViewDef T → ℕ → List T → Gathered → Result ViewError Gathered
  unfolding add_emitted
  add_records mv i [] g = ok g
  add_records mv i (rec ∷ records) g = elim (mv.of rec) [
    | none ↦ err (of_failed mv.name i)
    | some emitted ↦ add_emitted mv i 0 emitted g >>= λ next. add_records mv (suc i) records next
  ]

  unfoldable pub resolve_view : ViewDef T → List T → Result ViewError ViewRows
  unfolding add_records
  resolve_view mv records = add_records mv 0 records (record { rows = []; seen = [] }) >>= λ g.
      ok (record { name = mv.name; rows = g.rows })

  -- resolveMVRows
  unfoldable pub resolve_mv_rows : List (ViewDef T) → List T → Result ViewError (List ViewRows)
  unfolding resolve_view
  resolve_mv_rows [] records = ok []
  resolve_mv_rows (mv ∷ views) records =
      resolve_view mv records >>= λ v. resolve_mv_rows views records >>= λ vs. ok (v ∷ vs)

-- strings.EqualFold, of ASCII letters.
unfoldable pub equal_fold : Bytes → Bytes → Bool
equal_fold a b = bytes_eq (upper a) (upper b)

-- equalSliceCase
unfoldable pub equal_slice_case : List Bytes → List Bytes → Bool
unfolding equal_fold
equal_slice_case [] [] = true
equal_slice_case [] (b ∷ bs) = false
equal_slice_case (a ∷ more) [] = false
equal_slice_case (a ∷ more) (b ∷ bs) = equal_fold a b && equal_slice_case more bs

-- findDeclaredMV
unfoldable pub find_declared_mv : List MaterializedViewDef → Bytes → Option MaterializedViewDef
find_declared_mv declared name = find (λ m. bytes_eq m.name name) declared

module _ (K : Type 0) where
  -- MaterializedViewLookupDef; `from` is none for a nil closure, and gives none for an error.
  pub record LookupDef : Type 0 where
    pub name : Bytes
    pub columns : List Bytes
    pub from : Option (List Bytes → Option K)

  -- MaterializedView
  pub record MaterializedView : Type 0 where
    pub name : Bytes
    pub columns : List Bytes
    pub from : List Bytes → Option K

module _ {K : Type 0} where
  -- NewMaterializedView
  unfoldable pub new_materialized_view :
      List MaterializedViewDef → LookupDef K → Result ViewError (MaterializedView K)
  unfolding find_declared_mv equal_slice_case
  new_materialized_view declared def = elim (find_declared_mv declared def.name) [
    | none ↦ err not_declared
    | some m ↦
        if equal_slice_case def.columns m.columns
        then elim def.from [
          | none ↦ err from_required
          | some from ↦ ok (record { name = def.name; columns = def.columns; from = from })
        ]
        else err columns_mismatch
  ]

  -- The loop over the rows, from the one at `i` on.
  unfoldable pub scan_rows :
      (List Bytes → Option K) → ℕ → List (List Bytes) → Result ViewError (List K)
  scan_rows from i [] = ok []
  scan_rows from i (values ∷ rows) = elim (from values) [
    | none ↦ err (from_failed i)
    | some k ↦ scan_rows from (suc i) rows >>= λ ks. ok (k ∷ ks)
  ]

-- The columns are all in the table: the quoted identifiers of the statement are looked up exactly.
unfoldable pub all_known : List Bytes → List Bytes → Bool
all_known [] table = true
all_known (c ∷ cols) table = any (λ d. bytes_eq d c) table && all_known cols table

-- The tuples in a view's table.
unfoldable pub view_tuples : Bytes → Tables → List (List Bytes)
view_tuples name t = map (λ (r : ViewRow). r.tuple) (keep (λ r. bytes_eq r.view name) t.views)

-- What stands around a lookup: pgx's quoting, the tuples that a WHERE clause with its arguments
-- selects, the order of the database on tuples, the columns of each view's table, and whether the
-- query fails.
pub record Database : Type 0 where
  pub sanitize : Bytes → Bytes
  pub selects : Bytes → List Bytes → List Bytes → Bool
  pub before : List Bytes → List Bytes → Bool
  pub columns_of : Bytes → List Bytes
  pub query_fails : Bool

module _ {K : Type 0} where
  -- Lookup
  unfoldable pub lookup_view :
      Database → MaterializedView K → Filters → Tables → Result ViewError (List K)
  unfolding translate_filters mv_col_resolver all_known view_tuples scan_rows
  lookup_view db m fs t = elim (translate_filters fs (mv_col_resolver db.sanitize m.columns)) [
    | err e ↦ err (bad_filter e)
    | ok (where_text, args) ↦
        if db.query_fails || not (all_known m.columns (db.columns_of m.name))
        then err query_failed
        else scan_rows m.from 0
            (sort db.before (keep (db.selects where_text args) (view_tuples m.name t)))
  ]
