-- ===== src/Catalog/Views.antt =====
-- sql.go, the materialized views: MVInsertSQL, an insert that skips the tuples that are there.
use s3pgstore.Base.{
  Bool, true, false, ◌&&◌, List, [], ◌∷◌, ◌++◌, if◌then◌else◌, Bytes, bytes_eq, any,
}
use s3pgstore.Catalog.Tables.{ViewRow, Tables}

unfoldable pub tuple_eq : List Bytes → List Bytes → Bool
tuple_eq [] [] = true
tuple_eq [] (b ∷ bs) = false
tuple_eq (a ∷ more) [] = false
tuple_eq (a ∷ more) (b ∷ bs) = bytes_eq a b && tuple_eq more bs

abbrev pub same_view_row : Bytes → List Bytes → ViewRow → Bool
same_view_row view tuple r = bytes_eq r.view view && tuple_eq r.tuple tuple

-- ON CONFLICT DO NOTHING, tuple by tuple.
unfoldable pub insert_rows : Bytes → List (List Bytes) → List ViewRow → List ViewRow
unfolding tuple_eq
insert_rows view [] rows = rows
insert_rows view (tuple ∷ tuples) rows = insert_rows view tuples (
    if any (same_view_row view tuple) rows
    then rows
    else rows ++ (record { view = view; tuple = tuple } ∷ []))

-- MVInsertSQL
unfoldable pub mv_insert : Bytes → List (List Bytes) → Tables → Tables
unfolding insert_rows
mv_insert view tuples t = record t { views = insert_rows view tuples t.views }
