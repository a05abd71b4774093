-- ===== src/Views/Found.antt =====
-- materialized_view.go, write.go: a lookup finds what the writes emitted, each tuple once.
use s3pgstore.Base.{
  ℕ, suc, ◌≡◌, refl, sym, ap, subst, ◌∙◌, Bool, true, false, ◌&&◌, ◌||◌, some, List, [], ◌∷◌, map,
  arith, if◌then◌else◌, Bytes, bytes_eq, bytes_eq_refl, length, keep, any, count_if, All, ok,
}
use s3pgstore.Base.Sorting.{sort, count_if-sort}
use s3pgstore.Catalog.Tables.{ViewRow, Tables}
use s3pgstore.Catalog.Views.{tuple_eq, same_view_row, mv_insert}
use s3pgstore.Filter.{no_filters, translate_filters}
use s3pgstore.Write.Tx.{ViewRows, insert_view_rows, insert_chunks, mv_insert_chunk_size}
use s3pgstore.Write.Tx.Chunks.{insert_chunks-mv_insert}
use s3pgstore.Views.{
  ViewDef, MaterializedView, Database, resolve_mv_rows, scan_rows, all_known, view_tuples,
  lookup_view,
}
use s3pgstore.Views.Tuples.{AreDistinct, insert_rows-any, insert_rows-AreDistinct}
use s3pgstore.Views.Rows.{among, emits, IsClean, resolve_mv_rows-any}

-- The inserts of a write, over all its views.
insert_view_rows-any :
    (vs : List ViewRows) (t : Tables) (name : Bytes) (r : List Bytes)
    → any (same_view_row name r) (insert_view_rows vs t).views
      ≡ (any (same_view_row name r) t.views || any (λ v. bytes_eq v.name name && among r v.rows) vs)
unfolding insert_view_rows mv_insert
insert_view_rows-any [] t name r = ground arith
insert_view_rows-any (v ∷ vs) t name r =
    let next = insert_chunks (length v.rows) mv_insert_chunk_size v.name v.rows t in
    let at_once : next ≡ mv_insert v.name v.rows t =
      insert_chunks-mv_insert (length v.rows) mv_insert_chunk_size v.name v.rows t (omega arith)
        (omega arith) in
    let rest = insert_view_rows-any vs next name r in
    let first =
      ap (λ u. any (same_view_row name r) u.views) at_once
      ∙ insert_rows-any v.name v.rows t.views name r in
    ground (arith, rest, first)

insert_view_rows-AreDistinct :
    (vs : List ViewRows) (t : Tables)
    → AreDistinct t.views
    → AreDistinct (insert_view_rows vs t).views
unfolding insert_view_rows mv_insert
insert_view_rows-AreDistinct [] t once = once
insert_view_rows-AreDistinct (v ∷ vs) t once =
    let at_once : insert_chunks (length v.rows) mv_insert_chunk_size v.name v.rows t
        ≡ mv_insert v.name v.rows t =
      insert_chunks-mv_insert (length v.rows) mv_insert_chunk_size v.name v.rows t (omega arith)
        (omega arith) in
    insert_view_rows-AreDistinct vs
      (insert_chunks (length v.rows) mv_insert_chunk_size v.name v.rows t)
      (subst (λ u. AreDistinct u.views) (sym at_once)
        (insert_rows-AreDistinct v.name v.rows t.views once))

view_tuples-count :
    (name : Bytes) (r : List Bytes) (rows : List ViewRow)
    → count_if
        (λ u. tuple_eq u r)
        (map (λ (x : ViewRow). x.tuple) (keep (λ x. bytes_eq x.view name) rows))
      ≡ count_if (same_view_row name r) rows
view_tuples-count name r [] = refl
view_tuples-count name r (x ∷ rows) = ground (arith, view_tuples-count name r rows)

keep_all : {A : Type 0} (p : A → Bool) (xs : List A) → ((x : A) → p x ≡ true) → keep p xs ≡ xs
keep_all p [] all = refl
keep_all p (x ∷ xs) all = rw (all x) (ap (λ ys. x ∷ ys) (keep_all p xs all))

scan_rows-map :
    {K : Type 0} (f : List Bytes → K) (i : ℕ) (rows : List (List Bytes))
    → scan_rows (λ v. some (f v)) i rows ≡ ok (map f rows)
unfolding scan_rows
scan_rows-map f i [] = refl
scan_rows-map f i (v ∷ rows) = rw (scan_rows-map f (suc i) rows) refl

any-here : (c : Bytes) (cs : List Bytes) → any (λ d. bytes_eq d c) (c ∷ cs) ≡ true
any-here c cs = rw (bytes_eq_refl c) refl

-- A tuple that a table holds is found once, and no other.
lookup_view-found :
    {K : Type 0} (db : Database) (m : MaterializedView K) (f : List Bytes → K) (t : Tables)
    → m.from ≡ (λ v. some (f v))
    → all_known m.columns (db.columns_of m.name) ≡ true
    → db.query_fails ≡ false
    → ((u : List Bytes) → db.selects [] [] u ≡ true)
    → AreDistinct t.views
    → (found : List (List Bytes)) × (lookup_view db m no_filters t ≡ ok (map f found))
      × ((r : List Bytes)
          → count_if (λ u. tuple_eq u r) found
            ≡ (if any (same_view_row m.name r) t.views then 1 else 0))
unfolding lookup_view view_tuples translate_filters
lookup_view-found db m f t total known alive selects once =
    let tuples = map (λ (x : ViewRow). x.tuple) (keep (λ x. bytes_eq x.view m.name) t.views) in
    (
      sort db.before tuples,
      rw (known, alive, keep_all (db.selects [] []) tuples selects, total)
          (scan_rows-map f 0 (sort db.before tuples)),
      λ r.
          count_if-sort db.before (λ u. tuple_eq u r) tuples
          ∙ view_tuples-count m.name r t.views
          ∙ once m.name r,
    )

-- When resolveMVRows makes the rows of a write, and the write inserts them into tables where every
-- tuple of a view stands once, a lookup without filters that does not fail finds each tuple once
-- that was there or that a view of its name emits for some record, and no other. The tuples have no
-- NUL, the lookup's columns are the table's, its closure gives no error, and no condition selects
-- every row.
pub lookup_view-resolve_mv_rows :
    {T K : Type 0} (views : List (ViewDef T)) (records : List T) (out : List ViewRows) (t : Tables)
    (db : Database) (m : MaterializedView K) (f : List Bytes → K)
    → All IsClean views
    → resolve_mv_rows views records ≡ ok out
    → AreDistinct t.views
    → m.from ≡ (λ v. some (f v))
    → all_known m.columns (db.columns_of m.name) ≡ true
    → db.query_fails ≡ false
    → ((u : List Bytes) → db.selects [] [] u ≡ true)
    → (found : List (List Bytes)) × (lookup_view db m no_filters (insert_view_rows out t)
        ≡ ok (map f found))
      × ((r : List Bytes)
          → count_if (λ u. tuple_eq u r) found ≡ (
              if any (same_view_row m.name r) t.views || emits views records m.name r
              then 1
              else 0))
lookup_view-resolve_mv_rows views records out t db m f clean made once total known alive selects =
    let (found, looked, counts) =
      lookup_view-found db m f (insert_view_rows out t) total known alive selects
        (insert_view_rows-AreDistinct out t once) in
    (
      found,
      looked,
      λ r.
          counts r
          ∙ ap (λ b. if b then 1 else 0)
              (insert_view_rows-any out t m.name r
                ∙ ap (λ b. any (same_view_row m.name r) t.views || b)
                    (resolve_mv_rows-any views records out clean made m.name r)),
    )
