-- ===== src/Write/Tx/Chunks.antt =====
-- The chunks of insertMVRows against one insert of all the rows.
use s3pgstore.Base.{
  ℕ, zero, suc, ◌≤◌, ◌<◌, ◌≡◌, refl, sym, ap, ◌∙◌, List, [], ◌∷◌, ◌++◌, arith, Bytes, length, take,
  drop, take-append-drop, length-drop,
}
use s3pgstore.Catalog.Tables.{ViewRow, Tables}
use s3pgstore.Catalog.Views.{mv_insert, insert_rows}
use s3pgstore.Write.Tx.{insert_chunks}

insert_rows-append :
    (view : Bytes) (xs ys : List (List Bytes)) (rows : List ViewRow)
    → insert_rows view (xs ++ ys) rows ≡ insert_rows view ys (insert_rows view xs rows)
unfolding insert_rows
insert_rows-append view [] ys rows = refl
insert_rows-append view (x ∷ xs) ys rows = insert_rows-append view xs ys _

mv_insert-append :
    (view : Bytes) (xs ys : List (List Bytes)) (t : Tables)
    → mv_insert view ys (mv_insert view xs t) ≡ mv_insert view (xs ++ ys) t
unfolding mv_insert
mv_insert-append view xs ys t =
    ap (λ rows. record t { views = rows }) (sym (insert_rows-append view xs ys t.views))

-- Inserting rows in chunks of any positive size is inserting them at once, where there is as much
-- fuel as there are rows.
pub insert_chunks-mv_insert :
    (fuel size : ℕ) (view : Bytes) (rows : List (List Bytes)) (t : Tables)
    → 0 < size
    → length rows ≤ fuel
    → insert_chunks fuel size view rows t ≡ mv_insert view rows t
unfolding insert_chunks mv_insert insert_rows
insert_chunks-mv_insert fuel size view [] t h enough = refl
insert_chunks-mv_insert zero size view (row ∷ rows) t h enough = absurd (omega arith)
insert_chunks-mv_insert (suc fuel) size view (row ∷ rows) t h enough =
    insert_chunks-mv_insert fuel size view (drop size (row ∷ rows))
      (mv_insert view (take size (row ∷ rows)) t) h (omega (arith, length-drop size (row ∷ rows)))
    ∙ mv_insert-append view (take size (row ∷ rows)) (drop size (row ∷ rows)) t
    ∙ ap (λ r. mv_insert view r t) (take-append-drop size (row ∷ rows))
