-- ===== src/Gc/Tracking.antt =====
-- What a pass of the collector leaves of objects and rows.
use s3pgstore.Base.{
  ℕ, zero, suc, ◌+◌, ◌-◌, ◌≡◌, refl, subst, Bool, true, false, ◌&&◌, not, Option, List, [], ◌∷◌,
  map, ltb, arith, Bytes, bytes_eq, bytes_eq_iff, bytes_eq_refl, any, keep, take, All, All-map,
  All-zip, if-split, ◌∙◌, ◌⊎◌, inl, inr,
}
use s3pgstore.Base.Orders.{nat_order}
use s3pgstore.Base.Sorting.{sort, by, All-sort}
use s3pgstore.Catalog.Tables.{PendingRow, Tables}
use s3pgstore.Catalog.Pending.{pending_write_delete, pending_writes_scan}
use s3pgstore.Catalog.Pending.Rows.{pending-pending_write_delete}
use s3pgstore.Sequencer.{TxOutcome, committed, rolled_back, committed_unseen}
use s3pgstore.Store.{Object, World, stored, filed, pending}
use s3pgstore.Write.Tracking.{IsTidy}
use s3pgstore.Gc.{
  GcError, Turn, Deletion, deleted, refused, deleted_unseen, Resolved, delete_object, delete_row,
  reclaim_one, reclaim_all, run_once_with_metrics,
}

any-keep-not :
    (k j : Bytes) (os : List Object)
    → any (λ o. bytes_eq o.key j) (keep (λ o. not (bytes_eq o.key k)) os)
      ≡ (any (λ o. bytes_eq o.key j) os && not (bytes_eq k j))
any-keep-not k j [] = refl
any-keep-not k j (o ∷ os) =
    ground
      (arith, bytes_eq_iff k j, bytes_eq_iff o.key k, bytes_eq_iff o.key j, any-keep-not k j os)

pub stored-delete_object :
    (k j : Bytes) (w : World) → stored j (delete_object k w) ≡ (stored j w && not (bytes_eq k j))
unfolding stored delete_object
stored-delete_object k j w = any-keep-not k j w.objects

-- The keys of a list have no row in s3pgstore_files.
unfoldable pub AreOrphans : List Bytes → World → Type 0
AreOrphans keys w = All (λ k. filed k w.tables ≡ false) keys

-- What others do keeps objects tracked.
unfoldable pub KeepsTidy : (World → World) → Type 0
KeepsTidy g = (w : World) → IsTidy w → IsTidy (g w)

-- What others do, in all turns, files no object with the key.
unfoldable pub IsSpared : (ℕ → Turn) → Bytes → Type 0
IsSpared turn k =
    (n : ℕ) (w : World) → filed k w.tables ≡ false → filed k ((turn n).meanwhile w).tables ≡ false

-- The keys of a world: the files are the same, an object goes only with the key `k`, and a row with
-- the key `k` only after its object.
abbrev IsReclaimed : Bytes → Bytes → World → World → Type 0
IsReclaimed k j w w' =
    (filed j w'.tables ≡ filed j w.tables)
    × (((stored j w' ≡ stored j w) × (pending j w'.tables ≡ pending j w.tables))
        ⊎ (stored j w' ≡ (stored j w && not (bytes_eq k j)))
          × ((pending j w'.tables ≡ pending j w.tables)
              ⊎ (pending j w'.tables ≡ (pending j w.tables && not (bytes_eq k j)))))

delete_row-IsReclaimed :
    (row : TxOutcome) (k j : Bytes) (w : World)
    → IsReclaimed k j w (delete_row row k (delete_object k w)).1
unfolding delete_row delete_object filed pending pending_write_delete stored
delete_row-IsReclaimed committed k j w =
    (refl, inr (stored-delete_object k j w, inr (pending-pending_write_delete k j w.tables)))
delete_row-IsReclaimed rolled_back k j w = (refl, inr (stored-delete_object k j w, inl refl))
delete_row-IsReclaimed committed_unseen k j w =
    (refl, inr (stored-delete_object k j w, inr (pending-pending_write_delete k j w.tables)))

reclaim_one-IsReclaimed :
    (d : Deletion) (row : TxOutcome) (k j : Bytes) (w : World)
    → IsReclaimed k j w (reclaim_one d row k w).1
unfolding reclaim_one
reclaim_one-IsReclaimed deleted row k j w = delete_row-IsReclaimed row k j w
reclaim_one-IsReclaimed refused row k j w = (refl, inl (refl, refl))
reclaim_one-IsReclaimed deleted_unseen row k j w = delete_row-IsReclaimed rolled_back k j w

reclaim_one-IsTidy :
    (d : Deletion) (row : TxOutcome) (k : Bytes) (w : World)
    → IsTidy w
    → filed k w.tables ≡ false
    → IsTidy (reclaim_one d row k w).1
unfolding IsTidy
reclaim_one-IsTidy d row k w tidy orphan j = ground (
  arith,
  tidy j,
  reclaim_one-IsReclaimed d row k j w,
  λ (e : bytes_eq k j ≡ true).
      subst (λ x. filed x w.tables ≡ false) ((bytes_eq_iff k j).0 e) orphan,
)

reclaim_one-AreOrphans :
    (d : Deletion) (row : TxOutcome) (k : Bytes) (w : World) (keys : List Bytes)
    → AreOrphans keys w
    → AreOrphans keys (reclaim_one d row k w).1
unfolding AreOrphans
reclaim_one-AreOrphans d row k w keys h =
    All-map (λ j e. (reclaim_one-IsReclaimed d row k j w).0 ∙ e) keys h

spared-AreOrphans :
    (turn : ℕ → Turn) (keys : List Bytes) (w : World)
    → All (IsSpared turn) keys
    → AreOrphans keys w
    → AreOrphans keys ((turn 0).meanwhile w)
unfolding AreOrphans IsSpared
spared-AreOrphans turn keys w = All-zip (λ k spared e. spared 0 w e) keys

reclaim_all-IsTidy :
    (turn : ℕ → Turn) (keys : List Bytes) (n : ℕ) (w : World)
    → IsTidy w
    → AreOrphans keys w
    → ((m : ℕ) → KeepsTidy (turn m).meanwhile)
    → All (IsSpared turn) keys
    → IsTidy (reclaim_all turn keys n w).1
unfolding reclaim_all KeepsTidy AreOrphans IsSpared
reclaim_all-IsTidy turn [] n w tidy orphans keeps spared = tidy
reclaim_all-IsTidy turn (k ∷ keys) n w tidy (orphan, orphans) keeps (spared, others) =
    let t = turn 0 in
    let w0 = t.meanwhile w in
    let tidy0 = keeps 0 w tidy in
    let orphans0 = spared-AreOrphans turn keys w others orphans in
    if-split {X = (ℕ × Option GcError) × World} (λ r. IsTidy r.1) t.is_done _ _ (λ _. tidy0)
      λ _.
        reclaim_all-IsTidy (λ m. turn (m + 1)) keys _ (reclaim_one t.deletion t.row k w0).1
          (reclaim_one-IsTidy t.deletion t.row k w0 tidy0 (spared 0 w orphan))
          (reclaim_one-AreOrphans t.deletion t.row k w0 keys orphans0) (λ m. keeps (m + 1))
          (All-map (λ j h m. h (m + 1)) keys others)

-- No row of s3pgstore_pending_writes has the key of a file.
unfoldable pub IsSettled : World → Type 0
IsSettled w = (j : Bytes) → pending j w.tables ≡ true → filed j w.tables ≡ false

take-All : {A : Type 0} (P : A → Type 0) (n : ℕ) (xs : List A) → All P xs → All P (take n xs)
take-All P zero xs h = tt
take-All P (suc n) [] h = tt
take-All P (suc n) (x ∷ xs) (px, h) = (px, take-All P n xs h)

keep-All : {A : Type 0} (P : A → Type 0) (q : A → Bool) (xs : List A) → All P xs → All P (keep q xs)
keep-All P q [] h = tt
keep-All P q (x ∷ xs) (px, h) =
    if-split (All P) (q x) _ _ (λ _. (px, keep-All P q xs h)) λ _. keep-All P q xs h

map-All :
    {A B : Type 0} (P : B → Type 0) (f : A → B) (xs : List A)
    → All (λ x. P (f x)) xs
    → All P (map f xs)
map-All P f [] h = tt
map-All P f (x ∷ xs) (px, h) = (px, map-All P f xs h)

rows_have_their_keys :
    (rows : List PendingRow) → All (λ r. any (λ x. bytes_eq x.s3_key r.s3_key) rows ≡ true) rows
rows_have_their_keys [] = tt
rows_have_their_keys (r ∷ rows) = (
  ground (arith, bytes_eq_refl r.s3_key),
  All-map (λ x h. ground (arith, h)) rows (rows_have_their_keys rows),
)

-- Every scanned key is pending.
scan-pending :
    (cutoff limit : ℕ) (t : Tables)
    → All (λ k. pending k t ≡ true) (pending_writes_scan cutoff limit t)
unfolding pending_writes_scan pending
scan-pending cutoff limit t =
    map-All _ (λ r. r.s3_key) (take limit sorted)
      (take-All _ limit sorted (
        All-sort (by nat_order (λ r. r.intended_at)) _ young (
          keep-All _ (λ r. ltb r.intended_at cutoff) t.pending_writes
            (rows_have_their_keys t.pending_writes))))
  where
    young : List PendingRow
    young = keep (λ r. ltb r.intended_at cutoff) t.pending_writes

    sorted : List PendingRow
    sorted = sort (by nat_order (λ r. r.intended_at)) young

-- A pass of the collector, with any of its calls failing, leaves every object pending or filed and
-- every filed object in the bucket, where no key is both pending and filed at the start, and what
-- others do in between keeps the two promises and files none of the scanned keys.
pub run_once-IsTidy :
    (scan_fails : Bool) (turn : ℕ → Turn) (r : Resolved) (now : ℕ) (w : World)
    → IsTidy w
    → IsSettled w
    → ((m : ℕ) → KeepsTidy (turn m).meanwhile)
    → All (IsSpared turn) (pending_writes_scan (now - r.grace) r.batch_size w.tables)
    → IsTidy (run_once_with_metrics scan_fails turn r now w).1
unfolding run_once_with_metrics IsSettled AreOrphans
run_once-IsTidy scan_fails turn r now w tidy settled keeps spared =
    if-split {X = (ℕ × Option GcError) × World} (λ x. IsTidy x.1) scan_fails _ _ (λ _. tidy)
      λ _.
        reclaim_all-IsTidy turn _ 0 w tidy
          (All-map (λ k h. settled k h) _ (scan-pending (now - r.grace) r.batch_size w.tables))
          keeps spared
