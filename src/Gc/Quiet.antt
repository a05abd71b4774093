-- ===== src/Gc/Quiet.antt =====
-- A pass of the collector in which no call fails and nobody else acts.
use s3pgstore.Base.{
  ℕ, ◌+◌, ◌-◌, ◌≡◌, refl, Bool, true, false, ◌&&◌, not, none, List, [], ◌∷◌, arith, Bytes, bytes_eq,
  any, length,
}
use s3pgstore.Catalog.Pending.{pending_write_delete, pending_writes_scan}
use s3pgstore.Catalog.Pending.Rows.{pending-pending_write_delete}
use s3pgstore.Sequencer.{committed}
use s3pgstore.Store.{World, stored, filed, pending}
use s3pgstore.Gc.{
  Turn, deleted, Resolved, delete_object, delete_row, reclaim_one, reclaim_all,
  run_once_with_metrics,
}
use s3pgstore.Gc.Tracking.{stored-delete_object}

-- A turn in which every call succeeds and nobody else acts.
abbrev pub quiet : Turn
quiet = record { meanwhile = λ w. w; is_done = false; deletion = deleted; row = committed }

-- The key is among the scanned ones.
abbrev pub scanned : List Bytes → Bytes → Bool
scanned keys j = any (λ k. bytes_eq k j) keys

-- What is left of a key when the objects and rows of some keys have gone.
unfoldable pub IsSwept : List Bytes → World → World → Type 0
IsSwept keys w w' =
    (j : Bytes)
    → (stored j w' ≡ (stored j w && not (scanned keys j)))
      × (pending j w'.tables ≡ (pending j w.tables && not (scanned keys j)))
      × (filed j w'.tables ≡ filed j w.tables)

reclaim_one-quiet :
    (k : Bytes) (w : World)
    → ((reclaim_one deleted committed k w).0 ≡ true)
      × IsSwept (k ∷ []) w (reclaim_one deleted committed k w).1
unfolding reclaim_one delete_row delete_object IsSwept stored pending filed pending_write_delete
reclaim_one-quiet k w = (
  refl,
  (λ j. ground (arith, stored-delete_object k j w, pending-pending_write_delete k j w.tables)),
)

reclaim_all-quiet :
    (keys : List Bytes) (n : ℕ) (w : World)
    → ((reclaim_all (λ _. quiet) keys n w).0 ≡ (n + length keys, none))
      × IsSwept keys w (reclaim_all (λ _. quiet) keys n w).1
unfolding reclaim_all IsSwept
reclaim_all-quiet [] n w = (ground arith, (λ j. ground arith))
reclaim_all-quiet (k ∷ keys) n w =
    let one = reclaim_one-quiet k w in
    let rest = reclaim_all-quiet keys (n + 1) (reclaim_one deleted committed k w).1 in
    (ground (arith, one.0, rest.0), (λ j. ground (arith, one.0, one.1 j, rest.1 j)))

-- A pass in which no call fails and nobody else acts reclaims every scanned key, and returns their
-- number: no object and no tracking row is left with such a key, and everything with another key
-- and every file row stays.
pub run_once-quiet :
    (r : Resolved) (now : ℕ) (w : World)
    → let keys = pending_writes_scan (now - r.grace) r.batch_size w.tables in
      ((run_once_with_metrics false (λ _. quiet) r now w).0 ≡ (length keys, none))
      × IsSwept keys w (run_once_with_metrics false (λ _. quiet) r now w).1
unfolding run_once_with_metrics
run_once-quiet r now w =
    let all = reclaim_all-quiet (pending_writes_scan (now - r.grace) r.batch_size w.tables) 0 w in
    (ground (arith, all.0), all.1)
