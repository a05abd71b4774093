-- ===== src/Dedup.antt =====
-- dedup.go: the records of a read, sorted by entity and version, with older versions or repeats
-- dropped.
pub mod Latest
use s3pgstore.Base.{
  ℕ, Bool, true, false, not, ◌&&◌, Option, none, some, List, [], ◌∷◌, if◌then◌else◌, Bytes,
  bytes_eq,
}
use s3pgstore.Base.Int.{ℤ, int_eq}
use s3pgstore.Base.Orders.{StrictOrder, lex_order, bytes_order, int_order}
use s3pgstore.Base.Sorting.{sort, by}

module _ {T : Type 0} (entity_key : T → Bytes) (version_of : T → ℤ) where
  abbrev pub sort_key : T → Bytes × ℤ
  sort_key r = (entity_key r, version_of r)

  abbrev pub key_order : StrictOrder (Bytes × ℤ)
  key_order = lex_order bytes_order int_order

  -- The test of SliceStable.
  abbrev pub less : T → T → Bool
  less = by key_order sort_key

  -- The loop of dedupReplicas after its first record: the entity and the version seen last.
  unfoldable pub replicas_after : Bytes → ℤ → List T → List T
  replicas_after entity version [] = []
  replicas_after entity version (r ∷ rs) =
      let same = replicas_after entity version rs in
      let next = replicas_after (entity_key r) (version_of r) rs in
      if bytes_eq (entity_key r) entity && int_eq (version_of r) version then same else r ∷ next

  -- dedupReplicas
  unfoldable pub dedup_replicas : List T → List T
  unfolding replicas_after
  dedup_replicas [] = []
  dedup_replicas (r ∷ rs) = r ∷ replicas_after (entity_key r) (version_of r) rs

  -- The loop of dedupLatest after its first record: the pending record, with its entity.
  unfoldable pub latest_after : T → List T → List T
  latest_after pending [] = pending ∷ []
  latest_after pending (r ∷ rs) =
      let rest = latest_after r rs in
      if not (bytes_eq (entity_key r) (entity_key pending)) then pending ∷ rest else rest

  -- dedupLatest
  unfoldable pub dedup_latest : List T → List T
  unfolding latest_after
  dedup_latest [] = []
  dedup_latest (r ∷ rs) = latest_after r rs

-- sortAndDedup: without the two functions, the records as they are.
unfoldable pub sort_and_dedup :
    {T : Type 0} → Option (T → Bytes) → Option (T → ℤ) → Bool → List T → List T
unfolding dedup_replicas dedup_latest
sort_and_dedup none version_of history records = records
sort_and_dedup (some e) none history records = records
sort_and_dedup (some e) (some v) history records =
    let sorted = sort (less e v) records in
    if history then dedup_replicas e v sorted else dedup_latest e v sorted
