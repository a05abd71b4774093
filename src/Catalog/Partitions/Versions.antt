-- ===== src/Catalog/Partitions/Versions.antt =====
-- The versions of partitions under the two statements of sql.go that change them.
use s3pgstore.Base.{
  ℕ, ◌+◌, ◌≡◌, refl, Bool, false, ◌&&◌, not, Option, none, some, List, [], ◌∷◌, ◌++◌, map,
  if◌then◌else◌, ◌==◌, arith, Bytes, bytes_eq, bytes_eq_iff, find, Option-cases, inl, inr,
}
use s3pgstore.Catalog.Tables.{PartitionRow, Tables}
use s3pgstore.Catalog.Partitions.{
  has_key, bump, first_row, partition_upsert, partition_update_occ, version_of,
}

abbrev row_version : Option PartitionRow → ℕ
row_version none = 0
row_version (some r) = r.version

found_version : (j : Bytes) (rs : List PartitionRow) → ℕ
found_version j rs = row_version (find (has_key j) rs)

-- The bump leaves the versions of other keys.
version-bump_other :
    (key j : Bytes) (now : ℕ) (rs : List PartitionRow)
    → bytes_eq key j ≡ false
    → row_version (find (has_key j) (map (bump key now) rs)) ≡ row_version (find (has_key j) rs)
unfolding bump
version-bump_other key j now [] h = refl
version-bump_other key j now (s ∷ rs) h = ground (
  arith,
  h,
  bytes_eq_iff key j,
  bytes_eq_iff s.partition_key key,
  bytes_eq_iff s.partition_key j,
  version-bump_other key j now rs h,
)

-- Where a row of the key is found, the bump adds one to it.
version-bump_same :
    (key : Bytes) (now : ℕ) (rs : List PartitionRow) (r : PartitionRow)
    → find (has_key key) rs ≡ some r
    → row_version (find (has_key key) (map (bump key now) rs)) ≡ r.version + 1
unfolding bump
version-bump_same key now [] r h = ground (arith, h)
version-bump_same key now (s ∷ rs) r h = ground (arith, h, version-bump_same key now rs r)

version-bump :
    (key j : Bytes) (now : ℕ) (rs : List PartitionRow) (r : PartitionRow)
    → find (has_key key) rs ≡ some r
    → row_version (find (has_key j) (map (bump key now) rs))
      ≡ (if bytes_eq key j then r.version + 1 else row_version (find (has_key j) rs))
version-bump key j now rs r h = ground (
  arith,
  h,
  bytes_eq_iff key j,
  version-bump_other key j now rs,
  version-bump_same key now rs r h,
)

version-first :
    (key j : Bytes) (values : List Bytes) (now : ℕ) (rs : List PartitionRow)
    → find (has_key key) rs ≡ none
    → row_version (find (has_key j) (rs ++ (first_row key values now ∷ [])))
      ≡ (if bytes_eq key j then 1 else row_version (find (has_key j) rs))
version-first key j values now [] h = ground (arith, h)
version-first key j values now (s ∷ rs) h = ground (
  arith,
  h,
  bytes_eq_iff key j,
  bytes_eq_iff s.partition_key key,
  bytes_eq_iff s.partition_key j,
  version-first key j values now rs,
)

-- The upsert returns the version of the partition plus one, which it has afterwards, with every
-- other partition's version as it was; expecting 0 it returns no row, and changes nothing, exactly
-- when the version is not 0.
pub partition_upsert-version_of :
    (z : Bool) (key : Bytes) (values : List Bytes) (now : ℕ) (t : Tables) (j : Bytes)
    → (partition_upsert z key values now t).0
        ≡ (if z && not (version_of key t == 0) then none else some (version_of key t + 1))
      × (version_of j (partition_upsert z key values now t).1 ≡ (
          if z && not (version_of key t == 0)
          then version_of j t
          else if bytes_eq key j
          then version_of key t + 1
          else version_of j t))
unfolding partition_upsert version_of
partition_upsert-version_of z key values now t j =
    elim (Option-cases (find (has_key key) t.partitions)) [
      | inl e ↦ ground (arith, e, version-first key j values now t.partitions e)
      | inr (r, e) ↦ ground (arith, e, version-bump key j now t.partitions r e)
    ]

pub partition_update_occ-version_of :
    (key : Bytes) (n : ℕ) (now : ℕ) (t : Tables) (j : Bytes)
    → (partition_update_occ key (n + 1) now t).0
        ≡ (if version_of key t == (n + 1) then some (version_of key t + 1) else none)
      × (version_of j (partition_update_occ key (n + 1) now t).1 ≡ (
          if version_of key t == (n + 1)
          then (if bytes_eq key j then version_of key t + 1 else version_of j t)
          else version_of j t))
unfolding partition_update_occ version_of
partition_update_occ-version_of key n now t j =
    elim (Option-cases (find (has_key key) t.partitions)) [
      | inl e ↦ ground (arith, e)
      | inr (r, e) ↦ ground (arith, e, version-bump key j now t.partitions r e)
    ]
