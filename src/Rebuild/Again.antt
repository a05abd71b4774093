-- ===== src/Rebuild/Again.antt =====
-- rebuild.go, Rebuild: the objects of the bucket after it, and a rebuild that runs again.
use s3pgstore.Base.{
  ◌≡◌, refl, sym, subst, ◌∙◌, Option, none, some, List, [], Bytes, Result, ok, err, All,
}
use s3pgstore.Catalog.Tables.{Tables}
use s3pgstore.Listing.{
  RebuildError, list_failed, PartitionGroup, Page, list_all_keys, data_prefix_of,
  group_by_partition,
}
use s3pgstore.Rebuild.{RebuildCalls, RebuildConfig, RebuildResult, insert_groups, rebuild}
use s3pgstore.Rebuild.Rows.{IsFiled, IsKeptIn, AllKeys, GroupsFiled, insert_groups-GroupsFiled}
use s3pgstore.Rebuild.Quiet.{insert_groups-IsQuiet}
use s3pgstore.Rebuild.Groups.{OrOutside, group_by_partition-AllKeys}

no_result : RebuildResult
no_result = record { files_inserted = 0; partitions_inserted = 0 }

-- The groups that a rebuild works on, if it comes that far.
unfoldable pub groups_of :
    RebuildConfig → Bytes → List (Option Page) → Result RebuildError (List PartitionGroup)
groups_of cfg s3_prefix pages = elim (list_all_keys pages []) [
  | none ↦ err list_failed
  | some keys ↦ group_by_partition keys (data_prefix_of s3_prefix) cfg.parts
]

from_groups :
    RebuildConfig
    → RebuildCalls
    → Result RebuildError (List PartitionGroup)
    → Tables
    → Result RebuildError RebuildResult × Tables
from_groups cfg calls (err e) t = (err e, t)
from_groups cfg calls (ok groups) t = insert_groups cfg calls groups no_result t

rebuild-groups_of :
    (cfg : RebuildConfig) (calls : RebuildCalls) (s3_prefix : Bytes) (pages : List (Option Page))
    (t : Tables)
    → rebuild cfg calls s3_prefix pages t ≡ from_groups cfg calls (groups_of cfg s3_prefix pages) t
unfolding rebuild groups_of from_groups no_result
rebuild-groups_of cfg calls s3_prefix pages t = listed (list_all_keys pages [])
  where
    grouped :
        (r : Result RebuildError (List PartitionGroup))
        → (elim r [ err e ↦ (err e, t) | ok groups ↦ insert_groups cfg calls groups no_result t ])
          ≡ from_groups cfg calls r t
    grouped (err e) = refl
    grouped (ok gs) = refl

    listed :
        (o : Option (List Bytes))
        → (elim o [
          | none ↦ (err list_failed, t)
          | some keys ↦ elim (group_by_partition keys (data_prefix_of s3_prefix) cfg.parts) [
            | err e ↦ (err e, t)
            | ok groups ↦ insert_groups cfg calls groups no_result t
          ]
        ])
          ≡ from_groups cfg calls
              (elim o [
                | none ↦ err list_failed
                | some keys ↦ group_by_partition keys (data_prefix_of s3_prefix) cfg.parts
              ])
              t
    listed none = refl
    listed (some keys) = grouped (group_by_partition keys (data_prefix_of s3_prefix) cfg.parts)

-- What a result without an error says of the tables.
GroupsFiled-ok :
    (gs : List PartitionGroup) (t u : Tables) (res : RebuildResult)
    (r : Result RebuildError RebuildResult × Tables)
    → r ≡ (ok res, u)
    → GroupsFiled gs t r
    → IsKeptIn t u × AllKeys (IsFiled u) gs
GroupsFiled-ok gs t u res r e h = unfold GroupsFiled in subst (GroupsFiled gs t) e h

rebuild-AllKeys :
    (cfg : RebuildConfig) (calls : RebuildCalls) (s3_prefix : Bytes) (pages : List (Option Page))
    (t u : Tables) (res : RebuildResult)
    → rebuild cfg calls s3_prefix pages t ≡ (ok res, u)
    → (gs : List PartitionGroup) × (groups_of cfg s3_prefix pages ≡ ok gs)
      × IsKeptIn t u
      × AllKeys (IsFiled u) gs
rebuild-AllKeys cfg calls s3_prefix pages t u res e =
    grouped (groups_of cfg s3_prefix pages) refl
      (sym (rebuild-groups_of cfg calls s3_prefix pages t) ∙ e)
  where
    grouped :
        (r : Result RebuildError (List PartitionGroup))
        → groups_of cfg s3_prefix pages ≡ r
        → from_groups cfg calls r t ≡ (ok res, u)
        → (gs : List PartitionGroup) × (groups_of cfg s3_prefix pages ≡ ok gs)
          × IsKeptIn t u
          × AllKeys (IsFiled u) gs
    grouped (err x) q e = absurd (unfold from_groups in cc)
    grouped (ok gs) q e =
        let (kept, filed) =
          GroupsFiled-ok gs t u res (insert_groups cfg calls gs no_result t)
            (unfold from_groups in e) (insert_groups-GroupsFiled cfg calls gs no_result t) in
        (gs, q, kept, filed)

groups_of-listed :
    (cfg : RebuildConfig) (s3_prefix : Bytes) (pages : List (Option Page)) (keys : List Bytes)
    → list_all_keys pages [] ≡ some keys
    → groups_of cfg s3_prefix pages ≡ group_by_partition keys (data_prefix_of s3_prefix) cfg.parts
unfolding groups_of
groups_of-listed cfg s3_prefix pages keys l = rw (l, groups_of) refl

-- After a rebuild that returns without an error, each of the listed objects that lies in a partition
-- has a row, and the rows that were there before are still there, unchanged.
pub rebuild-IsFiled :
    (cfg : RebuildConfig) (calls : RebuildCalls) (s3_prefix : Bytes) (pages : List (Option Page))
    (keys : List Bytes) (t u : Tables) (res : RebuildResult)
    → list_all_keys pages [] ≡ some keys
    → rebuild cfg calls s3_prefix pages t ≡ (ok res, u)
    → All (OrOutside (data_prefix_of s3_prefix) (IsFiled u)) keys × IsKeptIn t u
rebuild-IsFiled cfg calls s3_prefix pages keys t u res l e =
    let (gs, q, kept, filed) = rebuild-AllKeys cfg calls s3_prefix pages t u res e in
    let grouped : group_by_partition keys (data_prefix_of s3_prefix) cfg.parts ≡ ok gs =
      sym (groups_of-listed cfg s3_prefix pages keys l) ∙ q in
    (
      group_by_partition-AllKeys (IsFiled u) (data_prefix_of s3_prefix) cfg.parts keys gs grouped
          filed,
      kept,
    )

-- A rebuild of the same listing, run again on the tables that one without an error left, adds no
-- row to s3pgstore_files and changes none, whatever the answers and the failures of its calls.
pub rebuild-again :
    (cfg : RebuildConfig) (calls others : RebuildCalls) (s3_prefix : Bytes)
    (pages : List (Option Page)) (t u : Tables) (res : RebuildResult)
    → rebuild cfg calls s3_prefix pages t ≡ (ok res, u)
    → (rebuild cfg others s3_prefix pages u).1.files ≡ u.files
rebuild-again cfg calls others s3_prefix pages t u res e =
    let (gs, q, kept, filed) = rebuild-AllKeys cfg calls s3_prefix pages t u res e in
    rw (rebuild-groups_of cfg others s3_prefix pages u)
      (rw q (unfold from_groups in insert_groups-IsQuiet cfg others gs no_result u filed))
