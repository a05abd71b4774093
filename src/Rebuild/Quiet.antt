-- ===== src/Rebuild/Quiet.antt =====
-- rebuild.go: the loops of a rebuild over objects that have a row already.
use s3pgstore.Base.{
  ℕ, ◌+◌, ◌≡◌, refl, sym, subst, ◌∙◌, Bool, not, Option, none, some, List, [], ◌∷◌, Bytes, length,
  Result, ok, err, All, All-map, Option-split, if-split, Result-split,
}
use s3pgstore.Base.Int.{pos}
use s3pgstore.Base.Sorting.{sort, All-sort}
use s3pgstore.Metadata.Bag.{new_recovered_fields, parse_ext_values, has_footer_fields}
use s3pgstore.Catalog.Tables.{Tables}
use s3pgstore.Catalog.Files.{NewFile}
use s3pgstore.Store.{filed}
use s3pgstore.Listing.{RebuildError, PartitionGroup}
use s3pgstore.Rebuild.{
  Head, RebuildCalls, RebuildConfig, RebuildResult, time_or, recovered_file, insert_on_conflict,
  with_version, exec_insert, insert_file_row, after_file, insert_files, after_files, insert_groups,
  by_key,
}
use s3pgstore.Rebuild.Rows.{IsFiled, AllKeys, recovered_file-key, set_partition-files}

-- The statements leave the rows of s3pgstore_files as they are.
abbrev pub IsQuiet : {A : Type 0} → Tables → A × Tables → Type 0
IsQuiet t r = r.1.files ≡ t.files

pub IsFiled-same : (t u : Tables) (k : Bytes) → u.files ≡ t.files → IsFiled t k → IsFiled u k
unfolding IsFiled filed
IsFiled-same t u k e h = rw e h

with_version-IsQuiet :
    (v : ℕ) (t : Tables) (r : Result RebuildError Bool × Tables)
    → IsQuiet t r
    → IsQuiet t (with_version v r)
with_version-IsQuiet v t (err e, u) h = h
with_version-IsQuiet v t (ok b, u) h = h

insert_on_conflict-IsQuiet :
    (f : NewFile) (time : ℕ) (t : Tables)
    → IsFiled t f.s3_key
    → IsQuiet t (insert_on_conflict f time t)
unfolding insert_on_conflict IsFiled filed
insert_on_conflict-IsQuiet f time t h = rw h refl

exec_insert-IsQuiet :
    (calls : RebuildCalls) (h : Head) (f : Option NewFile) (t : Tables)
    → ((n : NewFile) → f ≡ some n → IsFiled t n.s3_key)
    → IsQuiet t (exec_insert calls h f t)
unfolding exec_insert
exec_insert-IsQuiet calls h none t e = refl
exec_insert-IsQuiet calls h (some f) t e =
    if-split (IsQuiet t) (calls.insert_fails f.s3_key) _ _ (λ _. refl)
      (λ _.
        with_version-IsQuiet f.version t _
          (insert_on_conflict-IsQuiet f (time_or h.last_modified calls.now) t (e f refl)))

insert_file_row-IsQuiet :
    (cfg : RebuildConfig) (calls : RebuildCalls) (g : PartitionGroup) (k : Bytes) (i : ℕ)
    (t : Tables)
    → IsFiled t k
    → IsQuiet t (insert_file_row cfg calls g k i t)
unfolding insert_file_row
insert_file_row-IsQuiet cfg calls g k i t filed =
    Option-split (IsQuiet t) (calls.head k) _ _ (λ _. refl)
      (λ h _.
        let r = new_recovered_fields h.metadata cfg.exts (pos i) in
        Result-split (IsQuiet t) (parse_ext_values cfg.codec r.raw_ext cfg.exts []) _ _
          (λ values _.
            if-split (IsQuiet t) (not (has_footer_fields r)) _ _ (λ _. refl)
              (λ _.
                exec_insert-IsQuiet calls h (recovered_file cfg k g h r values) t (λ f e.
                  subst (IsFiled t) (sym (recovered_file-key cfg k g h r values f e)) filed)))
          (λ e _. refl))

after_file-IsQuiet :
    (go : ℕ × ℕ → Tables → Result RebuildError (ℕ × ℕ) × Tables) (t : Tables) (so_far : ℕ × ℕ)
    (r : Result RebuildError (ℕ × Bool) × Tables)
    → ((s : ℕ × ℕ) (u : Tables) → u.files ≡ t.files → IsQuiet u (go s u))
    → IsQuiet t r
    → IsQuiet t (after_file go so_far r)
after_file-IsQuiet go t (n, v) (err e, u) h d = d
after_file-IsQuiet go t (n, v) (ok (w, new), u) h d = h _ u d ∙ d

insert_files-IsQuiet :
    (cfg : RebuildConfig) (calls : RebuildCalls) (g : PartitionGroup) (ks : List Bytes) (i : ℕ)
    (so_far : ℕ × ℕ) (t : Tables)
    → All (IsFiled t) ks
    → IsQuiet t (insert_files cfg calls g ks i so_far t)
unfolding insert_files
insert_files-IsQuiet cfg calls g [] i so_far t h = refl
insert_files-IsQuiet cfg calls g (k ∷ ks) i so_far t (hk, h) =
    after_file-IsQuiet (insert_files cfg calls g ks (i + 1)) t so_far _
      (λ s u e.
        insert_files-IsQuiet cfg calls g ks (i + 1) s u (All-map (λ j. IsFiled-same t u j e) ks h))
      (insert_file_row-IsQuiet cfg calls g k (i + 1) t hk)

after_files-IsQuiet :
    (go : RebuildResult → Tables → Result RebuildError RebuildResult × Tables)
    (calls : RebuildCalls) (g : PartitionGroup) (t : Tables) (res : RebuildResult)
    (r : Result RebuildError (ℕ × ℕ) × Tables)
    → ((s : RebuildResult) (u : Tables) → u.files ≡ t.files → IsQuiet u (go s u))
    → IsQuiet t r
    → IsQuiet t (after_files go calls g res r)
unfolding after_files
after_files-IsQuiet go calls g t res (err e, u) h d = d
after_files-IsQuiet go calls g t res (ok (added, v), u) h d =
    let same =
      set_partition-files g.partition_key g.part_values v (length g.s3_keys) calls.now u ∙ d in
    if-split (IsQuiet t) (calls.upsert_fails g.partition_key) _ _ (λ _. d) (λ _. h _ _ same ∙ same)

pub insert_groups-IsQuiet :
    (cfg : RebuildConfig) (calls : RebuildCalls) (gs : List PartitionGroup) (res : RebuildResult)
    (t : Tables)
    → AllKeys (IsFiled t) gs
    → IsQuiet t (insert_groups cfg calls gs res t)
unfolding insert_groups
insert_groups-IsQuiet cfg calls [] res t h = refl
insert_groups-IsQuiet cfg calls (g ∷ gs) res t (hg, h) =
    after_files-IsQuiet (insert_groups cfg calls gs) calls g t res _
      (λ s u e.
        insert_groups-IsQuiet cfg calls gs s u
          (All-map (λ x. All-map (λ j. IsFiled-same t u j e) x.s3_keys) gs h))
      (insert_files-IsQuiet cfg calls g (sort by_key g.s3_keys) 0 (0, 0) t
        (All-sort by_key (IsFiled t) g.s3_keys hg))
