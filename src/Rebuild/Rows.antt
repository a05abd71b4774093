-- ===== src/Rebuild/Rows.antt =====
-- rebuild.go: which objects have a row, while the loops of a rebuild run.
use s3pgstore.Base.{
  ℕ, ◌+◌, max, ◌≡◌, refl, sym, subst, ◌∙◌, Bool, true, not, Option, none, some, List, [], ◌∷◌, ◌++◌,
  append_assoc, append-nil, arith, if◌then◌else◌, Bytes, bytes_eq, bytes_eq_refl, length, any,
  any-append, find, Result, ok, err, All, All-map, Option-split, if-split, Result-split,
}
use s3pgstore.Base.Int.{pos}
use s3pgstore.Base.Dict.{Dict}
use s3pgstore.Base.Sorting.{sort, All-unsort}
use s3pgstore.Metadata.Values.{GoValue}
use s3pgstore.Metadata.Bag.{
  RecoveredFields, new_recovered_fields, parse_ext_values, has_footer_fields,
}
use s3pgstore.Catalog.Tables.{FileRow, Tables}
use s3pgstore.Catalog.Files.{NewFile, clashes, file_row}
use s3pgstore.Catalog.Partitions.{has_key}
use s3pgstore.Store.{filed}
use s3pgstore.Listing.{RebuildError, PartitionGroup}
use s3pgstore.Rebuild.{
  Head, RebuildCalls, RebuildConfig, RebuildResult, time_or, recovered_file, insert_on_conflict,
  with_version, exec_insert, insert_file_row, set_partition, after_file, insert_files, after_files,
  insert_groups, by_key,
}

holds : Bytes → FileRow → Bool
holds k r = bytes_eq r.s3_key k

-- The object has a row.
unfoldable pub IsFiled : Tables → Bytes → Type 0
IsFiled t k = filed k t ≡ true

-- The rows of the first tables stand, unchanged, in front of those of the second.
unfoldable pub IsKeptIn : Tables → Tables → Type 0
IsKeptIn t u = (more : List FileRow) × (u.files ≡ t.files ++ more)

pub IsKeptIn-refl : (t : Tables) → IsKeptIn t t
unfolding IsKeptIn
IsKeptIn-refl t = ([], sym (append-nil t.files))

pub IsKeptIn-trans : (t u v : Tables) → IsKeptIn t u → IsKeptIn u v → IsKeptIn t v
unfolding IsKeptIn
IsKeptIn-trans t u v (xs, p) (ys, q) = (
  xs ++ ys,
  q ∙ subst (λ fs. fs ++ ys ≡ t.files ++ (xs ++ ys)) (sym p) (append_assoc t.files xs ys),
)

pub IsFiled-IsKeptIn : (t u : Tables) (k : Bytes) → IsKeptIn t u → IsFiled t k → IsFiled u k
unfolding IsKeptIn IsFiled filed holds
IsFiled-IsKeptIn t u k (more, e) h = rw e (ground (arith, h, any-append (holds k) t.files more))

-- What a statement does to the rows, and to the row of one object if it succeeds.
Filed : {A : Type 0} → Bytes → Tables → Result RebuildError A × Tables → Type 0
Filed k t (err e, u) = IsKeptIn t u
Filed k t (ok a, u) = IsKeptIn t u × IsFiled u k

insert_on_conflict-Filed :
    (f : NewFile) (time : ℕ) (t : Tables) → Filed f.s3_key t (insert_on_conflict f time t)
unfolding insert_on_conflict Filed IsKeptIn IsFiled filed holds
insert_on_conflict-Filed f time t =
    if-split (Filed f.s3_key t) (any (holds f.s3_key) t.files) _ _
      (λ e. (([], sym (append-nil t.files)), e))
      (λ e.
        if-split (Filed f.s3_key t) (any (clashes f) t.files) _ _
          (λ _. ([], sym (append-nil t.files)))
          (λ _. (
            (_, refl),
            ground (
              arith,
              any-append (holds f.s3_key) t.files (file_row f t.next_file_id time ∷ []),
              bytes_eq_refl f.s3_key,
            ),
          )))

with_version-Filed :
    (k : Bytes) (v : ℕ) (t : Tables) (r : Result RebuildError Bool × Tables)
    → Filed k t r
    → Filed k t (with_version v r)
unfolding Filed
with_version-Filed k v t (err e, u) h = h
with_version-Filed k v t (ok b, u) h = h

exec_insert-Filed :
    (calls : RebuildCalls) (h : Head) (k : Bytes) (f : Option NewFile) (t : Tables)
    → ((n : NewFile) → f ≡ some n → n.s3_key ≡ k)
    → Filed k t (exec_insert calls h f t)
unfolding exec_insert Filed
exec_insert-Filed calls h k none t e = IsKeptIn-refl t
exec_insert-Filed calls h k (some f) t e =
    subst (λ j. Filed j t (exec_insert calls h (some f) t)) (e f refl)
      (if-split (Filed f.s3_key t) (calls.insert_fails f.s3_key) _ _ (λ _. IsKeptIn-refl t)
        (λ _.
          with_version-Filed f.s3_key f.version t _
            (insert_on_conflict-Filed f (time_or h.last_modified calls.now) t)))

pub recovered_file-key :
    (cfg : RebuildConfig) (k : Bytes) (g : PartitionGroup) (h : Head) (r : RecoveredFields)
    (values : Dict GoValue) (f : NewFile)
    → recovered_file cfg k g h r values ≡ some f
    → f.s3_key ≡ k
unfolding recovered_file
recovered_file-key cfg k g h r values f e = ground (arith, e)

insert_file_row-Filed :
    (cfg : RebuildConfig) (calls : RebuildCalls) (g : PartitionGroup) (k : Bytes) (i : ℕ)
    (t : Tables)
    → Filed k t (insert_file_row cfg calls g k i t)
unfolding insert_file_row Filed
insert_file_row-Filed cfg calls g k i t =
    Option-split (Filed k t) (calls.head k) _ _ (λ _. IsKeptIn-refl t)
      (λ h _.
        let r = new_recovered_fields h.metadata cfg.exts (pos i) in
        Result-split (Filed k t) (parse_ext_values cfg.codec r.raw_ext cfg.exts []) _ _
          (λ values _.
            if-split (Filed k t) (not (has_footer_fields r)) _ _ (λ _. IsKeptIn-refl t)
              (λ _.
                exec_insert-Filed calls h k (recovered_file cfg k g h r values) t
                  (λ f e. recovered_file-key cfg k g h r values f e)))
          (λ e _. IsKeptIn-refl t))

-- The same for the objects of a list.
unfoldable pub FiledAll :
    {A : Type 0} → List Bytes → Tables → Result RebuildError A × Tables → Type 0
FiledAll ks t (err e, u) = IsKeptIn t u
FiledAll ks t (ok a, u) = IsKeptIn t u × All (IsFiled u) ks

FiledAll-cons :
    {A : Type 0} (k : Bytes) (ks : List Bytes) (t u : Tables) (r : Result RebuildError A × Tables)
    → IsKeptIn t u
    → IsFiled u k
    → FiledAll ks u r
    → FiledAll (k ∷ ks) t r
unfolding FiledAll
FiledAll-cons k ks t u (err e, x) kept here d = IsKeptIn-trans t u x kept d
FiledAll-cons k ks t u (ok a, x) kept here (d, rest) =
    (IsKeptIn-trans t u x kept d, (IsFiled-IsKeptIn u x k d here, rest))

after_file-FiledAll :
    (go : ℕ × ℕ → Tables → Result RebuildError (ℕ × ℕ) × Tables) (k : Bytes) (ks : List Bytes)
    (t : Tables) (so_far : ℕ × ℕ) (r : Result RebuildError (ℕ × Bool) × Tables)
    → ((s : ℕ × ℕ) (u : Tables) → FiledAll ks u (go s u))
    → Filed k t r
    → FiledAll (k ∷ ks) t (after_file go so_far r)
unfolding Filed
after_file-FiledAll go k ks t (n, v) (err e, u) h d = unfold FiledAll in d
after_file-FiledAll go k ks t (n, v) (ok (w, new), u) h (kept, here) =
    FiledAll-cons k ks t u (go ((if new then n + 1 else n), max v w) u) kept here (h _ u)

pub insert_files-FiledAll :
    (cfg : RebuildConfig) (calls : RebuildCalls) (g : PartitionGroup) (ks : List Bytes) (i : ℕ)
    (so_far : ℕ × ℕ) (t : Tables)
    → FiledAll ks t (insert_files cfg calls g ks i so_far t)
unfolding insert_files
insert_files-FiledAll cfg calls g [] i so_far t = unfold FiledAll in (IsKeptIn-refl t, tt)
insert_files-FiledAll cfg calls g (k ∷ ks) i so_far t =
    after_file-FiledAll (insert_files cfg calls g ks (i + 1)) k ks t so_far _
      (λ s u. insert_files-FiledAll cfg calls g ks (i + 1) s u)
      (insert_file_row-Filed cfg calls g k (i + 1) t)

pub set_partition-files :
    (key : Bytes) (values : List Bytes) (v n now : ℕ) (t : Tables)
    → (set_partition key values v n now t).files ≡ t.files
unfolding set_partition
set_partition-files key values v n now t =
    Option-split (λ (u : Tables). u.files ≡ t.files) (find (has_key key) t.partitions) _ _
      (λ _. refl) (λ _ _. refl)

-- Every object of a list of groups.
abbrev pub AllKeys : (Bytes → Type 0) → List PartitionGroup → Type 0
AllKeys P = All (λ g. All P g.s3_keys)

unfoldable pub GroupsFiled :
    List PartitionGroup → Tables → Result RebuildError RebuildResult × Tables → Type 0
GroupsFiled gs t (err e, u) = IsKeptIn t u
GroupsFiled gs t (ok a, u) = IsKeptIn t u × AllKeys (IsFiled u) gs

GroupsFiled-cons :
    (g : PartitionGroup) (gs : List PartitionGroup) (t u : Tables)
    (r : Result RebuildError RebuildResult × Tables)
    → IsKeptIn t u
    → All (IsFiled u) g.s3_keys
    → GroupsFiled gs u r
    → GroupsFiled (g ∷ gs) t r
unfolding GroupsFiled
GroupsFiled-cons g gs t u (err e, x) kept here d = IsKeptIn-trans t u x kept d
GroupsFiled-cons g gs t u (ok a, x) kept here (d, rest) =
    (IsKeptIn-trans t u x kept d, (All-map (λ k. IsFiled-IsKeptIn u x k d) g.s3_keys here, rest))

after_files-GroupsFiled :
    (go : RebuildResult → Tables → Result RebuildError RebuildResult × Tables)
    (calls : RebuildCalls) (g : PartitionGroup) (gs : List PartitionGroup) (t : Tables)
    (res : RebuildResult) (r : Result RebuildError (ℕ × ℕ) × Tables)
    → ((s : RebuildResult) (u : Tables) → GroupsFiled gs u (go s u))
    → FiledAll (sort by_key g.s3_keys) t r
    → GroupsFiled (g ∷ gs) t (after_files go calls g res r)
unfolding FiledAll after_files
after_files-GroupsFiled go calls g gs t res (err e, u) h d = unfold GroupsFiled in d
after_files-GroupsFiled go calls g gs t res (ok (added, v), u) h (kept, here) =
    let u' = set_partition g.partition_key g.part_values v (length g.s3_keys) calls.now u in
    let moved : IsKeptIn u u' =
      unfold IsKeptIn in
      (
        [],
        set_partition-files g.partition_key g.part_values v (length g.s3_keys) calls.now u
            ∙ sym (append-nil u.files),
      ) in
    if-split (GroupsFiled (g ∷ gs) t) (calls.upsert_fails g.partition_key) _ _
      (λ _. unfold GroupsFiled in kept)
      (λ _.
        GroupsFiled-cons g gs t u' _ (IsKeptIn-trans t u u' kept moved)
          (All-map (λ k. IsFiled-IsKeptIn u u' k moved) g.s3_keys
            (All-unsort by_key (IsFiled u) g.s3_keys here))
          (h _ u'))

pub insert_groups-GroupsFiled :
    (cfg : RebuildConfig) (calls : RebuildCalls) (gs : List PartitionGroup) (res : RebuildResult)
    (t : Tables)
    → GroupsFiled gs t (insert_groups cfg calls gs res t)
unfolding insert_groups
insert_groups-GroupsFiled cfg calls [] res t = unfold GroupsFiled in (IsKeptIn-refl t, tt)
insert_groups-GroupsFiled cfg calls (g ∷ gs) res t =
    after_files-GroupsFiled (insert_groups cfg calls gs) calls g gs t res _
      (λ s u. insert_groups-GroupsFiled cfg calls gs s u)
      (insert_files-FiledAll cfg calls g (sort by_key g.s3_keys) 0 (0, 0) t)
