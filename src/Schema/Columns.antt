-- ===== src/Schema/Columns.antt =====
-- ddl.go: the columns of the tables that have columns of the configuration.
use s3pgstore.Base.{
  ◌≡◌, refl, ap, ap₂, ◌∙◌, true, List, [], ◌∷◌, ◌++◌, map, Bytes, bytes_eq, codes, any, All-append,
}
use s3pgstore.Schema.Ddl.{Column}
use s3pgstore.Schema.Covers.{Covers, Covers-left, Covers-right, Covers-refl, map-append}
use s3pgstore.Schema.Rows.{names_of}

pub map_id : {A : Type 0} (xs : List A) → map (λ x. x) xs ≡ xs
map_id [] = refl
map_id (x ∷ xs) = ap (λ r. x ∷ r) (map_id xs)

pub names-map :
    {A : Type 0} (f : A → Column) (g : A → Bytes) (xs : List A)
    → ((x : A) → (f x).name ≡ g x)
    → names_of (map f xs) ≡ map g xs
names-map f g [] same = refl
names-map f g (x ∷ xs) same = ap₂ (λ y ys. y ∷ ys) (same x) (names-map f g xs same)

pub names_behind :
    {A : Type 0} (f : A → Column) (g : A → Bytes) (xs : List A) (cs : List Column)
    → ((x : A) → (f x).name ≡ g x)
    → names_of (map f xs ++ cs) ≡ map g xs ++ names_of cs
names_behind f g xs cs same =
    map-append (λ (c : Column). c.name) (map f xs) cs
    ∙ ap (λ ns. ns ++ names_of cs) (names-map f g xs same)

abbrev pub first_names : List Bytes
first_names = codes "file_id" ∷ codes "s3_key" ∷ codes "partition_key" ∷ []

abbrev pub later_names : List Bytes
later_names =
    codes "file_size"
    ∷ codes "uncompressed_size"
    ∷ codes "record_count"
    ∷ codes "written_at_version"
    ∷ codes "written_at"
    ∷ codes "idempotency_token"
    ∷ codes "feed_seq"
    ∷ codes "feed_seq_at"
    ∷ []

abbrev pub expected_first : List Bytes
expected_first = codes "file_id" ∷ codes "partition_key" ∷ codes "s3_key" ∷ []

abbrev pub expected_later : List Bytes
expected_later =
    codes "feed_seq"
    ∷ codes "feed_seq_at"
    ∷ codes "written_at_version"
    ∷ codes "idempotency_token"
    ∷ codes "file_size"
    ∷ codes "uncompressed_size"
    ∷ codes "record_count"
    ∷ codes "written_at"
    ∷ []

pub first_cover : Covers first_names expected_first
unfolding bytes_eq
first_cover = (refl, (refl, (refl, tt)))

pub later_cover : Covers later_names expected_later
unfolding bytes_eq
later_cover = (refl, (refl, (refl, (refl, (refl, (refl, (refl, (refl, tt))))))))

-- The columns of s3pgstore_files, whatever the parts and the extensions are called.
pub files_cover :
    (parts exts : List Bytes)
    → Covers
        (first_names ++ (parts ++ (later_names ++ exts)))
        ((expected_first ++ expected_later) ++ (parts ++ exts))
files_cover parts exts =
    let behind = parts ++ (later_names ++ exts) in
    let deep : (xs : List Bytes)
        → Covers (later_names ++ exts) xs
        → Covers (first_names ++ behind) xs =
      λ xs c. Covers-right first_names behind xs (Covers-right parts (later_names ++ exts) xs c) in
    let Here : Bytes → Type 0 = λ x. any (λ y. bytes_eq y x) (first_names ++ behind) ≡ true in
    All-append Here (expected_first ++ expected_later) (parts ++ exts)
      (All-append Here expected_first expected_later
        (Covers-left first_names behind expected_first first_cover)
        (deep expected_later (Covers-left later_names exts expected_later later_cover)))
      (All-append Here parts exts
        (Covers-right first_names behind parts
          (Covers-left parts (later_names ++ exts) parts (Covers-refl parts)))
        (deep exts (Covers-right later_names exts exts (Covers-refl exts))))

abbrev pub version_names : List Bytes
version_names = codes "version" ∷ codes "file_count" ∷ codes "updated_at" ∷ []

-- The columns of s3pgstore_partitions.
pub partitions_cover :
    (parts : List Bytes)
    → Covers
        ((codes "partition_key" ∷ []) ++ (parts ++ version_names))
        ((codes "partition_key" ∷ version_names) ++ parts)
partitions_cover parts =
    let key = codes "partition_key" ∷ [] in
    let (first, _) = Covers-left key (parts ++ version_names) key (Covers-refl key) in
    let rest : Covers (key ++ (parts ++ version_names)) version_names =
      Covers-right key (parts ++ version_names) version_names
        (Covers-right parts version_names version_names (Covers-refl version_names)) in
    All-append _ (codes "partition_key" ∷ version_names) parts (first, rest)
      (Covers-right key (parts ++ version_names) parts
        (Covers-left parts version_names parts (Covers-refl parts)))
