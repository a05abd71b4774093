-- ===== src/Config/Checks.antt =====
-- config.go, validate: what its loops have seen where they find no fault.
use s3pgstore.Base.{
  ℕ, suc, ◌≤◌, ◌≡◌, refl, ap, Bool, true, false, not, ◌||◌, List, [], ◌∷◌, ◌++◌, map, arith, Bytes,
  bytes_eq, bytes_eq_iff, bytes_eq_refl, length, any, All,
}
use s3pgstore.Base.Separated.{Lacks}
use s3pgstore.Metadata.Values.{ExtensionColumn}
use s3pgstore.Metadata.Bag.Puts.{DistinctNames}
use s3pgstore.Partition.Grammar.{IsPart}
use s3pgstore.Config.{
  Config, ConfigError, MaterializedViewDef, all_word, is_empty, valid_ident, valid_table_prefix,
  valid_schema_name, unless, lower, check_parts, check_exts, check_distinct, check_columns,
  check_views, validate,
}

append-nil_both {ℓ} : {A : Type ℓ} (xs ys : List A) → xs ++ ys ≡ [] → (xs ≡ []) × (ys ≡ [])
append-nil_both [] ys h = (refl, h)
append-nil_both (x ∷ xs) ys h = cc

unless-nil : (b : Bool) (e : ConfigError) → unless b e ≡ [] → b ≡ true
unless-nil true e h = refl
unless-nil false e h = cc

-- Words hold neither `=` nor `/`.
all_word-Lacks : (s : Bytes) → all_word s ≡ true → Lacks b'=' s × Lacks b'/' s
all_word-Lacks [] h = (tt, tt)
all_word-Lacks (c ∷ s) h =
    let rest = all_word-Lacks s (ground (arith, h)) in
    (((λ e. ground (arith, h, e)), rest.0), ((λ e. ground (arith, h, e)), rest.1))

valid_ident-IsPart : (s : Bytes) → valid_ident s ≡ true → IsPart s × (length s ≤ 30)
unfolding valid_ident
valid_ident-IsPart [] h = cc
valid_ident-IsPart (c ∷ s) h =
    let rest = all_word-Lacks s (ground (arith, h)) in
    (
      ((λ e. cc), ((λ e. ground (arith, h, e)), rest.0), ((λ e. ground (arith, h, e)), rest.1)),
      ground (arith, h),
    )

pub check_parts-nil :
    (parts : List Bytes) → check_parts parts ≡ [] → All (λ p. IsPart p × (length p ≤ 30)) parts
unfolding check_parts
check_parts-nil [] h = tt
check_parts-nil (p ∷ parts) h =
    let (here, later) =
      append-nil_both (unless (valid_ident p) (ConfigError.bad_part p)) (check_parts parts) h in
    (
      valid_ident-IsPart p (unless-nil (valid_ident p) (ConfigError.bad_part p) here),
      check_parts-nil parts later,
    )

pub check_exts-nil :
    (i : ℕ) (exts : List ExtensionColumn)
    → check_exts i exts ≡ []
    → All (λ c. length c.name ≤ 30) exts
unfolding check_exts
check_exts-nil i [] h = tt
check_exts-nil i (c ∷ exts) h =
    let (here, rest) =
      append-nil_both (unless (valid_ident c.name) (ConfigError.bad_ext_name i)) _ h in
    let (_, later) =
      append-nil_both (unless _ (ConfigError.bad_ext_type i)) (check_exts (suc i) exts) rest in
    (
      (valid_ident-IsPart c.name (unless-nil _ (ConfigError.bad_ext_name i) here)).1,
      check_exts-nil (suc i) exts later,
    )

check_columns-nil :
    (i j : ℕ) (columns : List Bytes)
    → check_columns i j columns ≡ []
    → All (λ c. length c ≤ 30) columns
unfolding check_columns
check_columns-nil i j [] h = tt
check_columns-nil i j (c ∷ columns) h =
    let (here, later) =
      append-nil_both (unless (valid_ident c) (ConfigError.bad_view_column i j))
        (check_columns i (suc j) columns) h in
    (
      (valid_ident-IsPart c (unless-nil _ (ConfigError.bad_view_column i j) here)).1,
      check_columns-nil i (suc j) columns later,
    )

pub check_views-nil :
    (i : ℕ) (views : List MaterializedViewDef)
    → check_views i views ≡ []
    → All (λ v. (length v.name ≤ 30) × All (λ c. length c ≤ 30) v.columns) views
unfolding check_views
check_views-nil i [] h = tt
check_views-nil i (v ∷ views) h =
    let (here, rest) =
      append-nil_both (unless (valid_ident v.name) (ConfigError.bad_view_name i)) _ h in
    let (_, rest2) =
      append-nil_both (unless (not (is_empty v.columns)) (ConfigError.no_view_columns i)) _ rest in
    let (_, rest3) = append-nil_both (unless v.has_of (ConfigError.no_view_of i)) _ rest2 in
    let (columns, rest4) = append-nil_both (check_columns i 0 v.columns) _ rest3 in
    let (_, later) =
      append-nil_both (check_distinct (ConfigError.duplicate_view_column i) [] v.columns)
        (check_views (suc i) views) rest4 in
    (
      (
        (valid_ident-IsPart v.name (unless-nil _ (ConfigError.bad_view_name i) here)).1,
        check_columns-nil i 0 v.columns columns,
      ),
      check_views-nil (suc i) views later,
    )

not_seen :
    (a b : Bytes) (seen : List Bytes)
    → any (bytes_eq a) seen ≡ false
    → any (bytes_eq b) seen ≡ true
    → bytes_eq a b ≡ false
not_seen a b [] new old = cc
not_seen a b (s ∷ seen) new old =
    ground
      (arith, new, old, bytes_eq_iff a s, bytes_eq_iff b s, bytes_eq_iff a b, not_seen a b seen)

-- A name that was seen, in lower case, does not come again.
check_distinct-unseen :
    (duplicate : Bytes → ConfigError) (seen names : List Bytes) (k : Bytes)
    → check_distinct duplicate seen names ≡ []
    → any (bytes_eq k) seen ≡ true
    → All (λ n. bytes_eq (lower n) k ≡ false) names
unfolding check_distinct
check_distinct-unseen duplicate seen [] k h old = tt
check_distinct-unseen duplicate seen (n ∷ names) k h old =
    let (here, later) =
      append-nil_both (unless (not (any (bytes_eq (lower n)) seen)) (duplicate n)) _ h in
    let new = unless-nil (not (any (bytes_eq (lower n)) seen)) (duplicate n) here in
    (
      not_seen (lower n) k seen (ground (arith, new)) old,
      check_distinct-unseen duplicate (lower n ∷ seen) names k later (ground (arith, old)),
    )

pub check_distinct-DistinctNames :
    (duplicate : Bytes → ConfigError) (seen : List Bytes) (exts : List ExtensionColumn)
    → check_distinct duplicate seen (map (λ e. e.name) exts) ≡ []
    → DistinctNames exts
unfolding check_distinct
check_distinct-DistinctNames duplicate seen [] h = tt
check_distinct-DistinctNames duplicate seen (c ∷ exts) h =
    let (_, later) =
      append-nil_both (unless (not (any (bytes_eq (lower c.name)) seen)) (duplicate c.name)) _ h in
    (
      names_apart exts c (
          check_distinct-unseen duplicate (lower c.name ∷ seen) (map (λ e. e.name) exts)
            (lower c.name) later (ground (arith, bytes_eq_refl (lower c.name)))),
      check_distinct-DistinctNames duplicate (lower c.name ∷ seen) exts later,
    )
  where
    names_apart :
        (exts : List ExtensionColumn) (c : ExtensionColumn)
        → All (λ n. bytes_eq (lower n) (lower c.name) ≡ false) (map (λ e. e.name) exts)
        → All (λ d. bytes_eq d.name c.name ≡ false) exts
    names_apart [] c h = tt
    names_apart (d ∷ exts) c (h, hs) = (
      ground (
        arith,
        h,
        bytes_eq_iff d.name c.name,
        bytes_eq_iff (lower d.name) (lower c.name),
        ap lower,
      ),
      names_apart exts c hs,
    )

module _ (c : Config) (valid : validate c ≡ []) where
  -- The checks that found nothing.
  pub passed :
      (is_empty c.partition_key_parts ≡ false)
      × (check_parts c.partition_key_parts ≡ [])
      × ((is_empty c.table_prefix || valid_table_prefix c.table_prefix) ≡ true)
      × ((is_empty c.schema_name || valid_schema_name c.schema_name) ≡ true)
      × (check_exts 0 c.extension_columns ≡ [])
      × (check_distinct ConfigError.duplicate_ext [] (map (λ e. e.name) c.extension_columns) ≡ [])
      × (check_views 0 c.materialized_views ≡ [])
  unfolding validate
  passed =
      let (_, h1) = append-nil_both (unless c.has_executor ConfigError.executor_required) _ valid in
      let (_, h2) =
        append-nil_both (unless (not (is_empty c.s3_bucket)) ConfigError.bucket_required) _ h1 in
      let (_, h3) = append-nil_both (unless c.has_s3_client ConfigError.client_required) _ h2 in
      let (some_part, h4) =
        append-nil_both (unless (not (is_empty c.partition_key_parts)) ConfigError.parts_required) _
          h3 in
      let (parts, h5) = append-nil_both (check_parts c.partition_key_parts) _ h4 in
      let (_, h6) =
        append-nil_both (unless c.has_partition_key_of ConfigError.key_of_required) _ h5 in
      let (prefix, h7) =
        append-nil_both
          (unless (is_empty c.table_prefix || valid_table_prefix c.table_prefix)
            ConfigError.bad_prefix)
          _ h6 in
      let (schema, h8) =
        append-nil_both
          (unless (is_empty c.schema_name || valid_schema_name c.schema_name)
            ConfigError.bad_schema)
          _ h7 in
      let (exts, h9) = append-nil_both (check_exts 0 c.extension_columns) _ h8 in
      let (distinct, h10) =
        append-nil_both
          (check_distinct ConfigError.duplicate_ext [] (map (λ e. e.name) c.extension_columns)) _
          h9 in
      let (views, _) = append-nil_both (check_views 0 c.materialized_views) _ h10 in
      (
        ground (arith, unless-nil _ ConfigError.parts_required some_part),
        parts,
        unless-nil _ ConfigError.bad_prefix prefix,
        unless-nil _ ConfigError.bad_schema schema,
        exts,
        distinct,
        views,
      )
