-- ===== src/Schema/Checked.antt =====
-- schema.go: what Validate finds in a database that answers it.
use s3pgstore.Base.{
  ◌≡◌, ◌↔◌, refl, ap, ◌∙◌, true, false, ◌&&◌, List, [], ◌∷◌, ◌++◌, map, Bool-cases, inl, inr, Bytes,
  bytes_eq, keep, any, All, Result, ok, err, ◌>>=◌, first_value,
}
use s3pgstore.Config.{Config, ConfigError, validate, resolved}
use s3pgstore.Schema.{
  ExpectedTable, expected_schema, ColumnRow, Information, Missing, table_exists, table_columns,
  missing_columns, missing_of, as_error, validate_schema, SchemaError, bad_config,
}
use s3pgstore.Schema.Covers.{Covers}

-- The columns that the information has of a table.
abbrev pub columns_in : Information → Bytes → Bytes → List Bytes
columns_in info schema table =
    map (λ (r : ColumnRow). r.column_name)
      (keep (λ r. bytes_eq r.table_schema schema && bytes_eq r.table_name table) info.columns)

-- The table is there, with all the columns.
abbrev pub IsPresent : Information → Bytes → ExpectedTable → Type 0
IsPresent info schema t =
    (any (λ r. bytes_eq r.table_schema schema && bytes_eq r.table_name t.name) info.tables ≡ true)
    × Covers (columns_in info schema t.name) t.columns

abbrev pub Answers : Information → Type 0
Answers info =
    (table : Bytes) → (info.tables_fails table ≡ false) × (info.columns_fails table ≡ false)

pub missing_columns-nil :
    (schema table : Bytes) (cols wanted : List Bytes)
    → (missing_columns schema table cols wanted ≡ []) ↔ Covers cols wanted
unfolding missing_columns
missing_columns-nil schema table cols [] = (λ e. tt, λ all. refl)
missing_columns-nil schema table cols (want ∷ wanted) =
    let (there, back) = missing_columns-nil schema table cols wanted in
    elim (Bool-cases (any (λ c. bytes_eq c want) cols)) [
      | inl e ↦ rw e (λ none_missing. (refl, there none_missing), λ all. back all.1)
      | inr e ↦ rw e (λ none_missing. absurd cc, λ all. absurd (let no = all.0 in cc))
    ]

pub append-nil_iff : {A : Type 0} (xs ys : List A) → (xs ++ ys ≡ []) ↔ ((xs ≡ []) × (ys ≡ []))
append-nil_iff [] ys = (λ e. (refl, e), λ both. both.1)
append-nil_iff (x ∷ xs) ys = (λ e. absurd cc, λ both. absurd (let no = both.0 in cc))

pub missing_of-nil :
    (info : Information) (schema : Bytes) (expected : List ExpectedTable)
    → Answers info
    → (missing_of info schema expected ≡ ok []) ↔ All (IsPresent info schema) expected
unfolding missing_of table_exists table_columns
missing_of-nil info schema [] answers = (λ e. tt, λ all. refl)
missing_of-nil info schema (t ∷ expected) answers =
    let (asked, listed) = answers t.name in
    let (there, back) = missing_of-nil info schema expected answers in
    let cols = columns_in info schema t.name in
    let (covered, none_missing) = missing_columns-nil schema t.name cols t.columns in
    elim (Bool-cases
      (any (λ r. bytes_eq r.table_schema schema && bytes_eq r.table_name t.name) info.tables)) [
        | inl e ↦
            rw (asked, e, listed)
              (
                λ whole.
                    let (rest, first, last) =
                      first_value (missing_of info schema expected) _ whole in
                    let joined : missing_columns schema t.name cols t.columns ++ rest ≡ [] = cc in
                    let (none_here, none_after) =
                      (append-nil_iff (missing_columns schema t.name cols t.columns) rest).0
                        joined in
                    ((refl, covered none_here), there (first ∙ ap (λ r. ok r) none_after)),
                λ all. rw (back all.1, none_missing all.0.1) refl,
              )
        | inr e ↦
            rw (asked, e)
              (
                λ whole.
                    let (rest, first, last) =
                      first_value (missing_of info schema expected) _ whole in
                    absurd cc,
                λ all. absurd (let no = all.0.0 in cc),
              )
      ]

pub as_error-nil :
    (m : Result SchemaError (List Missing)) → ((m >>= as_error) ≡ ok tt) ↔ (m ≡ ok [])
unfolding as_error
as_error-nil (err e) = (λ h. absurd cc, λ h. absurd cc)
as_error-nil (ok []) = (λ h. refl, λ h. refl)
as_error-nil (ok (x ∷ missing)) = (λ h. absurd cc, λ h. absurd cc)

-- The check of the configuration, and then that of the database.
pub checked_iff :
    (P : Type 0) (faults : List ConfigError) (m : Result SchemaError (List Missing))
    → (m ≡ ok []) ↔ P
    → ((elim faults [ f ∷ more ↦ err (bad_config (f ∷ more)) | [] ↦ m >>= as_error ]) ≡ ok tt)
      ↔ ((faults ≡ []) × P)
checked_iff P [] m (there, back) =
    (λ h. (refl, there ((as_error-nil m).0 h)), λ both. (as_error-nil m).1 (back both.1))
checked_iff P (f ∷ faults) m all = (λ h. absurd cc, λ both. absurd (let no = both.0 in cc))

-- Over a database that answers both queries, Validate succeeds when the configuration has no fault
-- and every table and column that it expects is there, and only then.
pub validate_schema_iff :
    (c : Config) (info : Information)
    → Answers info
    → (validate_schema c info ≡ ok tt) ↔ (
        (validate c ≡ [])
        × All (IsPresent info (resolved c).schema_name) (expected_schema (resolved c)))
unfolding validate_schema
validate_schema_iff c info answers =
    checked_iff (All (IsPresent info (resolved c).schema_name) (expected_schema (resolved c)))
      (validate c) (missing_of info (resolved c).schema_name (expected_schema (resolved c)))
      (missing_of-nil info (resolved c).schema_name (expected_schema (resolved c)) answers)
