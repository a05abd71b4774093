-- ===== src/Filter/Meaning.antt =====
-- filter.go: which filters are well formed, and the clause and the arguments that they stand for.
use s3pgstore.Base.{
  ℕ, suc, ◌+◌, Bool, true, false, ◌&&◌, List, [], ◌∷◌, ◌++◌, Bytes, bytes_ltb, codes, length,
  Result, ok, err,
}
use s3pgstore.Base.Decimal.{format_uint}
use s3pgstore.Base.Separated.{join}
use s3pgstore.Filter.{
  PartitionFilter, eq_filter, prefix_filter, ge_filter, lt_filter, between_filter, in_filter,
  and_filter, or_filter, Filters, no_filters, filters, FilterError, ColResolver,
}

-- The name of a column, if it is known, and whether it is.
abbrev pub column_of : Result FilterError Bytes → Bytes
column_of (err e) = []
column_of (ok c) = c

abbrev pub is_known : Result FilterError Bytes → Bool
is_known (err e) = false
is_known (ok c) = true

-- The placeholder of the argument with a number, and those that follow `n` arguments.
abbrev pub placeholder : ℕ → Bytes
placeholder n = b'$' ∷ format_uint n

unfoldable pub placeholders : ℕ → List Bytes → List Bytes
placeholders n [] = []
placeholders n (v ∷ values) = placeholder (suc n) ∷ placeholders (suc n) values

unfoldable mutual
  -- Every column is known, and every interval is not empty.
  pub is_well_formed : ColResolver → PartitionFilter → Bool
  is_well_formed r (eq_filter col value) = is_known (r col)
  is_well_formed r (prefix_filter col prefix) = is_known (r col)
  is_well_formed r (ge_filter col value) = is_known (r col)
  is_well_formed r (lt_filter col value) = is_known (r col)
  is_well_formed r (between_filter col from to) = is_known (r col) && bytes_ltb from to
  is_well_formed r (in_filter col values) = is_known (r col)
  is_well_formed r (and_filter fs) = are_well_formed r fs
  is_well_formed r (or_filter fs) = are_well_formed r fs

  pub are_well_formed : ColResolver → Filters → Bool
  are_well_formed r no_filters = true
  are_well_formed r (filters f fs) = is_well_formed r f && are_well_formed r fs

unfoldable mutual
  -- The values of a filter, from left to right.
  pub arguments : PartitionFilter → List Bytes
  arguments (eq_filter col value) = value ∷ []
  arguments (prefix_filter col prefix) = (prefix ++ codes "%") ∷ []
  arguments (ge_filter col value) = value ∷ []
  arguments (lt_filter col value) = value ∷ []
  arguments (between_filter col from to) = from ∷ to ∷ []
  arguments (in_filter col values) = values
  arguments (and_filter fs) = all_arguments fs
  arguments (or_filter fs) = all_arguments fs

  pub all_arguments : Filters → List Bytes
  all_arguments no_filters = []
  all_arguments (filters f fs) = arguments f ++ all_arguments fs

abbrev pub in_text : Bytes → List Bytes → Bytes
in_text col [] = codes "FALSE"
in_text col (n ∷ ns) = col ++ (codes " IN (" ++ (join (codes ", ") (n ∷ ns) ++ codes ")"))

-- The members between brackets, or the text for none.
abbrev pub bracketed : Bytes → Bytes → List Bytes → Bytes
bracketed sep none_text [] = none_text
bracketed sep none_text (t ∷ ts) = codes "(" ++ (join sep (t ∷ ts) ++ codes ")")

unfoldable mutual
  unfolding placeholders arguments

  -- The clause of a filter behind `n` arguments, in the grammar of SQL.
  pub clause : ColResolver → ℕ → PartitionFilter → Bytes
  clause r n (eq_filter col value) = column_of (r col) ++ (codes " = " ++ placeholder (suc n))
  clause r n (prefix_filter col prefix) =
      column_of (r col) ++ (codes " LIKE " ++ placeholder (suc n))
  clause r n (ge_filter col value) = column_of (r col) ++ (codes " >= " ++ placeholder (suc n))
  clause r n (lt_filter col value) = column_of (r col) ++ (codes " < " ++ placeholder (suc n))
  clause r n (between_filter col from to) = bracketed (codes " AND ") [] (
      (column_of (r col) ++ (codes " >= " ++ placeholder (suc n)))
      ∷ (column_of (r col) ++ (codes " < " ++ placeholder (suc (suc n))))
      ∷ [])
  clause r n (in_filter col values) = in_text (column_of (r col)) (placeholders n values)
  clause r n (and_filter fs) = bracketed (codes " AND ") (codes "TRUE") (clauses r n fs)
  clause r n (or_filter fs) = bracketed (codes " OR ") (codes "FALSE") (clauses r n fs)

  pub clauses : ColResolver → ℕ → Filters → List Bytes
  clauses r n no_filters = []
  clauses r n (filters f fs) = clause r n f ∷ clauses r (n + length (arguments f)) fs

-- The clause of several filters, and no text for none.
unfoldable pub where_clause : ColResolver → Filters → Bytes
unfolding clause
where_clause r no_filters = []
where_clause r (filters f no_filters) = clause r 0 f
where_clause r (filters f (filters g fs)) = clause r 0 (and_filter (filters f (filters g fs)))
