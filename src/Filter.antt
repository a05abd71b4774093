-- ===== src/Filter.antt =====
-- filter.go: the filters of a read, and the WHERE clause with bound arguments that they become.
pub mod Meaning
pub mod Clause
pub mod Shape
use s3pgstore.Base.{
  ℕ, ◌+◌, Bool, true, false, not, ◌&&◌, List, [], ◌∷◌, ◌++◌, if◌then◌else◌, Bytes, bytes_eq,
  bytes_ltb, codes, length, any, Result, ok, err, ◌>>=◌,
}
use s3pgstore.Base.Decimal.{format_uint}
use s3pgstore.Base.Separated.{join}

-- The filters, each with its logical column, and the lists under And and Or.
mutual
  pub data PartitionFilter : Type 0 where
    eq_filter prefix_filter ge_filter lt_filter : Bytes → Bytes → PartitionFilter
    between_filter : Bytes → Bytes → Bytes → PartitionFilter
    in_filter : Bytes → List Bytes → PartitionFilter
    and_filter or_filter : Filters → PartitionFilter

  pub data Filters : Type 0 where
    no_filters : Filters
    filters : PartitionFilter → Filters → Filters

pub data FilterError : Type 0 where
  unknown_column : Bytes → FilterError
  not_between : Bytes → Bytes → Bytes → FilterError

abbrev pub ColResolver : Type 0
ColResolver = Bytes → Result FilterError Bytes

-- partColResolver
unfoldable pub part_col_resolver : List Bytes → ColResolver
part_col_resolver parts p =
    if any (λ q. bytes_eq q p) parts then ok (codes "part_" ++ p) else err (unknown_column p)

-- mvColResolver; pgx quotes the identifier.
unfoldable pub mv_col_resolver : (Bytes → Bytes) → List Bytes → ColResolver
mv_col_resolver sanitize cols c =
    if any (λ q. bytes_eq q c) cols then ok (sanitize c) else err (unknown_column c)

-- The text of the builder, and the arguments.
abbrev pub Out : Type 0
Out = Bytes × List Bytes

-- addArg
unfoldable pub add_arg : List Bytes → Bytes → Bytes × List Bytes
add_arg args v = let all = args ++ (v ∷ []) in (b'$' ∷ format_uint (length all), all)

-- `fmt.Fprintf(b, "%s op %s", col, addArg(args, value))`
unfoldable pub write_test : Bytes → Bytes → Bytes → Out → Out
unfolding add_arg
write_test op col value (b, args) =
    let (n, more) = add_arg args value in (b ++ (col ++ (op ++ n)), more)

unfoldable pub write_between : Bytes → Bytes → Bytes → Out → Out
unfolding add_arg
write_between col from to (b, args) =
    let (m, some_args) = add_arg args from in
    let (n, all) = add_arg some_args to in
    (
      b
          ++ (codes "("
              ++ (col
                  ++ (codes " >= "
                      ++ (m ++ (codes " AND " ++ (col ++ (codes " < " ++ (n ++ codes ")")))))))),
      all,
    )

-- The loop of inFilter over its values.
unfoldable pub place : List Bytes → List Bytes → List Bytes × List Bytes
unfolding add_arg
place [] args = ([], args)
place (v ∷ values) args =
    let (n, more) = add_arg args v in let (ns, all) = place values more in (n ∷ ns, all)

unfoldable pub write_in : Bytes → List Bytes → Out → Out
unfolding place join
write_in col [] (b, args) = (b ++ codes "FALSE", args)
write_in col (v ∷ values) (b, args) =
    let (ns, all) = place (v ∷ values) args in
    (b ++ (col ++ (codes " IN (" ++ (join (codes ", ") ns ++ codes ")"))), all)

abbrev pub write : Bytes → Out → Out
write s (b, args) = (b ++ s, args)

unfoldable mutual
  unfolding write_test write_between write_in

  -- The methods `translate`
  pub translate : ColResolver → PartitionFilter → Out → Result FilterError Out
  translate r (eq_filter col value) out = r col >>= λ c. ok (write_test (codes " = ") c value out)
  translate r (prefix_filter col prefix) out =
      r col >>= λ c. ok (write_test (codes " LIKE ") c (prefix ++ codes "%") out)
  translate r (ge_filter col value) out = r col >>= λ c. ok (write_test (codes " >= ") c value out)
  translate r (lt_filter col value) out = r col >>= λ c. ok (write_test (codes " < ") c value out)
  translate r (between_filter col from to) out = r col >>= λ c.
      if bytes_ltb from to then ok (write_between c from to out) else err (not_between col from to)
  translate r (in_filter col values) out = r col >>= λ c. ok (write_in c values out)
  translate r (and_filter no_filters) out = ok (write (codes "TRUE") out)
  translate r (and_filter (filters f fs)) out =
      translate_subs r (codes " AND ") true (filters f fs) (write (codes "(") out) >>= λ end.
      ok (write (codes ")") end)
  translate r (or_filter no_filters) out = ok (write (codes "FALSE") out)
  translate r (or_filter (filters f fs)) out =
      translate_subs r (codes " OR ") true (filters f fs) (write (codes "(") out) >>= λ end.
      ok (write (codes ")") end)

  -- The loops of andFilter and orFilter
  pub translate_subs : ColResolver → Bytes → Bool → Filters → Out → Result FilterError Out
  translate_subs r sep is_first no_filters out = ok out
  translate_subs r sep is_first (filters f fs) out =
      translate r f (if is_first then out else write sep out) >>= λ next.
      translate_subs r sep false fs next

-- translateFilters: the clause and its arguments.
unfoldable pub translate_filters : Filters → ColResolver → Result FilterError Out
unfolding translate
translate_filters no_filters r = ok ([], [])
translate_filters (filters f no_filters) r = translate r f ([], [])
translate_filters (filters f (filters g fs)) r =
    translate r (and_filter (filters f (filters g fs))) ([], [])
