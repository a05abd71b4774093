-- ===== src/Tests/Clauses.antt =====
-- Filters over two parts, and their clauses.
use s3pgstore.Base.{◌≡◌, refl, true, false, [], ◌∷◌, ok, codes, Bytes, bytes_ltb, bytes_eq}
use s3pgstore.Base.Decimal.{format_uint}
use s3pgstore.Filter.{
  eq_filter, between_filter, in_filter, or_filter, Filters, no_filters, filters, ColResolver,
  part_col_resolver, translate_filters,
}
use s3pgstore.Filter.Meaning.{are_well_formed, all_arguments, where_clause}
use s3pgstore.Filter.Clause.{translate_filters-where_clause}
use s3pgstore.Filter.Shape.{shapes, translate_filters-shapes}

abbrev day_hour : ColResolver
day_hour = part_col_resolver (codes "day" ∷ codes "hour" ∷ [])

abbrev two_filters : Bytes → Filters
two_filters v = filters (between_filter (codes "day") (codes "1") v) (
    filters
      (or_filter (
        filters (eq_filter (codes "hour") v)
          (filters (in_filter (codes "day") (v ∷ v ∷ [])) no_filters)))
      no_filters)

abbrev backwards : Filters
backwards = filters (between_filter (codes "day") (codes "2") (codes "1")) no_filters

two_filters_text :
    translate_filters (two_filters (codes "3")) day_hour
    ≡ ok (
      codes "((part_day >= $1 AND part_day < $2) AND (part_hour = $3 OR part_day IN ($4, $5)))",
      codes "1" ∷ codes "3" ∷ codes "3" ∷ codes "3" ∷ codes "3" ∷ [],
    )
unfolding translate_filters part_col_resolver bytes_eq bytes_ltb format_uint
two_filters_text = refl

injected_text :
    translate_filters (two_filters (codes "3; DROP")) day_hour
    ≡ ok (
      codes "((part_day >= $1 AND part_day < $2) AND (part_hour = $3 OR part_day IN ($4, $5)))",
      codes "1" ∷ codes "3; DROP" ∷ codes "3; DROP" ∷ codes "3; DROP" ∷ codes "3; DROP" ∷ [],
    )
unfolding translate_filters part_col_resolver bytes_eq bytes_ltb format_uint
injected_text = refl

are_fine : are_well_formed day_hour (two_filters (codes "3")) ≡ true
unfolding are_well_formed part_col_resolver bytes_eq bytes_ltb
are_fine = refl

are_backwards : are_well_formed day_hour backwards ≡ false
unfolding are_well_formed part_col_resolver bytes_eq bytes_ltb
are_backwards = refl

same_shapes : shapes (two_filters (codes "3")) ≡ shapes (two_filters (codes "3; DROP"))
unfolding shapes
same_shapes = refl

translate_filters-where_clause_example :
    translate_filters (two_filters (codes "3")) day_hour
    ≡ ok (where_clause day_hour (two_filters (codes "3")), all_arguments (two_filters (codes "3")))
translate_filters-where_clause_example =
    translate_filters-where_clause (two_filters (codes "3")) day_hour are_fine

translate_filters-shapes_example :
    codes "((part_day >= $1 AND part_day < $2) AND (part_hour = $3 OR part_day IN ($4, $5)))"
    ≡ codes "((part_day >= $1 AND part_day < $2) AND (part_hour = $3 OR part_day IN ($4, $5)))"
translate_filters-shapes_example =
    translate_filters-shapes (two_filters (codes "3")) (two_filters (codes "3; DROP")) day_hour _ _
      _ _ same_shapes two_filters_text injected_text
