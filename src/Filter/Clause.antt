-- ===== src/Filter/Clause.antt =====
-- filter.go: the translation of well-formed filters.
use s3pgstore.Base.{
  suc, ◌+◌, ◌≡◌, refl, sym, ap, ap₂, ◌∙◌, Bool, true, false, ◌&&◌, List, [], ◌∷◌, ◌++◌,
  append_assoc, append-nil, arith, if◌then◌else◌, Bytes, bytes_ltb, codes, length, length-append,
  Result, ok, err, ◌>>=◌, and_true,
}
use s3pgstore.Base.Separated.{join}
use s3pgstore.Filter.{
  PartitionFilter, eq_filter, prefix_filter, ge_filter, lt_filter, between_filter, in_filter,
  and_filter, or_filter, Filters, no_filters, filters, FilterError, not_between, ColResolver, Out,
  add_arg, write_test, write_between, place, write_in, write, translate, translate_subs,
  translate_filters,
}
use s3pgstore.Filter.Meaning.{
  column_of, is_known, placeholder, placeholders, is_well_formed, are_well_formed, arguments,
  all_arguments, in_text, bracketed, clause, clauses, where_clause,
}

-- The text and the arguments, behind those that are there.
abbrev Added : Out → Bytes → List Bytes → Out
Added (b, args) text more = (b ++ text, args ++ more)

append_one : (args : List Bytes) (v : Bytes) → length (args ++ (v ∷ [])) ≡ suc (length args)
append_one args v = omega (arith, length-append args (v ∷ []))

append_two :
    (args : List Bytes) (v w : Bytes) → length (args ++ (v ∷ w ∷ [])) ≡ suc (suc (length args))
append_two args v w = omega (arith, length-append args (v ∷ w ∷ []))

write_test-clause :
    (op c v b : Bytes) (args : List Bytes)
    → write_test op c v (b, args)
      ≡ Added (b, args) (c ++ (op ++ placeholder (suc (length args)))) (v ∷ [])
unfolding write_test add_arg
write_test-clause op c v b args = rw (append_one args v) refl

write_between-clause :
    (c from to b : Bytes) (args : List Bytes)
    → write_between c from to (b, args)
      ≡ Added
          (b, args)
          (bracketed (codes " AND ") [] (
            (c ++ (codes " >= " ++ placeholder (suc (length args))))
            ∷ (c ++ (codes " < " ++ placeholder (suc (suc (length args)))))
            ∷ []))
          (from ∷ to ∷ [])
unfolding write_between add_arg join
write_between-clause c from to b args = simp (append_one, append_two, append_assoc)

place-placeholders :
    (values args : List Bytes)
    → place values args ≡ (placeholders (length args) values, args ++ values)
unfolding place add_arg placeholders
place-placeholders [] args = ap (λ r. ([], r)) (sym (append-nil args))
place-placeholders (v ∷ values) args = rw (place-placeholders values (args ++ (v ∷ []))) (
    rw (append_one args v) (
      ap (λ r. (placeholder (suc (length args)) ∷ placeholders (suc (length args)) values, r))
        (append_assoc args (v ∷ []) values)))

write_in-clause :
    (c : Bytes) (values : List Bytes) (b : Bytes) (args : List Bytes)
    → write_in c values (b, args)
      ≡ Added (b, args) (in_text c (placeholders (length args) values)) values
unfolding write_in placeholders
write_in-clause c [] b args = ap (λ r. (b ++ codes "FALSE", r)) (sym (append-nil args))
write_in-clause c (v ∷ values) b args =
    ap
      (λ (p : List Bytes × List Bytes).
        (b ++ (c ++ (codes " IN (" ++ (join (codes ", ") p.0 ++ codes ")"))), p.1))
      (place-placeholders (v ∷ values) args)

-- The members behind the first, each with the separator in front.
unfoldable joined_on : Bytes → List Bytes → Bytes
joined_on sep [] = []
joined_on sep (t ∷ ts) = sep ++ (t ++ joined_on sep ts)

join-joined_on : (sep t : Bytes) (ts : List Bytes) → join sep (t ∷ ts) ≡ t ++ joined_on sep ts
unfolding join joined_on
join-joined_on sep t [] = sym (append-nil t)
join-joined_on sep t (u ∷ ts) = ap (λ r. t ++ (sep ++ r)) (join-joined_on sep u ts)

-- What a loop has added, at its first member or behind one.
abbrev subs_text : Bytes → Bool → List Bytes → Bytes
subs_text sep is_first [] = []
subs_text sep true (t ∷ ts) = t ++ joined_on sep ts
subs_text sep false (t ∷ ts) = sep ++ (t ++ joined_on sep ts)

known_column : (m : Result FilterError Bytes) → is_known m ≡ true → m ≡ ok (column_of m)
known_column (err e) h = cc
known_column (ok c) h = refl

-- One column and one argument.
one_test :
    (m : Result FilterError Bytes) (op v b : Bytes) (args : List Bytes)
    → is_known m ≡ true
    → (m >>= λ c. ok (write_test op c v (b, args)))
      ≡ ok (Added (b, args) (column_of m ++ (op ++ placeholder (suc (length args)))) (v ∷ []))
one_test (err e) op v b args h = cc
one_test (ok c) op v b args h = ap ok (write_test-clause op c v b args)

between_test :
    (m : Result FilterError Bytes) (col from to b : Bytes) (args : List Bytes)
    → (is_known m && bytes_ltb from to) ≡ true
    → (m >>= λ c.
        if bytes_ltb from to
        then ok (write_between c from to (b, args))
        else err (not_between col from to))
      ≡ ok (
          Added
            (b, args)
            (bracketed (codes " AND ") [] (
              (column_of m ++ (codes " >= " ++ placeholder (suc (length args))))
              ∷ (column_of m ++ (codes " < " ++ placeholder (suc (suc (length args)))))
              ∷ []))
            (from ∷ to ∷ []))
between_test (err e) col from to b args h = cc
between_test (ok c) col from to b args h = rw h (ap ok (write_between-clause c from to b args))

in_test :
    (m : Result FilterError Bytes) (values : List Bytes) (b : Bytes) (args : List Bytes)
    → is_known m ≡ true
    → (m >>= λ c. ok (write_in c values (b, args)))
      ≡ ok (Added (b, args) (in_text (column_of m) (placeholders (length args) values)) values)
in_test (err e) values b args h = cc
in_test (ok c) values b args h = ap ok (write_in-clause c values b args)

later_text : (sep : Bytes) (ts : List Bytes) → subs_text sep false ts ≡ joined_on sep ts
unfolding joined_on
later_text sep [] = refl
later_text sep (t ∷ ts) = refl

-- What a loop adds behind a member, from its result there.
behind_member :
    (sep b t : Bytes) (args vs : List Bytes) (r : ColResolver) (fs : Filters)
    → Added
        (b ++ t, args ++ vs)
        (subs_text sep false (clauses r (length (args ++ vs)) fs))
        (all_arguments fs)
      ≡ Added
          (b, args)
          (t ++ joined_on sep (clauses r (length args + length vs) fs))
          (vs ++ all_arguments fs)
behind_member sep b t args vs r fs = simp (later_text, length-append, append_assoc)

between_brackets :
    (sep none_text b t : Bytes) (ts args vs : List Bytes)
    → write (codes ")") (Added (b ++ codes "(", args) (t ++ joined_on sep ts) vs)
      ≡ Added (b, args) (bracketed sep none_text (t ∷ ts)) vs
between_brackets sep none_text b t ts args vs = rw (join-joined_on sep t ts) (simp (append_assoc))

mutual
  unfolding translate translate_subs is_well_formed are_well_formed arguments all_arguments clause
      clauses

  translate-clause :
      (r : ColResolver) (f : PartitionFilter) (b : Bytes) (args : List Bytes)
      → is_well_formed r f ≡ true
      → translate r f (b, args) ≡ ok (Added (b, args) (clause r (length args) f) (arguments f))
  translate-clause r (eq_filter col value) b args h = one_test (r col) (codes " = ") value b args h
  translate-clause r (prefix_filter col prefix) b args h =
      one_test (r col) (codes " LIKE ") (prefix ++ codes "%") b args h
  translate-clause r (ge_filter col value) b args h = one_test (r col) (codes " >= ") value b args h
  translate-clause r (lt_filter col value) b args h = one_test (r col) (codes " < ") value b args h
  translate-clause r (between_filter col from to) b args h =
      between_test (r col) col from to b args h
  translate-clause r (in_filter col values) b args h = in_test (r col) values b args h
  translate-clause r (and_filter no_filters) b args h =
      ap (λ vs. ok (b ++ codes "TRUE", vs)) (sym (append-nil args))
  translate-clause r (and_filter (filters f fs)) b args h =
      ap (λ m. m >>= λ end. ok (write (codes ")") end))
        (translate_subs-clauses r (codes " AND ") true (filters f fs) (b ++ codes "(") args h)
      ∙ ap ok (
          between_brackets (codes " AND ") (codes "TRUE") b (clause r (length args) f)
            (clauses r (length args + length (arguments f)) fs) args
            (arguments f ++ all_arguments fs))
  translate-clause r (or_filter no_filters) b args h =
      ap (λ vs. ok (b ++ codes "FALSE", vs)) (sym (append-nil args))
  translate-clause r (or_filter (filters f fs)) b args h =
      ap (λ m. m >>= λ end. ok (write (codes ")") end))
        (translate_subs-clauses r (codes " OR ") true (filters f fs) (b ++ codes "(") args h)
      ∙ ap ok (
          between_brackets (codes " OR ") (codes "FALSE") b (clause r (length args) f)
            (clauses r (length args + length (arguments f)) fs) args
            (arguments f ++ all_arguments fs))

  translate_subs-clauses :
      (r : ColResolver) (sep : Bytes) (is_first : Bool) (fs : Filters) (b : Bytes)
      (args : List Bytes)
      → are_well_formed r fs ≡ true
      → translate_subs r sep is_first fs (b, args)
        ≡ ok (
            Added
              (b, args)
              (subs_text sep is_first (clauses r (length args) fs))
              (all_arguments fs))
  translate_subs-clauses r sep is_first no_filters b args h =
      ap₂ (λ x y. ok (x, y)) (sym (append-nil b)) (sym (append-nil args))
  translate_subs-clauses r sep true (filters f fs) b args h =
      let (hf, hfs) = and_true _ _ h in
      rw (translate-clause r f b args hf) (
        translate_subs-clauses r sep false fs (b ++ clause r (length args) f) (args ++ arguments f)
          hfs
        ∙ ap ok (behind_member sep b (clause r (length args) f) args (arguments f) r fs))
  translate_subs-clauses r sep false (filters f fs) b args h =
      let (hf, hfs) = and_true _ _ h in
      rw (translate-clause r f (b ++ sep) args hf) (
        translate_subs-clauses r sep false fs ((b ++ sep) ++ clause r (length args) f)
          (args ++ arguments f) hfs
        ∙ ap ok (behind_member sep (b ++ sep) (clause r (length args) f) args (arguments f) r fs)
        ∙ ap (λ x. ok (x, args ++ (arguments f ++ all_arguments fs)))
            (append_assoc b sep (
              clause r (length args) f
              ++ joined_on sep (clauses r (length args + length (arguments f)) fs))))

-- Filters whose columns are known and whose intervals are not empty are translated to the clause of
-- the reference, with their values as the arguments, from left to right.
pub translate_filters-where_clause :
    (fs : Filters) (r : ColResolver)
    → are_well_formed r fs ≡ true
    → translate_filters fs r ≡ ok (where_clause r fs, all_arguments fs)
unfolding translate_filters where_clause are_well_formed all_arguments
translate_filters-where_clause no_filters r h = refl
translate_filters-where_clause (filters f no_filters) r h =
    translate-clause r f [] [] (and_true _ _ h).0
    ∙ ap (λ vs. ok (clause r 0 f, vs)) (sym (append-nil (arguments f)))
translate_filters-where_clause (filters f (filters g fs)) r h =
    translate-clause r (and_filter (filters f (filters g fs))) [] [] h
