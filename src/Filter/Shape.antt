-- ===== src/Filter/Shape.antt =====
-- filter.go: filters that are refused, and what the text of a clause depends on.
use s3pgstore.Base.{
  ℕ, suc, ◌+◌, ◌≡◌, refl, sym, ap, ap₂, subst, ◌∙◌, Bool, true, false, ◌&&◌, List, [], ◌∷◌, map,
  arith, if◌then◌else◌, Bytes, bytes_ltb, codes, length, length-append, length-map, Result, ok, err,
  ◌>>=◌, Bool-cases, inl, inr,
}
use s3pgstore.Filter.{
  PartitionFilter, eq_filter, prefix_filter, ge_filter, lt_filter, between_filter, in_filter,
  and_filter, or_filter, Filters, no_filters, filters, FilterError, not_between, ColResolver, Out,
  write_between, write, translate, translate_subs, translate_filters,
}
use s3pgstore.Filter.Meaning.{
  column_of, is_known, placeholder, placeholders, is_well_formed, are_well_formed, arguments,
  all_arguments, in_text, bracketed, clause, clauses, where_clause,
}
use s3pgstore.Filter.Clause.{translate_filters-where_clause}

-- The result is an error.
abbrev pub Fails : {A : Type 0} → Result FilterError A → Type 0
Fails (err e) = Unit
Fails (ok a) = ⊥

Fails-first :
    {A B : Type 0} (m : Result FilterError A) (next : A → Result FilterError B)
    → Fails m
    → Fails (m >>= next)
Fails-first (err e) next h = tt
Fails-first (ok a) next h = absurd h

Fails-next :
    {A B : Type 0} (m : Result FilterError A) (next : A → Result FilterError B)
    → ((a : A) → Fails (next a))
    → Fails (m >>= next)
Fails-next (err e) next h = tt
Fails-next (ok a) next h = h a

unknown-Fails :
    {A : Type 0} (m : Result FilterError Bytes) (next : Bytes → Result FilterError A)
    → is_known m ≡ false
    → Fails (m >>= next)
unknown-Fails (err e) next h = tt
unknown-Fails (ok c) next h = cc

between-Fails :
    (m : Result FilterError Bytes) (col from to : Bytes) (out : Out)
    → (is_known m && bytes_ltb from to) ≡ false
    → Fails (
        m >>= λ c.
        if bytes_ltb from to
        then ok (write_between c from to out)
        else err (not_between col from to))
between-Fails (err e) col from to out h = tt
between-Fails (ok c) col from to out h = rw h tt

mutual
  unfolding translate translate_subs is_well_formed are_well_formed

  translate-Fails :
      (r : ColResolver) (f : PartitionFilter) (out : Out)
      → is_well_formed r f ≡ false
      → Fails (translate r f out)
  translate-Fails r (eq_filter col value) out h = unknown-Fails (r col) _ h
  translate-Fails r (prefix_filter col prefix) out h = unknown-Fails (r col) _ h
  translate-Fails r (ge_filter col value) out h = unknown-Fails (r col) _ h
  translate-Fails r (lt_filter col value) out h = unknown-Fails (r col) _ h
  translate-Fails r (between_filter col from to) out h = between-Fails (r col) col from to out h
  translate-Fails r (in_filter col values) out h = unknown-Fails (r col) _ h
  translate-Fails r (and_filter no_filters) out h = cc
  translate-Fails r (and_filter (filters f fs)) out h =
      Fails-first _ _
        (translate_subs-Fails r (codes " AND ") true (filters f fs) (write (codes "(") out) h)
  translate-Fails r (or_filter no_filters) out h = cc
  translate-Fails r (or_filter (filters f fs)) out h =
      Fails-first _ _
        (translate_subs-Fails r (codes " OR ") true (filters f fs) (write (codes "(") out) h)

  translate_subs-Fails :
      (r : ColResolver) (sep : Bytes) (is_first : Bool) (fs : Filters) (out : Out)
      → are_well_formed r fs ≡ false
      → Fails (translate_subs r sep is_first fs out)
  translate_subs-Fails r sep is_first no_filters out h = cc
  translate_subs-Fails r sep is_first (filters f fs) out h =
      elim (Bool-cases (is_well_formed r f)) [
        | inl e ↦
            Fails-next _ _ (λ next. translate_subs-Fails r sep false fs next (ground (arith, h, e)))
        | inr e ↦ Fails-first _ _ (translate-Fails r f (if is_first then out else write sep out) e)
      ]

-- Filters with an unknown column or an empty interval, at any depth, are refused.
pub translate_filters-Fails :
    (fs : Filters) (r : ColResolver) → are_well_formed r fs ≡ false → Fails (translate_filters fs r)
unfolding translate_filters are_well_formed
translate_filters-Fails no_filters r h = cc
translate_filters-Fails (filters f no_filters) r h =
    translate-Fails r f ([], []) (ground (arith, h))
translate_filters-Fails (filters f (filters g fs)) r h =
    translate-Fails r (and_filter (filters f (filters g fs))) ([], []) h

-- A filter with its values blanked out.
unfoldable mutual
  pub shape : PartitionFilter → PartitionFilter
  shape (eq_filter col value) = eq_filter col []
  shape (prefix_filter col prefix) = prefix_filter col []
  shape (ge_filter col value) = ge_filter col []
  shape (lt_filter col value) = lt_filter col []
  shape (between_filter col from to) = between_filter col [] []
  shape (in_filter col values) = in_filter col (map (λ v. []) values)
  shape (and_filter fs) = and_filter (shapes fs)
  shape (or_filter fs) = or_filter (shapes fs)

  pub shapes : Filters → Filters
  shapes no_filters = no_filters
  shapes (filters f fs) = filters (shape f) (shapes fs)

placeholders-map :
    (n : ℕ) (values : List Bytes) → placeholders n (map (λ v. []) values) ≡ placeholders n values
unfolding placeholders
placeholders-map n [] = refl
placeholders-map n (v ∷ values) =
    ap (λ ns. placeholder (suc n) ∷ ns) (placeholders-map (suc n) values)

mutual
  unfolding shape shapes arguments all_arguments

  length-arguments : (f : PartitionFilter) → length (arguments (shape f)) ≡ length (arguments f)
  length-arguments (eq_filter col value) = refl
  length-arguments (prefix_filter col prefix) = refl
  length-arguments (ge_filter col value) = refl
  length-arguments (lt_filter col value) = refl
  length-arguments (between_filter col from to) = refl
  length-arguments (in_filter col values) = length-map (λ v. []) values
  length-arguments (and_filter fs) = length-all_arguments fs
  length-arguments (or_filter fs) = length-all_arguments fs

  length-all_arguments :
      (fs : Filters) → length (all_arguments (shapes fs)) ≡ length (all_arguments fs)
  length-all_arguments no_filters = refl
  length-all_arguments (filters f fs) = omega (
    arith,
    length-arguments f,
    length-all_arguments fs,
    length-append (arguments f) (all_arguments fs),
    length-append (arguments (shape f)) (all_arguments (shapes fs)),
  )

mutual
  unfolding shape shapes clause clauses

  clause-shape :
      (r : ColResolver) (n : ℕ) (f : PartitionFilter) → clause r n (shape f) ≡ clause r n f
  clause-shape r n (eq_filter col value) = refl
  clause-shape r n (prefix_filter col prefix) = refl
  clause-shape r n (ge_filter col value) = refl
  clause-shape r n (lt_filter col value) = refl
  clause-shape r n (between_filter col from to) = refl
  clause-shape r n (in_filter col values) =
      ap (λ ns. in_text (column_of (r col)) ns) (placeholders-map n values)
  clause-shape r n (and_filter fs) =
      ap (λ ts. bracketed (codes " AND ") (codes "TRUE") ts) (clauses-shapes r n fs)
  clause-shape r n (or_filter fs) =
      ap (λ ts. bracketed (codes " OR ") (codes "FALSE") ts) (clauses-shapes r n fs)

  clauses-shapes :
      (r : ColResolver) (n : ℕ) (fs : Filters) → clauses r n (shapes fs) ≡ clauses r n fs
  clauses-shapes r n no_filters = refl
  clauses-shapes r n (filters f fs) =
      ap₂ (λ t ts. t ∷ ts) (clause-shape r n f)
        (ap (λ k. clauses r (n + k) (shapes fs)) (length-arguments f)
          ∙ clauses-shapes r (n + length (arguments f)) fs)

where_clause-shapes :
    (r : ColResolver) (fs : Filters) → where_clause r (shapes fs) ≡ where_clause r fs
unfolding where_clause shapes
where_clause-shapes r no_filters = refl
where_clause-shapes r (filters f no_filters) = clause-shape r 0 f
where_clause-shapes r (filters f (filters g fs)) =
    clause-shape r 0 (and_filter (filters f (filters g fs)))

translated_clause :
    (fs : Filters) (r : ColResolver) (t : Bytes) (args : List Bytes)
    → translate_filters fs r ≡ ok (t, args)
    → t ≡ where_clause r fs
translated_clause fs r t args e = elim (Bool-cases (are_well_formed r fs)) [
  | inl h ↦ ok_text (sym e ∙ translate_filters-where_clause fs r h)
  | inr h ↦ absurd (subst Fails e (translate_filters-Fails fs r h))
]
  where
    ok_text :
        ◌≡◌ {A = Result FilterError Out} (ok (t, args)) (ok (where_clause r fs, all_arguments fs))
        → t ≡ where_clause r fs
    ok_text q = cc

-- Filters that differ in nothing but their values, and are both accepted, have the same text: no
-- value reaches it.
pub translate_filters-shapes :
    (fs gs : Filters) (r : ColResolver) (t u : Bytes) (args others : List Bytes)
    → shapes fs ≡ shapes gs
    → translate_filters fs r ≡ ok (t, args)
    → translate_filters gs r ≡ ok (u, others)
    → t ≡ u
translate_filters-shapes fs gs r t u args others same e q =
    translated_clause fs r t args e
    ∙ sym (where_clause-shapes r fs)
    ∙ ap (where_clause r) same
    ∙ where_clause-shapes r gs
    ∙ sym (translated_clause gs r u others q)
