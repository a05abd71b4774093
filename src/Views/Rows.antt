-- ===== src/Views/Rows.antt =====
-- materialized_view.go: resolveMVRows makes the tuples that the closures give, and no other.
use s3pgstore.Base.{
  ℕ, suc, ◌≡◌, refl, sym, ap, ap₂, subst, ◌∙◌, Bool, true, false, ◌&&◌, ◌||◌, List, [], ◌∷◌, ◌++◌,
  arith, ◌==◌, ==_iff, Bool-cases, inl, inr, Option-split, if-split, Bytes, bytes_eq, length, any,
  any-append, All, All-append, ok, first_value,
}
use s3pgstore.Base.Groups.{or_nil}
use s3pgstore.Base.Separated.{Lacks}
use s3pgstore.Catalog.Views.{tuple_eq}
use s3pgstore.Write.Tx.{ViewRows}
use s3pgstore.Views.{
  ViewDef, Gathered, tuple_key, gather, add_emitted, add_records, resolve_view, resolve_mv_rows,
}
use s3pgstore.Views.Tuples.{tuple_key-eq, tuple_eq_sound}

-- A tuple with a value for each column, none with a NUL in it.
abbrev Fits : List Bytes → List Bytes → Type 0
Fits columns r = (length r ≡ length columns) × All (Lacks 0) r

-- A key is among those seen when its tuple is among the rows.
abbrev IsTold : List Bytes → Gathered → Type 0
IsTold columns g =
    All (Fits columns) g.rows
    × ((r : List Bytes)
        → Fits columns r
        → any (λ k. bytes_eq k (tuple_key r)) g.seen ≡ any (λ u. tuple_eq u r) g.rows)

abbrev pub among : List Bytes → List (List Bytes) → Bool
among r rows = any (λ u. tuple_eq u r) rows

-- Rows with more tuples: those of before and the ones that were emitted.
abbrev Gathers : List Bytes → Gathered → List (List Bytes) → Gathered → Type 0
Gathers columns g emitted h =
    IsTold columns h × ((q : List Bytes) → among q h.rows ≡ (among q g.rows || among q emitted))

-- A tuple of the same key that was seen is the same tuple.
told_twice :
    (columns r : List Bytes) (g : Gathered)
    → Fits columns r
    → IsTold columns g
    → any (λ k. bytes_eq k (tuple_key r)) g.seen ≡ true
    → (q : List Bytes) → among q g.rows ≡ (among q g.rows || (tuple_eq r q || false))
told_twice columns r g fits (all, told) e q = elim (Bool-cases (tuple_eq r q)) [
  | inl same ↦
      let there : among q g.rows ≡ true =
        subst (λ u. among u g.rows ≡ true) (tuple_eq_sound r q same) (sym (told r fits) ∙ e) in
      ground (arith, there)
  | inr other ↦ ground (arith, other)
]

gather-Gathers :
    (columns r : List Bytes) (g : Gathered)
    → Fits columns r
    → IsTold columns g
    → Gathers columns g (r ∷ []) (gather r g)
unfolding gather
gather-Gathers columns r g (same, clean) (all, told) =
    elim (Bool-cases (any (λ k. bytes_eq k (tuple_key r)) g.seen)) [
      | inl e ↦ rw e ((all, told), told_twice columns r g (same, clean) (all, told) e)
      | inr e ↦ rw e (
        (
          All-append (Fits columns) g.rows (r ∷ []) all ((same, clean), tt),
          λ q (same_q, clean_q).
              let key = tuple_key-eq r q (same ∙ sym same_q) clean clean_q in
              let more = any-append (λ u. tuple_eq u q) g.rows (r ∷ []) in
              ground (arith, key, told q (same_q, clean_q), more),
        ),
        λ q. any-append (λ u. tuple_eq u q) g.rows (r ∷ []),
      )
    ]

-- One after the other.
Gathers-trans :
    (columns : List Bytes) (f g h : Gathered) (some_tuples more : List (List Bytes))
    → Gathers columns f some_tuples g
    → Gathers columns g more h
    → Gathers columns f (some_tuples ++ more) h
Gathers-trans columns f g h some_tuples more (_, first) (told, second) = (
  told,
  λ q.
      let all = any-append (λ u. tuple_eq u q) some_tuples more in
      ground (arith, first q, second q, all),
)

module _ {T : Type 0} (mv : ViewDef T) where
  add_emitted-Gathers :
      (i j : ℕ) (emitted : List (List Bytes)) (g h : Gathered)
      → All (All (Lacks 0)) emitted
      → IsTold mv.columns g
      → add_emitted mv i j emitted g ≡ ok h
      → Gathers mv.columns g emitted h
  unfolding add_emitted
  add_emitted-Gathers i j [] g h clean told e =
      let same : g ≡ h = cc in
      (subst (IsTold mv.columns) same told, λ q. ground (arith, ap (λ x. among q x.rows) same))
  add_emitted-Gathers i j (r ∷ emitted) g h (clean, cleans) told e =
      if-split (λ x. x ≡ ok h → Gathers mv.columns g (r ∷ emitted) h)
        (length r == length mv.columns) _ _
        (λ fits e.
          let first =
            gather-Gathers mv.columns r g ((==_iff (length r) (length mv.columns)).0 fits, clean)
              told in
          Gathers-trans mv.columns g (gather r g) h (r ∷ []) emitted first
            (add_emitted-Gathers i (suc j) emitted (gather r g) h cleans first.0 e))
        (λ bad e. absurd cc) e

  -- The tuples that the closure gives for the records.
  abbrev pub all_emitted : List T → List (List Bytes)
  all_emitted [] = []
  all_emitted (rec ∷ records) = or_nil (mv.of rec) ++ all_emitted records

  abbrev pub IsClean : Type 0
  IsClean = (rec : T) → All (All (Lacks 0)) (or_nil (mv.of rec))

  add_records-Gathers :
      (i : ℕ) (records : List T) (g h : Gathered)
      → IsClean
      → IsTold mv.columns g
      → add_records mv i records g ≡ ok h
      → Gathers mv.columns g (all_emitted records) h
  unfolding add_records
  add_records-Gathers i [] g h clean told e =
      let same : g ≡ h = cc in
      (subst (IsTold mv.columns) same told, λ q. ground (arith, ap (λ x. among q x.rows) same))
  add_records-Gathers i (rec ∷ records) g h clean told e =
      Option-split (λ x. x ≡ ok h → Gathers mv.columns g (all_emitted (rec ∷ records)) h)
        (mv.of rec) _ _ (λ failed e. absurd cc)
        (λ emitted given e.
          let (f, first, rest) = first_value (add_emitted mv i 0 emitted g) _ e in
          let clean_now : All (All (Lacks 0)) emitted =
            subst (λ o. All (All (Lacks 0)) (or_nil o)) given (clean rec) in
          let now = add_emitted-Gathers i 0 emitted g f clean_now told first in
          rw given (
            Gathers-trans mv.columns g f h emitted (all_emitted records) now
              (add_records-Gathers (suc i) records f h clean now.0 rest)))
        e

  resolve_view-among :
      (records : List T) (v : ViewRows)
      → IsClean
      → resolve_view mv records ≡ ok v
      → (v.name ≡ mv.name) × ((q : List Bytes) → among q v.rows ≡ among q (all_emitted records))
  unfolding resolve_view
  resolve_view-among records v clean e =
      let none_yet : Gathered = record { rows = []; seen = [] } in
      let (g, made, rest) = first_value (add_records mv 0 records none_yet) _ e in
      let (_, same) = add_records-Gathers 0 records none_yet g clean (tt, λ r fits. refl) made in
      let is_v : record { name = mv.name; rows = g.rows } ≡ v = cc in
      (ap (λ x. x.name) (sym is_v), λ q. ap (λ x. among q x.rows) (sym is_v) ∙ same q)

module _ {T : Type 0} where
  -- Some view of the name emits the tuple for some record.
  abbrev pub emits : List (ViewDef T) → List T → Bytes → List Bytes → Bool
  emits views records name r =
      any (λ mv. bytes_eq mv.name name && among r (all_emitted mv records)) views

  pub resolve_mv_rows-any :
      (views : List (ViewDef T)) (records : List T) (out : List ViewRows)
      → All IsClean views
      → resolve_mv_rows views records ≡ ok out
      → (name : Bytes) (r : List Bytes)
      → any (λ v. bytes_eq v.name name && among r v.rows) out ≡ emits views records name r
  unfolding resolve_mv_rows
  resolve_mv_rows-any [] records out clean e name r =
      let same : [] ≡ out = cc in ap (any (λ v. bytes_eq v.name name && among r v.rows)) (sym same)
  resolve_mv_rows-any (mv ∷ views) records out (clean, cleans) e name r =
      let (v, first, later) = first_value (resolve_view mv records) _ e in
      let (vs, second, last) = first_value (resolve_mv_rows views records) _ later in
      let same : v ∷ vs ≡ out = cc in
      let (named, rows) = resolve_view-among mv records v clean first in
      let here : (bytes_eq v.name name && among r v.rows)
          ≡ (bytes_eq mv.name name && among r (all_emitted mv records)) =
        ap₂ (λ n b. bytes_eq n name && b) named (rows r) in
      ap (any (λ v. bytes_eq v.name name && among r v.rows)) (sym same)
      ∙ ap₂ (λ a b. a || b) here (resolve_mv_rows-any views records vs cleans second name r)
