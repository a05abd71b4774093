-- ===== src/Poll/Pages/Dense.antt =====
-- What the loops over pages give on a gap-free feed.
use s3pgstore.Base.{
  range-append, range, ℕ, zero, suc, ◌+◌, ◌^◌, ◌≤◌, ◌<◌, ◌≡◌, refl, sym, subst, ap, ◌∙◌, min, Bool,
  true, false, some, List, [], ◌∷◌, ◌++◌, any, ap₂, map, arith, if-split, ltb, leb, Result, ok, err,
  ◌⊎◌, inl, inr, Bool,
}
use s3pgstore.Base.Int.{ℤ}
use s3pgstore.Base.Defaults.{positive_or}
use s3pgstore.Catalog.Feed.Stamps.{IsDense}
use s3pgstore.Store.{Store, FileRef}
use s3pgstore.Poll.{PollError, poll}
use s3pgstore.Poll.Window.{reach, poll-IsDense}
use s3pgstore.Poll.Pages.{
  View, Ending, finished, cancelled, unfinished, failed, poll_upto, after_page, pages_from,
  poll_iter, default_poll_page_size,
}

abbrev pub offsets : List FileRef → List ℕ
offsets fs = map (λ f. f.offset) fs

pub range-nil : (start m : ℕ) → range start m ≡ [] → m ≡ 0
range-nil start zero h = refl
range-nil start (suc m) h = cc

pub offsets-append : (fs gs : List FileRef) → offsets (fs ++ gs) ≡ offsets fs ++ offsets gs
offsets-append [] gs = refl
offsets-append (f ∷ fs) gs = ap (λ r. f.offset ∷ r) (offsets-append fs gs)

-- The files of a run from an offset have the numbers that follow, `n` of them.
abbrev pub Follow : ℕ → ℕ → List FileRef → Type 0
Follow since n fs = offsets fs ≡ range since n

-- A result of a poll on a feed with a top: the files of the numbers from an offset on.
abbrev pub IsPage : ℕ → ℕ → ℕ → Result PollError (List FileRef) × ℕ → Type 0
IsPage since until top (err e, next) = Unit
IsPage since until top (ok fs, next) =
    (m : ℕ) × Follow since m fs × (next ≡ since + m) × (since + m ≤ until) × (m ≡ 0 → top < since)

pub poll-IsPage :
    (fails : Bool) (store : Store) (since until top : ℕ) (v : View)
    → 1 ≤ since
    → since < until
    → IsDense top v.tables.files
    → IsPage since until top (poll fails store since until v.tables)
unfolding poll
poll-IsPage true store since until top v pos less dense = ground (arith, less)
poll-IsPage false store since until top v pos less dense =
    let (fs, e, follow) = poll-IsDense store since until top v.tables pos less dense in
    subst (IsPage since until top) (sym e)
      (reach since until top, follow, refl, omega arith, (λ z. omega arith))

-- Where a loop that finishes has come: to the end of the window, or past one of the tops.
abbrev pub EndsAt : ℕ → ℕ → List ℕ → Ending → Type 0
EndsAt next until tops finished = (next ≡ until) ⊎ (any (λ top. ltb top next) tops ≡ true)
EndsAt next until tops cancelled = Unit
EndsAt next until tops unfinished = Unit
EndsAt next until tops (failed e) = Unit

-- What a loop gives from an offset on, when the tops of its rounds are given: files of consecutive
-- numbers, within the window.
abbrev pub IsRun : ℕ → ℕ → List ℕ → List FileRef × Ending → Type 0
IsRun since until tops (fs, ending) =
    (n : ℕ) × Follow since n fs × (since + n ≤ until) × EndsAt (since + n) until tops ending

pub Follow-append :
    (since m n : ℕ) (fs gs : List FileRef)
    → Follow since m fs
    → Follow (since + m) n gs
    → Follow since (m + n) (fs ++ gs)
Follow-append since m n fs gs hf hg =
    offsets-append fs gs ∙ ap₂ (λ a b. a ++ b) hf hg ∙ range-append since m n

EndsAt-prepend :
    (since m n until top : ℕ) (tops : List ℕ) (ending : Ending)
    → EndsAt (since + m + n) until tops ending
    → EndsAt (since + (m + n)) until (top ∷ tops) ending
EndsAt-prepend since m n until top tops finished (inl e) = inl (omega arith)
EndsAt-prepend since m n until top tops finished (inr e) =
    let same : since + (m + n) ≡ since + m + n = omega arith in
    inr (subst (λ k. any (λ t. ltb t k) (top ∷ tops) ≡ true) (sym same) (ground (arith, e)))
EndsAt-prepend since m n until top tops cancelled h = tt
EndsAt-prepend since m n until top tops unfinished h = tt
EndsAt-prepend since m n until top tops (failed e) h = tt

after_page-IsRun :
    (go : ℕ → List FileRef × Ending) (since until top : ℕ) (tops : List ℕ)
    (page : Result PollError (List FileRef) × ℕ)
    → IsPage since until top page
    → since ≤ until
    → ((next : ℕ) → since ≤ next → next < until → IsRun next until tops (go next))
    → IsRun since until (top ∷ tops) (after_page go until page)
unfolding after_page
after_page-IsRun go since until top tops (err e, next) h le later = (0, refl, omega arith, tt)
after_page-IsRun go since until top tops (ok [], next) (m, follow, e, inside, caught) le later =
    (0, refl, omega arith, inr (ground (arith, caught (range-nil since m (sym follow)))))
after_page-IsRun go since until top tops (ok (f ∷ fs), next) (m, follow, e, inside, caught) le
      later =
    if-split (IsRun since until (top ∷ tops)) (ltb next until) _ _
      (λ more.
        let (n, follow', inside', ended) =
          subst (λ k. IsRun k until tops (go next)) e
            (later next (ground (arith, e)) (ground (arith, more))) in
        (
          m + n,
          Follow-append since m n (f ∷ fs) (go next).0 follow follow',
          omega arith,
          EndsAt-prepend since m n until top tops (go next).1 ended,
        ))
      (λ last. (m, follow, inside, inl (ground (arith, e, last, inside))))

-- Each round reads a feed that is dense up to its top.
abbrev pub AreDense : List View → List ℕ → Type 0
AreDense [] [] = Unit
AreDense [] (top ∷ tops) = ⊥
AreDense (v ∷ views) [] = ⊥
AreDense (v ∷ views) (top ∷ tops) = IsDense top v.tables.files × AreDense views tops

poll_upto-IsPage :
    (v : View) (store : Store) (at size until top : ℕ)
    → 1 ≤ at
    → at < until
    → 0 < size
    → IsDense top v.tables.files
    → IsPage at until top (poll_upto v store at size (some until))
unfolding poll_upto
poll_upto-IsPage v store at size until top pos less big dense =
    if-split (IsPage at until top) (leb (2 ^ 63) (at + size)) _ _ (λ _. tt)
      λ _.
        IsPage-widen (poll v.query_fails store at (min (at + size) until) v.tables)
          (poll-IsPage v.query_fails store at (min (at + size) until) top v pos (omega arith) dense)
  where
    IsPage-widen :
        (r : Result PollError (List FileRef) × ℕ)
        → IsPage at (min (at + size) until) top r
        → IsPage at until top r
    IsPage-widen (err e, next) h = tt
    IsPage-widen (ok fs, next) (m, follow, e, inside, caught) = (m, follow, e, omega arith, caught)

pages_from-IsRun :
    (views : List View) (tops : List ℕ) (store : Store) (size until at : ℕ)
    → 1 ≤ at
    → at < until
    → 0 < size
    → AreDense views tops
    → IsRun at until tops (pages_from views store size until at)
unfolding pages_from
pages_from-IsRun [] tops store size until at pos less big dense = (0, refl, omega arith, tt)
pages_from-IsRun (v ∷ views) [] store size until at pos less big dense = absurd dense
pages_from-IsRun (v ∷ views) (top ∷ tops) store size until at pos less big (here, later) =
    if-split (IsRun at until (top ∷ tops)) v.is_done _ _ (λ _. (0, refl, omega arith, tt))
      λ _.
        after_page-IsRun (pages_from views store size until) at until top tops
          (poll_upto v store at size (some until))
          (poll_upto-IsPage v store at size until top pos less big here) (omega arith)
          (λ next le lt.
            pages_from-IsRun views tops store size until next (omega arith) lt big later)

pub positive_or-pos : (z : ℤ) (d : ℕ) → 0 < d → 0 < positive_or z d
positive_or-pos z d h = ground arith

-- PollIter over a window from 1 on, while the feed changes between its pages and stays dense in
-- each: whatever queries fail and wherever the context ends it, it gives files of consecutive
-- numbers from the start of the window, inside the window; where it finishes, it has come to the
-- end of the window, or past the top that the feed had in one of the pages.
pub poll_iter-IsRun :
    (views : List View) (tops : List ℕ) (store : Store) (page_size : ℤ) (since until : ℕ)
    → 1 ≤ since
    → since ≤ until
    → AreDense views tops
    → IsRun since until tops (poll_iter views store page_size since until)
unfolding poll_iter
poll_iter-IsRun views tops store page_size since until pos le dense =
    if-split (IsRun since until tops) (leb until since) _ _
      (λ h. (0, refl, omega arith, inl (ground (arith, h))))
      λ h.
        pages_from-IsRun views tops store (positive_or page_size default_poll_page_size) until since
          pos (ground (arith, h)) (positive_or-pos page_size default_poll_page_size (omega arith))
          dense
