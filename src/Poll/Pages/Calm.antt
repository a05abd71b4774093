-- ===== src/Poll/Pages/Calm.antt =====
-- PollIter on a feed that stands still, with queries that succeed.
use s3pgstore.Base.{
  some, ℕ, zero, suc, ◌+◌, ◌-◌, ◌^◌, ◌≤◌, ◌<◌, ◌≡◌, refl, sym, subst, min, false, List, [], ◌∷◌,
  length, All, arith, if◌then◌else◌, if-split, ltb, leb, ok,
}
use s3pgstore.Base.Int.{ℤ}
use s3pgstore.Base.Defaults.{positive_or}
use s3pgstore.Catalog.Feed.Stamps.{IsDense}
use s3pgstore.Store.{Store, FileRef}
use s3pgstore.Poll.Window.{reach, poll-IsDense}
use s3pgstore.Poll.Pages.{
  View, Ending, finished, cancelled, poll_upto, after_page, pages_from, poll_iter,
  default_poll_page_size,
}
use s3pgstore.Poll.Pages.Dense.{Follow, positive_or-pos}

-- A round whose query succeeds, in time, on a feed that is dense up to the top.
abbrev pub IsCalm : ℕ → View → Type 0
IsCalm top v = (v.is_done ≡ false) × (v.query_fails ≡ false) × IsDense top v.tables.files

after_page_finishes :
    (go : ℕ → List FileRef × Ending) (since until m next : ℕ) (fs : List FileRef)
    → Follow since m fs
    → next ≡ since + m
    → ((k : ℕ) → since < k → k < until → (go k).1 ≡ finished)
    → (after_page go until (ok fs, next)).1 ≡ finished
unfolding after_page
after_page_finishes go since until m next [] follow e later = refl
after_page_finishes go since until zero next (f ∷ fs) follow e later = cc
after_page_finishes go since until (suc m) next (f ∷ fs) follow e later =
    if-split (λ (r : List FileRef × Ending). r.1 ≡ finished) (ltb next until) _ _
      (λ more. later next (omega (arith, e)) (ground (arith, more))) (λ _. refl)

pages_from_finishes :
    (views : List View) (store : Store) (size until at top : ℕ)
    → 1 ≤ at
    → at < until
    → 0 < size
    → until + size < 2 ^ 63
    → All (IsCalm top) views
    → until - at ≤ length views
    → (pages_from views store size until at).1 ≡ finished
unfolding pages_from poll_upto
pages_from_finishes [] store size until at top pos less big fits calm enough = absurd (omega arith)
pages_from_finishes (v ∷ views) store size until at top pos less big fits
      ((here, works, dense), calm) enough =
    let (fs, e, follow) =
      poll-IsDense store at (min (at + size) until) top v.tables pos (omega arith) dense in
    let page : poll_upto v store at size (some until)
        ≡ (ok fs, at + reach at (min (at + size) until) top) =
      ground (arith, works, fits, less, e) in
    subst
      (λ b.
        (if b
          then ([], cancelled)
          else after_page (pages_from views store size until) until
              (poll_upto v store at size (some until))).1
        ≡ finished)
      (sym here)
      (subst (λ r. (after_page (pages_from views store size until) until r).1 ≡ finished) (sym page)
        (after_page_finishes (pages_from views store size until) at until
          (reach at (min (at + size) until) top) _ fs follow refl
          (λ k lt le.
            pages_from_finishes views store size until k top (omega arith) le big fits calm
              (omega arith))))

-- On a feed that stays dense up to one top, with queries that succeed and a context that stays
-- open, PollIter over a window from 1 on finishes in at most as many rounds as the window is long,
-- where the end of the window plus the page size fits an int64.
pub poll_iter_finishes :
    (views : List View) (store : Store) (page_size : ℤ) (since until top : ℕ)
    → 1 ≤ since
    → until + positive_or page_size default_poll_page_size < 2 ^ 63
    → All (IsCalm top) views
    → until - since ≤ length views
    → (poll_iter views store page_size since until).1 ≡ finished
unfolding poll_iter
poll_iter_finishes views store page_size since until top pos fits calm enough =
    if-split (λ (r : List FileRef × Ending). r.1 ≡ finished) (leb until since) _ _ (λ _. refl)
      λ h.
        pages_from_finishes views store (positive_or page_size default_poll_page_size) until since
          top pos (ground (arith, h))
          (positive_or-pos page_size default_poll_page_size (omega arith)) fits calm enough
