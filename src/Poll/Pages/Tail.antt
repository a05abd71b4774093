-- ===== src/Poll/Pages/Tail.antt =====
-- What the tail of a gap-free feed gives.
use s3pgstore.Base.{
  none, ℕ, zero, suc, ◌+◌, ◌^◌, ◌≤◌, ◌<◌, ◌≡◌, refl, sym, subst, ap, ◌∙◌, Bool, List, [], ◌∷◌, ◌++◌,
  map, arith, if-split, leb, Result, ok, err,
}
use s3pgstore.Base.Int.{ℤ}
use s3pgstore.Base.Defaults.{positive_or}
use s3pgstore.Catalog.Feed.Stamps.{IsDense}
use s3pgstore.Store.{Store, FileRef}
use s3pgstore.Poll.{PollError, tail_intervals}
use s3pgstore.Poll.Pages.{
  View, Ending, TailEvent, yielded, waited, TailState, poll_upto, cursor_after, after_tail_page,
  tail_from, tail_iter, default_poll_page_size,
}
use s3pgstore.Poll.Pages.Dense.{
  offsets, Follow, Follow-append, IsPage, poll-IsPage, AreDense, positive_or-pos,
}

-- The files that a list of events yields.
unfoldable pub files_of : List TailEvent → List FileRef
files_of [] = []
files_of (yielded f ∷ events) = f ∷ files_of events
files_of (waited d ∷ events) = files_of events

files_of-append :
    (fs : List FileRef) (events : List TailEvent)
    → files_of (map yielded fs ++ events) ≡ fs ++ files_of events
unfolding files_of
files_of-append [] events = refl
files_of-append (f ∷ fs) events = ap (λ r. f ∷ r) (files_of-append fs events)

cursor_after-Follow :
    (since m : ℕ) (fs : List FileRef) → Follow since m fs → cursor_after since fs ≡ since + m
unfolding cursor_after
cursor_after-Follow since zero [] h = omega arith
cursor_after-Follow since (suc m) [] h = cc
cursor_after-Follow since zero (f ∷ fs) h = cc
cursor_after-Follow since (suc m) (f ∷ fs) h =
    ground (arith, h, cursor_after-Follow (since + 1) m fs)

-- The events of a tail yield files of consecutive numbers.
abbrev IsTail : ℕ → List TailEvent × Ending → Type 0
IsTail since r = (n : ℕ) × Follow since n (files_of r.0)

-- Both offsets of the loop are the same.
abbrev IsAt : ℕ → TailState → Type 0
IsAt since s = (s.polling ≡ since) × (s.cursor ≡ since)

after_tail_page-IsTail :
    (go : TailState → List TailEvent × Ending) (waits : ℕ × ℕ) (is_done : Bool) (s : TailState)
    (since until top : ℕ) (page : Result PollError (List FileRef) × ℕ)
    → IsPage since until top page
    → IsAt since s
    → ((k : ℕ) (s : TailState) → since ≤ k → IsAt k s → IsTail k (go s))
    → IsTail since (after_tail_page go waits is_done s page)
unfolding after_tail_page files_of
after_tail_page-IsTail go waits is_done s since until top (err e, next) h at later = (0, refl)
after_tail_page-IsTail go waits is_done s since until top (ok [], next) h at later =
    if-split (IsTail since) is_done _ _ (λ _. (0, refl))
      λ _. later since _ (omega arith) (at.1, at.1)
after_tail_page-IsTail go waits is_done s since until top (ok (f ∷ fs), next)
      (m, follow, e, inside, caught) (same, at) later =
    let moved : cursor_after s.cursor (f ∷ fs) ≡ since + m =
      subst (λ c. cursor_after c (f ∷ fs) ≡ since + m) (sym at)
        (cursor_after-Follow since m (f ∷ fs) follow) in
    let state : TailState = record {
      polling = next;
      cursor = cursor_after s.cursor (f ∷ fs);
      empty = 0;
    } in
    let (n, more) = later (since + m) state (omega arith) (e, moved) in
    (
      m + n,
      ap offsets (files_of-append (f ∷ fs) (go state).0)
          ∙ Follow-append since m n (f ∷ fs) (files_of (go state).0) follow more,
    )

poll_upto-IsPage :
    (v : View) (store : Store) (at size top : ℕ)
    → 1 ≤ at
    → 0 < size
    → IsDense top v.tables.files
    → IsPage at (at + size) top (poll_upto v store at size none)
unfolding poll_upto
poll_upto-IsPage v store at size top pos big dense =
    if-split (IsPage at (at + size) top) (leb (2 ^ 63) (at + size)) _ _ (λ _. tt)
      λ _. poll-IsPage v.query_fails store at (at + size) top v pos (omega arith) dense

tail_from-IsTail :
    (views : List View) (tops : List ℕ) (store : Store) (size : ℕ) (waits : ℕ × ℕ) (s : TailState)
    (since : ℕ)
    → 1 ≤ since
    → 0 < size
    → AreDense views tops
    → IsAt since s
    → IsTail since (tail_from views store size waits s)
unfolding tail_from files_of
tail_from-IsTail [] tops store size waits s since pos big dense at = (0, refl)
tail_from-IsTail (v ∷ views) [] store size waits s since pos big dense at = absurd dense
tail_from-IsTail (v ∷ views) (top ∷ tops) store size waits s since pos big (here, dense) at =
    if-split (IsTail since) v.is_done _ _ (λ _. (0, refl))
      λ _.
        after_tail_page-IsTail (tail_from views store size waits) waits v.is_done_waiting s since
          (since + size) top _
          (subst (λ k. IsPage since (since + size) top (poll_upto v store k size none)) (sym at.0)
            (poll_upto-IsPage v store since size top pos big here))
          at
          (λ k s' le at'.
            tail_from-IsTail views tops store size waits s' k (omega arith) big dense at')

-- However many rounds TailIter has made on a feed that is dense in each of them, whatever ends it
-- and however often it waited, the files it has yielded have the consecutive numbers from the
-- offset it began at.
pub tail_iter-Follow :
    (views : List View) (tops : List ℕ) (store : Store) (page_size base max_interval : ℤ)
    (since : ℕ)
    → 1 ≤ since
    → AreDense views tops
    → (n : ℕ) × Follow since n
        (files_of (tail_iter views store page_size base max_interval since).0)
unfolding tail_iter
tail_iter-Follow views tops store page_size base max_interval since pos dense =
    tail_from-IsTail views tops store (positive_or page_size default_poll_page_size)
      (tail_intervals base max_interval) _ since pos
      (positive_or-pos page_size default_poll_page_size (omega arith)) dense (refl, refl)
