-- ===== src/Poll/Pages.antt =====
-- poll.go: PollIter and TailIter, the pages of a window and the pages of a feed without an end.
pub mod Dense
pub mod Calm
pub mod Tail
use s3pgstore.Base.{
  ℕ, zero, suc, ◌+◌, ◌^◌, min, Bool, Option, none, some, List, [], ◌∷◌, ◌++◌, map, if◌then◌else◌,
  ltb, leb, Result, ok, err,
}
use s3pgstore.Base.Int.{ℤ}
use s3pgstore.Base.Defaults.{positive_or}
use s3pgstore.Catalog.Tables.{Tables}
use s3pgstore.Store.{Store, FileRef}
use s3pgstore.Poll.{PollError, bad_range, poll, tail_intervals, next_tail_backoff}

abbrev pub default_poll_page_size : ℕ
default_poll_page_size = 10000

-- What one round of a loop meets: the tables that its poll reads, whether the query fails, and
-- whether the context is done before the result is taken, or during the wait after an empty page.
pub record View : Type 0 where
  pub tables : Tables
  pub query_fails : Bool
  pub is_done : Bool
  pub is_done_waiting : Bool

-- How an iteration ends; `unfinished` is the end of the rounds that the model was given.
pub data Ending : Type 0 where
  finished cancelled unfinished : Ending
  failed : PollError → Ending

-- A Poll that ends at `at + size`, in int64: a sum from 2 ^ 63 on is a negative end, below `since`.
unfoldable pub poll_upto : View → Store → ℕ → ℕ → Option ℕ → Result PollError (List FileRef) × ℕ
unfolding poll
poll_upto v store at size none =
    if leb (2 ^ 63) (at + size)
    then (err bad_range, at)
    else poll v.query_fails store at (at + size) v.tables
poll_upto v store at size (some until) =
    if leb (2 ^ 63) (at + size)
    then (err bad_range, at)
    else poll v.query_fails store at (min (at + size) until) v.tables

abbrev pub prepend {ℓ} : {A : Type ℓ} → List A → List A × Ending → List A × Ending
prepend xs (more, ending) = (xs ++ more, ending)

-- The rows of a page, and the next page unless the window is at its end.
unfoldable pub after_page :
    (ℕ → List FileRef × Ending) → ℕ → Result PollError (List FileRef) × ℕ → List FileRef × Ending
after_page go until (err e, next) = ([], failed e)
after_page go until (ok [], next) = ([], finished)
after_page go until (ok (f ∷ fs), next) =
    let rest = go next in if ltb next until then prepend (f ∷ fs) rest else (f ∷ fs, finished)

-- The loop of PollIter, from an offset: what a consumer that never stops is given. One that stops
-- is given a prefix.
unfoldable pub pages_from : List View → Store → ℕ → ℕ → ℕ → List FileRef × Ending
unfolding poll_upto after_page
pages_from [] store size until at = ([], unfinished)
pages_from (v ∷ views) store size until at =
    if v.is_done
    then ([], cancelled)
    else after_page (pages_from views store size until) until
        (poll_upto v store at size (some until))

-- PollIter
unfoldable pub poll_iter : List View → Store → ℤ → ℕ → ℕ → List FileRef × Ending
unfolding pages_from
poll_iter views store page_size since until =
    if leb until since
    then ([], finished)
    else pages_from views store (positive_or page_size default_poll_page_size) until since

-- What TailIter does next: it yields a file, or waits.
pub data TailEvent : Type 0 where
  yielded : FileRef → TailEvent
  waited : ℕ → TailEvent

-- `cursor = e.Offset + 1` at each file that is yielded.
unfoldable pub cursor_after : ℕ → List FileRef → ℕ
cursor_after cursor [] = cursor
cursor_after cursor (f ∷ fs) = cursor_after (f.offset + 1) fs

-- The three variables of the loop of TailIter: the offset of the poll under way, the cursor, and
-- the number of empty pages in a row.
pub record TailState : Type 0 where
  pub polling : ℕ
  pub cursor : ℕ
  pub empty : ℕ

unfoldable pub after_tail_page :
    (TailState → List TailEvent × Ending)
    → ℕ × ℕ
    → Bool
    → TailState
    → Result PollError (List FileRef) × ℕ
    → List TailEvent × Ending
unfolding cursor_after
after_tail_page go waits is_done s (err e, next) = ([], failed e)
after_tail_page go waits is_done s (ok [], next) =
    let wait = waited (next_tail_backoff (s.empty + 1) waits.0 waits.1) in
    let rest = go (record { polling = s.cursor; cursor = s.cursor; empty = s.empty + 1 }) in
    if is_done then (wait ∷ [], cancelled) else prepend (wait ∷ []) rest
after_tail_page go waits is_done s (ok (f ∷ fs), next) =
    prepend (map yielded (f ∷ fs))
      (go (record { polling = next; cursor = cursor_after s.cursor (f ∷ fs); empty = 0 }))

-- The loop of TailIter
unfoldable pub tail_from : List View → Store → ℕ → ℕ × ℕ → TailState → List TailEvent × Ending
unfolding poll_upto after_tail_page
tail_from [] store size waits s = ([], unfinished)
tail_from (v ∷ views) store size waits s =
    if v.is_done
    then ([], cancelled)
    else after_tail_page (tail_from views store size waits) waits v.is_done_waiting s
        (poll_upto v store s.polling size none)

-- TailIter. A poll that fails because the context is done ends the loop in silence; here it ends
-- with its error.
unfoldable pub tail_iter : List View → Store → ℤ → ℤ → ℤ → ℕ → List TailEvent × Ending
unfolding tail_from
tail_iter views store page_size base max_interval since =
    tail_from views store (positive_or page_size default_poll_page_size)
      (tail_intervals base max_interval) (record { polling = since; cursor = since; empty = 0 })
