-- ===== src/Poll/Window.antt =====
-- What one poll of a gap-free feed returns.
use s3pgstore.Base.{
  range, ℕ, zero, suc, ◌+◌, ◌-◌, ◌≤◌, ◌<◌, ◌≡◌, refl, ap, ap₂, ◌∙◌, Bool, false, ◌&&◌, List, [],
  ◌∷◌, map, arith, if◌then◌else◌, leb, ltb, ◌==◌, min, count_if, keep, All, ok, count_if-keep,
}
use s3pgstore.Base.Orders.{nat_order}
use s3pgstore.Base.Sorting.{IsSorted, sort-IsSorted, count_if-sort}
use s3pgstore.Catalog.Tables.{FileRow, Tables}
use s3pgstore.Catalog.Feed.{seq_or_zero, has_seq, in_window, by_seq, poll_files}
use s3pgstore.Catalog.Feed.Stamps.{IsDense}
use s3pgstore.Store.{Store, FileRef, file_ref_of}
use s3pgstore.Poll.{poll, next_offset}

abbrev pub offset_of : FileRow → ℕ
offset_of r = seq_or_zero r.feed_seq

-- How many rows have a key.
abbrev at_key : ℕ → FileRow → Bool
at_key q r = offset_of r == q

none_below :
    (q : ℕ) (x : FileRow) (xs : List FileRow)
    → q < offset_of x
    → All (λ y. by_seq y x ≡ false) xs
    → count_if (at_key q) xs ≡ 0
none_below q x [] h hs = refl
none_below q x (y ∷ xs) h (hy, hs) = ground (arith, hy, none_below q x xs h hs)

-- Sorted rows that have each number of a window once, and no other, have the numbers in order.
sorted-range :
    (start n : ℕ) (rows : List FileRow)
    → IsSorted by_seq rows
    → ((q : ℕ) → count_if (at_key q) rows ≡ (if leb start q && ltb q (start + n) then 1 else 0))
    → map offset_of rows ≡ range start n
sorted-range start zero [] h once = refl
sorted-range start zero (r ∷ rows) h once = absurd (ground (arith, once (offset_of r)))
sorted-range start (suc n) [] h once = absurd (ground (arith, once start))
sorted-range start (suc n) (r ∷ rows) (hr, h) once =
    let first : offset_of r ≡ start =
      ground (arith, once start, once (offset_of r), none_below start r rows) in
    ap₂ (λ a more. a ∷ more) first
      (sorted-range (start + 1) n rows h (λ q. ground (arith, first, once q)))

count-window :
    (since until q : ℕ) (rows : List FileRow)
    → count_if (λ r. at_key q r && in_window since until r) rows
      ≡ (if leb since q && ltb q until then count_if (has_seq q) rows else 0)
count-window since until q [] = ground arith
count-window since until q (r ∷ rows) = ground (arith, count-window since until q rows)

next_offset-range :
    (start n : ℕ) (rows : List FileRow)
    → map offset_of rows ≡ range start n
    → next_offset start rows ≡ start + n
unfolding next_offset
next_offset-range start zero [] h = omega arith
next_offset-range start zero (r ∷ rows) h = cc
next_offset-range start (suc n) [] h = cc
next_offset-range start (suc n) (r ∷ rows) h =
    ground (arith, h, next_offset-range (start + 1) n rows)

offsets-refs :
    (store : Store) (rows : List FileRow)
    → map (λ f. f.offset) (map (file_ref_of store.exts) rows) ≡ map offset_of rows
unfolding file_ref_of
offsets-refs store [] = refl
offsets-refs store (r ∷ rows) = ap (λ more. offset_of r ∷ more) (offsets-refs store rows)

-- How many numbers a poll of a feed that is dense up to `top` returns.
abbrev pub reach : ℕ → ℕ → ℕ → ℕ
reach since until top = min until (top + 1) - since

poll_files-range :
    (since until top : ℕ) (t : Tables)
    → 1 ≤ since
    → since < until
    → IsDense top t.files
    → map offset_of (poll_files since until t) ≡ range since (reach since until top)
unfolding poll_files
poll_files-range since until top t pos less dense =
    sorted-range since (reach since until top) (poll_files since until t)
      (sort-IsSorted nat_order offset_of (keep (in_window since until) t.files))
      (λ q. ground (
        arith,
        count_if-sort by_seq (at_key q) (keep (in_window since until) t.files),
        count_if-keep (at_key q) (in_window since until) t.files,
        count-window since until q t.files,
        dense q,
      ))

-- On a feed that is dense up to a top, a poll of a window from 1 on that does not fail returns the
-- files of all the numbers of the window up to the top, in order and each once, and the number
-- after the last of them, or the start of the window if there is none.
pub poll-IsDense :
    (store : Store) (since until top : ℕ) (t : Tables)
    → 1 ≤ since
    → since < until
    → IsDense top t.files
    → (refs : List FileRef) × (poll false store since until t
        ≡ (ok refs, since + reach since until top))
      × (map (λ f. f.offset) refs ≡ range since (reach since until top))
unfolding poll
poll-IsDense store since until top t pos less dense =
    let rows = poll_files-range since until top t pos less dense in
    (
      map (file_ref_of store.exts) (poll_files since until t),
      ground (
        arith,
        less,
        next_offset-range since (reach since until top) (poll_files since until t) rows,
      ),
      offsets-refs store (poll_files since until t) ∙ rows,
    )
