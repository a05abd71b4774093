-- ===== src/Catalog/Feed/Dense.antt =====
-- The feed's numbers before and after the assignment statement.
use s3pgstore.Base.{
  ℕ, suc, ◌+◌, ◌≤◌, ◌<◌, ◌≡◌, refl, sym, ◌∙◌, true, List, [], ◌∷◌, map, arith, keep, length,
  length-take, length-count_if, keep-length, min, max, ◌⊎◌, inl, inr, count_if, count_if-keep,
  count_if-take-le,
}
use native.Mathlib.Decide.{dec_le}
use s3pgstore.Base.Sorting.{sort, count_if-sort}
use s3pgstore.Catalog.Tables.{FileRow, Tables}
use s3pgstore.Catalog.Feed.Stamps.{
  has_id, UniqueIds, IsDense, Awaits, numbered_at, UniqueIds-stamp, Awaits-stamp, IsDense-stamp,
  stamp_rows-unsequenced, stamp_rows-keeps,
}
use s3pgstore.Catalog.Feed.{
  has_seq, seq_or_zero, unsequenced, max_seq, numbered, by_arrival, stamp, stamp_rows,
  assign_feed_seq,
}

stamp_rows-IsDense :
    (base rn now top : ℕ) (xs files : List FileRow)
    → base + rn ≡ suc top
    → UniqueIds files
    → Awaits xs files
    → IsDense top files
    → IsDense (top + length xs) (stamp_rows base rn now xs files)
      × UniqueIds (stamp_rows base rn now xs files)
unfolding stamp_rows
stamp_rows-IsDense base rn now top [] files e unique waits dense =
    ((λ q. ground (arith, dense q)), unique)
stamp_rows-IsDense base rn now top (x ∷ xs) files e unique waits dense =
    let (later, same) =
      stamp_rows-IsDense base (suc rn) now (suc top) xs
        (map (stamp x.file_id (base + rn) now) files) (omega arith)
        (UniqueIds-stamp x xs files unique waits (base + rn) now)
        (Awaits-stamp x xs files unique waits (base + rn) now)
        (rw e (IsDense-stamp x xs files unique waits top now dense)) in
    ((λ q. ground (arith, later q)), same)

-- The top of a dense feed is its greatest number.
count_above_max :
    (q : ℕ) (files : List FileRow) → max_seq files < q → count_if (has_seq q) files ≡ 0
unfolding max_seq
count_above_max q [] h = refl
count_above_max q (r ∷ rs) h = ground (arith, count_above_max q rs)

max-cases : (a b : ℕ) → ((max a b ≡ a) × (b ≤ a)) ⊎ ((max a b ≡ b) × (a ≤ b))
max-cases a b = elim (dec_le a b) [
  | yes h ↦ inr (omega arith, h)
  | no h ↦ inl (omega arith, omega arith)
]

max_seq-counted :
    (files : List FileRow) (m : ℕ) → max_seq files ≡ m → (m ≡ 0) ⊎ (0 < count_if (has_seq m) files)
unfolding max_seq
max_seq-counted [] m e = inl (sym e)
max_seq-counted (r ∷ rs) m e = elim (max-cases (seq_or_zero r.feed_seq) (max_seq rs)) [
  | inl (at, h) ↦ ground (arith, e, at)
  | inr (at, h) ↦ ground (arith, max_seq-counted rs m (sym at ∙ e))
]

max_seq_of_IsDense : (top : ℕ) (files : List FileRow) → IsDense top files → max_seq files ≡ top
max_seq_of_IsDense top files dense = ground (
  arith,
  max_seq-counted files (max_seq files) refl,
  count_above_max top files,
  dense top,
  dense (max_seq files),
)

Awaits-numbered : (batch : ℕ) (t : Tables) → Awaits (numbered batch t) t.files
unfolding numbered
Awaits-numbered batch t k = omega (
  arith,
  count_if-take-le (has_id k) batch (sort by_arrival (keep unsequenced t.files)),
  count_if-sort by_arrival (has_id k) (keep unsequenced t.files),
  count_if-keep (has_id k) unsequenced t.files,
)

-- On a table with unique ids whose feed is dense up to its top, the statement assigns the numbers
-- that follow: the feed behind it is dense up to the top plus the number of rows assigned.
pub assign-IsDense :
    (batch now top : ℕ) (t : Tables)
    → UniqueIds t.files
    → IsDense top t.files
    → IsDense (top + (assign_feed_seq batch now t).0) (assign_feed_seq batch now t).1.files
      × UniqueIds (assign_feed_seq batch now t).1.files
unfolding assign_feed_seq
assign-IsDense batch now top t unique dense =
    stamp_rows-IsDense (max_seq t.files) 1 now top (numbered batch t) t.files
      (omega (arith, max_seq_of_IsDense top t.files dense)) unique (Awaits-numbered batch t) dense

-- The statement assigns as many rows as the batch and the unsequenced rows allow.
pub assign-count :
    (batch now : ℕ) (t : Tables)
    → (assign_feed_seq batch now t).0 ≡ min batch (count_if unsequenced t.files)
unfolding assign_feed_seq numbered
assign-count batch now t =
    let waiting = keep unsequenced t.files in
    omega (
      arith,
      length-take batch (sort by_arrival waiting),
      length-count_if (sort by_arrival waiting),
      count_if-sort by_arrival (λ r. true) waiting,
      length-count_if waiting,
      keep-length unsequenced t.files,
    )

-- The rows that it assigns are no longer unsequenced, and all others stay as they are.
pub assign-unsequenced :
    (batch now : ℕ) (t : Tables)
    → UniqueIds t.files
    → count_if unsequenced (assign_feed_seq batch now t).1.files + (assign_feed_seq batch now t).0
      ≡ count_if unsequenced t.files
unfolding assign_feed_seq
assign-unsequenced batch now t unique =
    stamp_rows-unsequenced (max_seq t.files) 1 now (numbered batch t) t.files unique
      (Awaits-numbered batch t)

-- A row that has its number keeps it.
pub assign-keeps :
    (batch now k q : ℕ) (t : Tables)
    → UniqueIds t.files
    → count_if (numbered_at k q) t.files
      ≤ count_if (numbered_at k q) (assign_feed_seq batch now t).1.files
unfolding assign_feed_seq
assign-keeps batch now k q t unique =
    stamp_rows-keeps (max_seq t.files) 1 now k q (numbered batch t) t.files unique
      (Awaits-numbered batch t)
