-- ===== src/Catalog/Feed/Stamps.antt =====
-- The UPDATE of the assignment statement, row by row: what it counts and what it keeps.
use s3pgstore.Base.{
  ℕ, suc, ◌+◌, ◌≤◌, ◌≡◌, refl, Bool, true, ◌&&◌, List, [], ◌∷◌, map, arith, if◌then◌else◌, ◌==◌,
  leb, length, count_if, count_if-and-le, count_if-and-All, All,
}
use s3pgstore.Catalog.Tables.{FileRow}
use s3pgstore.Catalog.Feed.{has_seq, unsequenced, stamp, stamp_rows}

abbrev pub has_id : ℕ → FileRow → Bool
has_id id r = r.file_id == id

-- file_id is the primary key.
abbrev pub UniqueIds : List FileRow → Type 0
UniqueIds files = (id : ℕ) → count_if (has_id id) files ≤ 1

-- How often a number is assigned in a feed that is dense up to `top`.
abbrev pub once_up_to : ℕ → ℕ → ℕ
once_up_to top q = if leb 1 q && leb q top then 1 else 0

-- Each number from 1 to `top` stands at one row, and no other number does.
abbrev pub IsDense : ℕ → List FileRow → Type 0
IsDense top files = (q : ℕ) → count_if (has_seq q) files ≡ once_up_to top q

module _ (id seq now : ℕ) where
  count_id-stamp :
      (k : ℕ) (files : List FileRow)
      → count_if (has_id k) (map (stamp id seq now) files) ≡ count_if (has_id k) files
  unfolding stamp
  count_id-stamp k [] = refl
  count_id-stamp k (r ∷ rs) = ground (arith, count_id-stamp k rs)

  count_null-stamp :
      (k : ℕ) (files : List FileRow)
      → count_if (λ r. has_id k r && unsequenced r) (map (stamp id seq now) files)
        ≡ (if k == id then 0 else count_if (λ r. has_id k r && unsequenced r) files)
  unfolding stamp
  count_null-stamp k [] = ground arith
  count_null-stamp k (r ∷ rs) = ground (arith, count_null-stamp k rs)

  count_seq-stamp :
      (q : ℕ) (files : List FileRow)
      → All (λ r. has_id id r ≡ true → unsequenced r ≡ true) files
      → count_if (has_seq q) (map (stamp id seq now) files)
        ≡ count_if (has_seq q) files + (if q == seq then count_if (has_id id) files else 0)
  unfolding stamp
  count_seq-stamp q [] h = ground arith
  count_seq-stamp q (r ∷ rs) (hr, h) = ground (arith, hr, count_seq-stamp q rs h)

-- The rows still to be stamped stand unsequenced in the table, each id once.
abbrev pub Awaits : List FileRow → List FileRow → Type 0
Awaits xs files =
    (k : ℕ) → count_if (has_id k) xs ≤ count_if (λ r. has_id k r && unsequenced r) files

module _ (x : FileRow) (xs files : List FileRow) (unique : UniqueIds files)
    (waits : Awaits (x ∷ xs) files) where
  -- Exactly one row has the id, and it is unsequenced.
  one_row :
      (count_if (has_id x.file_id) files ≡ 1)
      × (count_if (λ r. has_id x.file_id r && unsequenced r) files ≡ 1)
      × (count_if (has_id x.file_id) xs ≡ 0)
  one_row = ground (
    arith,
    unique x.file_id,
    waits x.file_id,
    count_if-and-le (has_id x.file_id) unsequenced files,
  )

  free_ids : All (λ r. has_id x.file_id r ≡ true → unsequenced r ≡ true) files
  free_ids = count_if-and-All (has_id x.file_id) unsequenced files (omega (arith, one_row))

  pub Awaits-stamp : (seq now : ℕ) → Awaits xs (map (stamp x.file_id seq now) files)
  Awaits-stamp seq now k =
      ground (arith, waits k, one_row, count_null-stamp x.file_id seq now k files)

  pub UniqueIds-stamp : (seq now : ℕ) → UniqueIds (map (stamp x.file_id seq now) files)
  UniqueIds-stamp seq now k = rw (count_id-stamp x.file_id seq now k files) (unique k)

  pub IsDense-stamp :
      (top now : ℕ)
      → IsDense top files
      → IsDense (suc top) (map (stamp x.file_id (suc top) now) files)
  IsDense-stamp top now dense q =
      ground (arith, dense q, one_row, count_seq-stamp x.file_id (suc top) now q files free_ids)

-- A stamp takes one row out of the unsequenced ones.
count_unsequenced-stamp :
    (id seq now : ℕ) (files : List FileRow)
    → count_if unsequenced (map (stamp id seq now) files)
        + count_if (λ r. has_id id r && unsequenced r) files
      ≡ count_if unsequenced files
unfolding stamp
count_unsequenced-stamp id seq now [] = refl
count_unsequenced-stamp id seq now (r ∷ rs) = ground (arith, count_unsequenced-stamp id seq now rs)

pub stamp_rows-unsequenced :
    (base rn now : ℕ) (xs files : List FileRow)
    → UniqueIds files
    → Awaits xs files
    → count_if unsequenced (stamp_rows base rn now xs files) + length xs
      ≡ count_if unsequenced files
unfolding stamp_rows
stamp_rows-unsequenced base rn now [] files unique waits = omega arith
stamp_rows-unsequenced base rn now (x ∷ xs) files unique waits = omega (
  arith,
  one_row x xs files unique waits,
  count_unsequenced-stamp x.file_id (base + rn) now files,
  stamp_rows-unsequenced base (suc rn) now xs (map (stamp x.file_id (base + rn) now) files)
      (UniqueIds-stamp x xs files unique waits (base + rn) now)
      (Awaits-stamp x xs files unique waits (base + rn) now),
)

-- The row of an id that has the number `q`.
abbrev pub numbered_at : ℕ → ℕ → FileRow → Bool
numbered_at id q r = has_id id r && has_seq q r

count_numbered-stamp :
    (id seq now k q : ℕ) (files : List FileRow)
    → All (λ r. has_id id r ≡ true → unsequenced r ≡ true) files
    → count_if (numbered_at k q) files ≤ count_if (numbered_at k q) (map (stamp id seq now) files)
unfolding stamp
count_numbered-stamp id seq now k q [] h = omega arith
count_numbered-stamp id seq now k q (r ∷ rs) (hr, h) =
    ground (arith, hr, count_numbered-stamp id seq now k q rs h)

-- A row that has its number keeps it.
pub stamp_rows-keeps :
    (base rn now k q : ℕ) (xs files : List FileRow)
    → UniqueIds files
    → Awaits xs files
    → count_if (numbered_at k q) files
      ≤ count_if (numbered_at k q) (stamp_rows base rn now xs files)
unfolding stamp_rows
stamp_rows-keeps base rn now k q [] files unique waits = omega arith
stamp_rows-keeps base rn now k q (x ∷ xs) files unique waits = omega (
  arith,
  count_numbered-stamp x.file_id (base + rn) now k q files (free_ids x xs files unique waits),
  stamp_rows-keeps base (suc rn) now k q xs (map (stamp x.file_id (base + rn) now) files)
      (UniqueIds-stamp x xs files unique waits (base + rn) now)
      (Awaits-stamp x xs files unique waits (base + rn) now),
)
