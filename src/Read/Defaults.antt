-- ===== src/Read/Defaults.antt =====
-- read.go: the workers, the queues and the body slots of a read's pipeline.
use s3pgstore.Base.{
  ℕ, zero, suc, ◌+◌, ◌-◌, ◌*◌, ◌/◌, min, max, ◌≤◌, ◌<◌, ◌≡◌, ap, subst, Bool-cases, inl, inr, true,
  false, leb, none, some, List, [], ◌∷◌, arith, if◌then◌else◌, ltb, length, All,
}
use native.Mathlib.Nat.{div-add-mod, mod-lt, le-mul_of_pos_right, mul-zero}
use s3pgstore.Read.{
  PartState, ReadOpts, or_set, or_positive, read_batch_defaults, clamp_workers, raise_cap, body_cap,
}

raise_cap-le : (cap : ℕ) (parts : List PartState) → cap ≤ raise_cap cap parts
unfolding raise_cap
raise_cap-le cap [] = omega arith
raise_cap-le cap (p ∷ parts) =
    ground (arith, raise_cap-le (if ltb cap (length p.files) then length p.files else cap) parts)

pub raise_cap-All :
    (cap : ℕ) (parts : List PartState) → All (λ p. length p.files ≤ raise_cap cap parts) parts
unfolding raise_cap
raise_cap-All cap [] = tt
raise_cap-All cap (p ∷ parts) =
    let next = if ltb cap (length p.files) then length p.files else cap in
    (ground (arith, raise_cap-le next parts), raise_cap-All next parts)

or_positive-pos : (k n : ℕ) → 0 < n → 0 < or_positive k n
or_positive-pos zero n h = h
or_positive-pos (suc k) n h = omega arith

-- The body slots of a pipeline suffice for every file of any one partition, and there is one, if
-- the pool has a slot.
pub body_cap-All :
    (o : ReadOpts) (slots : ℕ) (parts : List PartState)
    → 0 < slots
    → All (λ p. length p.files ≤ body_cap o slots parts) parts × (0 < body_cap o slots parts)
unfolding body_cap
body_cap-All o slots parts h =
    let first = or_positive o.fetch_ahead_files slots in
    (
      raise_cap-All first parts,
      ground (arith, raise_cap-le first parts, or_positive-pos o.fetch_ahead_files slots h),
    )

ceil-le : (n w : ℕ) → 0 < w → n ≤ w * ((n + w - 1) / w)
ceil-le n w h = omega (arith, div-add-mod (n + w - 1) w, mod-lt (n + w - 1) h)

-- The workers that run, times the depth of a queue.
clamped-le : (n w : ℕ) → 0 < n → 0 < w → n ≤ max 1 (min w n) * ((n + w - 1) / w)
clamped-le n w hn hw = elim (Bool-cases (leb w n)) [
  | inl e ↦ subst (λ k. n ≤ k * ((n + w - 1) / w)) (least e) (ceil-le n w hw)
  | inr e ↦
      subst (λ k. n ≤ k * ((n + w - 1) / w)) (most e)
        (le-mul_of_pos_right n (has_one (ceil-le n w hw)))
]
  where
    least : leb w n ≡ true → w ≡ max 1 (min w n)
    least e = ground (arith, e)

    most : leb w n ≡ false → n ≡ max 1 (min w n)
    most e = ground (arith, e)

    has_one : n ≤ w * ((n + w - 1) / w) → 0 < (n + w - 1) / w
    has_one e = positive ((n + w - 1) / w) e
      where
        positive : (d : ℕ) → n ≤ w * d → 0 < d
        positive zero e = absurd (omega (arith, mul-zero w))
        positive (suc d) e = omega arith

-- Where the call leaves the depth of the queues open, the workers of a Read can hold all of its
-- partitions: there are at least one and at most as many workers as partitions, and their number
-- times the depth is not below the number of partitions.
pub read_batch_defaults-clamp_workers :
    (slots max_procs len_parts : ℕ) (o : ReadOpts)
    → 0 < len_parts
    → o.decode_ahead_partitions ≡ none
    → (depth : ℕ) × ((read_batch_defaults slots max_procs o len_parts).decode_ahead_partitions
        ≡ some depth)
      × (1
          ≤ clamp_workers
              (read_batch_defaults slots max_procs o len_parts).decode_workers
              len_parts)
      × (clamp_workers (read_batch_defaults slots max_procs o len_parts).decode_workers len_parts
          ≤ len_parts)
      × (len_parts
          ≤ clamp_workers (read_batch_defaults slots max_procs o len_parts).decode_workers len_parts
            * depth)
unfolding read_batch_defaults clamp_workers
read_batch_defaults-clamp_workers slots max_procs len_parts o h unset =
    let workers = or_positive o.decode_workers (min (min slots max_procs) len_parts) in
    (
      (len_parts + max workers 1 - 1) / max workers 1,
      ap (λ d. or_set d ((len_parts + max workers 1 - 1) / max workers 1)) unset,
      omega arith,
      omega arith,
      subst (λ k. len_parts ≤ k * ((len_parts + max workers 1 - 1) / max workers 1)) (omega arith)
          (clamped-le len_parts (max workers 1) h (omega arith)),
    )
