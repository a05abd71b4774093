-- ===== src/Partition.antt =====
-- internal/catalog/partition.go and partition.go: hive-style partition keys, `a=v1/b=v2`.
pub mod Grammar
use s3pgstore.Base.{
  ℕ, suc, ◌+◌, Bool, true, false, not, Option, none, some, List, [], ◌∷◌, ◌++◌, if◌then◌else◌, ◌==◌,
  Bytes, bytes_eq, take, drop, length, Result, ok, err, ◌>>=◌,
}
use s3pgstore.Base.Separated.{split, index_byte, join}

-- The errors, with the segment they stop at.
pub data PartitionError : Type 0 where
  empty_key : PartitionError
  segment_count : ℕ → ℕ → PartitionError
  malformed_segment name_mismatch empty_value : ℕ → PartitionError

-- One round of the loop: `eq <= 0` is a missing `=` or an empty name.
parse_at : ℕ → Bytes → Bytes → Option ℕ → Result PartitionError Bytes
parse_at i seg part none = err (malformed_segment i)
parse_at i seg part (some eq) =
    if eq == 0
    then err (malformed_segment i)
    else if not (bytes_eq (take eq seg) part)
    then err (name_mismatch i)
    else if length (drop (suc eq) seg) == 0
    then err (empty_value i)
    else ok (drop (suc eq) seg)

unfoldable pub parse_segment : ℕ → Bytes → Bytes → Result PartitionError Bytes
unfolding parse_at
parse_segment i seg part = parse_at i seg part (index_byte b'=' seg)

-- The loop over the segments; the two lists have the same length.
unfoldable pub parse_segments : ℕ → List Bytes → List Bytes → Result PartitionError (List Bytes)
unfolding parse_segment
parse_segments i [] parts = ok []
parse_segments i (seg ∷ segs) [] = err (segment_count (suc i) i)
parse_segments i (seg ∷ segs) (part ∷ parts) =
    let rest = parse_segments (i + 1) segs parts in
    parse_segment i seg part >>= λ value. rest >>= λ values. ok (value ∷ values)

-- PartitionKeyValues
unfoldable pub partition_key_values : Bytes → List Bytes → Result PartitionError (List Bytes)
unfolding parse_segments
partition_key_values [] parts = err empty_key
partition_key_values (c ∷ key) parts =
    let segs = split b'/' (c ∷ key) in
    if length segs == length parts
    then parse_segments 0 segs parts
    else err (segment_count (length segs) (length parts))
