-- ===== src/Pipeline/Call.antt =====
-- read.go: the pipeline that readFetchAndDecodeIter starts for the entries of a call.
use s3pgstore.Base.{ℕ, zero, suc, Bool, Option, none, some, List, [], ◌∷◌, length}
use s3pgstore.Base.Int.{ℤ, pos, negsuc}
use s3pgstore.Store.{FileRef}
use s3pgstore.Read.{
  PartState, file_ref_stats, ReadOpts, prepare_partitions, clamp_workers, body_cap,
}
use s3pgstore.Pipeline.{Shape}

-- The number of files of a partition.
unfoldable pub files_in : List PartState → ℕ → ℕ
files_in [] p = 0
files_in (part ∷ parts) zero = length part.files
files_in (part ∷ parts) (suc p) = files_in parts p

-- A cap that is not positive is none, as 0 is.
abbrev pub positive_part : ℤ → ℕ
positive_part (pos n) = n
positive_part (negsuc n) = 0

abbrev pub or_zero : Option ℕ → ℕ
or_zero none = 0
or_zero (some n) = n

-- The uncompressed bytes of a partition, by fileRefStats.
unfoldable pub bytes_in : List PartState → ℕ → ℕ
unfolding file_ref_stats
bytes_in [] p = 0
bytes_in (part ∷ parts) zero = (file_ref_stats part.files).0
bytes_in (part ∷ parts) (suc p) = bytes_in parts p

-- readFetchAndDecodeIter, up to the start of the goroutines: the options have their defaults, and the
-- pool has `slots` slots.
unfoldable pub read_shape : (ℕ → Bool) → ℕ → ReadOpts → List FileRef → Shape
unfolding clamp_workers body_cap files_in bytes_in
read_shape times_out slots opts entries =
    let parts = prepare_partitions entries in
    record {
      count = length parts;
      files = files_in parts;
      bytes = bytes_in parts;
      cap = body_cap opts slots parts;
      workers = clamp_workers opts.decode_workers (length parts);
      depth = or_zero opts.decode_ahead_partitions;
      byte_cap = positive_part opts.decode_ahead_bytes;
      times_out = times_out;
    }
