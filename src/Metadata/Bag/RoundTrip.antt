-- ===== src/Metadata/Bag/RoundTrip.antt =====
-- What a rebuild reads back from the bag that a write attaches.
use s3pgstore.Base.{
  ◌≡◌, refl, ap, ◌∙◌, false, Option, none, some, List, [], ◌∷◌, ◌++◌, arith, Bytes, bytes_eq, ok,
  first_value, All, All-of, All-zip, bytes_eq_iff, bytes_eq_refl,
}
use s3pgstore.Base.Int.{ℤ, pos}
use s3pgstore.Base.Decimal.{format_int, IsInt64, parse_int-format_int}
use s3pgstore.Base.Dict.{Dict, lookup, lookup-put}
use s3pgstore.Metadata.Values.{Meta, ExtensionColumn, metadata_value_for}
use s3pgstore.Metadata.Format.{Codec}
use s3pgstore.Metadata.Bag.Puts.{DistinctNames, stored, Unset, put_exts-lookup, put_exts-stored}
use s3pgstore.Metadata.Bag.{
  token_or_empty, s3_meta_token, s3_meta_record_count, s3_meta_uncompressed_size,
  s3_meta_written_at_version, s3_meta_ext_prefix, validate_values, add_raw, put_exts,
  library_fields, check_bag, build_s3_metadata, recovered_int, new_recovered_fields, raw_exts,
}

-- Reading the raw texts back.
add_raw_other :
    (name k : Bytes) (o : Option Bytes) (raw : Dict Bytes)
    → bytes_eq name k ≡ false
    → lookup k (add_raw name o raw) ≡ lookup k raw
unfolding add_raw
add_raw_other name k none raw apart = refl
add_raw_other name k (some v) raw apart = lookup-put name k v raw ∙ (rw apart)

add_raw_self :
    (name : Bytes) (o : Option Bytes) (raw : Dict Bytes)
    → lookup name raw ≡ none
    → lookup name (add_raw name o raw) ≡ o
unfolding add_raw
add_raw_self name none raw absent = absent
add_raw_self name (some v) raw absent = lookup-put name name v raw ∙ (rw (bytes_eq_refl name))

raw_exts-keeps :
    (md : Dict Bytes) (k : Bytes) (exts : List ExtensionColumn) (raw : Dict Bytes)
    → All (λ d. bytes_eq d.name k ≡ false) exts
    → lookup k (raw_exts md exts raw) ≡ lookup k raw
unfolding raw_exts
raw_exts-keeps md k [] raw apart = refl
raw_exts-keeps md k (d ∷ exts) raw (here, apart) =
    let o = lookup (s3_meta_ext_prefix ++ d.name) md in
    raw_exts-keeps md k exts (add_raw d.name o raw) apart ∙ add_raw_other d.name k o raw here

-- No column is read yet.
abbrev Unread : Dict Bytes → List ExtensionColumn → Type 0
Unread raw = All (λ c. lookup c.name raw ≡ none)

Unread-add_raw :
    (name : Bytes) (o : Option Bytes) (raw : Dict Bytes) (exts : List ExtensionColumn)
    → All (λ d. bytes_eq d.name name ≡ false) exts
    → Unread raw exts
    → Unread (add_raw name o raw) exts
Unread-add_raw name o raw [] apart u = tt
Unread-add_raw name o raw (d ∷ exts) (here, apart) (ud, u) = (
  add_raw_other name d.name o raw
        (ground (arith, bytes_eq_iff name d.name, bytes_eq_iff d.name name))
      ∙ ud,
  Unread-add_raw name o raw exts apart u,
)

raw_exts-lookup :
    (md : Dict Bytes) (exts : List ExtensionColumn) (raw : Dict Bytes)
    → DistinctNames exts
    → Unread raw exts
    → All
        (λ c. lookup c.name (raw_exts md exts raw) ≡ lookup (s3_meta_ext_prefix ++ c.name) md)
        exts
unfolding raw_exts
raw_exts-lookup md [] raw distinct u = tt
raw_exts-lookup md (c ∷ exts) raw (apart, distinct) (uc, u) =
    let o = lookup (s3_meta_ext_prefix ++ c.name) md in
    (
      raw_exts-keeps md c.name exts (add_raw c.name o raw) apart ∙ add_raw_self c.name o raw uc,
      raw_exts-lookup md exts (add_raw c.name o raw) distinct
          (Unread-add_raw c.name o raw exts apart u),
    )

check_bag_keeps : (out md : Dict Bytes) → check_bag out ≡ ok md → out ≡ md
unfolding check_bag
check_bag_keeps out md h =
    ground (arith, first_value (validate_values out) (λ _. ok out) {end = md})

Unread-nil : (exts : List ExtensionColumn) → Unread [] exts
unfolding lookup
Unread-nil exts = All-of (λ c. refl) exts

-- The library's fields, each at its key; no extension key is among them.
library_fields-lookup :
    (token : Bytes) (rc us ver : ℤ)
    → (token_or_empty (lookup s3_meta_token (library_fields token rc us ver)) ≡ token)
      × (lookup s3_meta_record_count (library_fields token rc us ver) ≡ some (format_int rc))
      × (lookup s3_meta_uncompressed_size (library_fields token rc us ver) ≡ some (format_int us))
      × (lookup s3_meta_written_at_version (library_fields token rc us ver) ≡ some (format_int ver))
unfolding library_fields lookup bytes_eq
library_fields-lookup [] rc us ver = (refl, refl, refl, refl)
library_fields-lookup (c ∷ s) rc us ver = (refl, refl, refl, refl)

library_fields-Unset :
    (token : Bytes) (rc us ver : ℤ) (exts : List ExtensionColumn)
    → Unset (library_fields token rc us ver) exts
unfolding library_fields lookup bytes_eq
library_fields-Unset [] rc us ver exts = All-of (λ c. refl) exts
library_fields-Unset (c ∷ s) rc us ver exts = All-of (λ c. refl) exts

recovered_int-format_int :
    (md : Dict Bytes) (k : Bytes) (default z : ℤ)
    → IsInt64 z
    → lookup k md ≡ some (format_int z)
    → recovered_int md k default ≡ z
recovered_int-format_int md k default z h e = ground (arith, e, parse_int-format_int z h)

module _ (codec : Codec) (token : Bytes) (rc us ver : ℤ) (exts : List ExtensionColumn)
    (values : Meta) {md : Dict Bytes}
    (built : build_s3_metadata codec token rc us ver exts values ≡ ok md) where
  build-puts : put_exts codec exts values (library_fields token rc us ver) ≡ ok md
  unfolding build_s3_metadata
  build-puts =
      let (out, puts, checked) =
        first_value (put_exts codec exts values (library_fields token rc us ver)) check_bag built in
      rw (← check_bag_keeps out md checked) puts

  build-lookup :
      (k : Bytes)
      → ((name : Bytes) → bytes_eq (s3_meta_ext_prefix ++ name) k ≡ false)
      → lookup k md ≡ lookup k (library_fields token rc us ver)
  build-lookup k apart =
      put_exts-lookup codec k exts values (library_fields token rc us ver) md
        (All-of (λ c. apart c.name) exts) build-puts

  -- A bag that BuildS3Metadata returns for int64 counts and columns with different names gives a
  -- rebuild the token, the record count, the uncompressed size and the version of the write, and
  -- for each column the text of its value, or none where the write had no value.
  pub recover-build :
      (fallback : ℤ)
      → IsInt64 rc
      → IsInt64 us
      → IsInt64 ver
      → DistinctNames exts
      → ((new_recovered_fields md exts fallback).token ≡ token)
        × ((new_recovered_fields md exts fallback).record_count ≡ rc)
        × ((new_recovered_fields md exts fallback).uncompressed_size ≡ us)
        × ((new_recovered_fields md exts fallback).version ≡ ver)
        × All
            (λ c.
              lookup c.name (new_recovered_fields md exts fallback).raw_ext
              ≡ stored codec c (metadata_value_for values c))
            exts
  unfolding new_recovered_fields
  recover-build fallback hr hu hv distinct =
      let (at_token, at_records, at_size, at_version) = library_fields-lookup token rc us ver in
      (
        ap token_or_empty (build-lookup s3_meta_token (λ n. unfold bytes_eq in refl)) ∙ at_token,
        recovered_int-format_int md s3_meta_record_count (pos 0) rc hr
            (build-lookup s3_meta_record_count (λ n. unfold bytes_eq in refl) ∙ at_records),
        recovered_int-format_int md s3_meta_uncompressed_size (pos 0) us hu
            (build-lookup s3_meta_uncompressed_size (λ n. unfold bytes_eq in refl) ∙ at_size),
        recovered_int-format_int md s3_meta_written_at_version fallback ver hv
            (build-lookup s3_meta_written_at_version (λ n. unfold bytes_eq in refl) ∙ at_version),
        All-zip (λ c p q. p ∙ q) exts (raw_exts-lookup md exts [] distinct (Unread-nil exts))
            (put_exts-stored codec exts values (library_fields token rc us ver) md distinct
              (library_fields-Unset token rc us ver exts) build-puts),
      )
