-- ===== src/Metadata/Bag/Puts.antt =====
-- What `put_exts` leaves in the bag, key by key.
use s3pgstore.Base.{
  ◌≡◌, refl, ◌∙◌, false, Option, none, some, List, [], ◌∷◌, ◌++◌, arith, Bytes, bytes_eq, Result,
  ok, err, first_value, All, bytes_eq_iff, bytes_eq_refl,
}
use s3pgstore.Base.Dict.{Dict, lookup, put, lookup-put}
use s3pgstore.Metadata.Values.{GoValue, Meta, ExtensionColumn, metadata_value_for}
use s3pgstore.Metadata.Format.{FormatError, Codec, format_ext_for_s3}
use s3pgstore.Metadata.Bag.{s3_meta_ext_prefix, put_ext, put_exts}

put_ext-lookup :
    (codec : Codec) (k : Bytes) (c : ExtensionColumn) (o : Option GoValue) (out md : Dict Bytes)
    → bytes_eq (s3_meta_ext_prefix ++ c.name) k ≡ false
    → put_ext codec c o out ≡ ok md
    → lookup k md ≡ lookup k out
unfolding put_ext
put_ext-lookup codec k c none out md apart h = ground arith
put_ext-lookup codec k c (some v) out md apart h = put_only (format_ext_for_s3 codec c v) refl
  where
    put_only :
        (r : Result FormatError Bytes)
        → format_ext_for_s3 codec c v ≡ r
        → lookup k md ≡ lookup k out
    put_only (ok s) e =
        let same : put (s3_meta_ext_prefix ++ c.name) s out ≡ md = ground (arith, e) in
        rw (← same) (lookup-put (s3_meta_ext_prefix ++ c.name) k s out ∙ (rw apart))
    put_only (err x) e = ground (arith, e)

-- No column of the list is stored under the key `k`.
abbrev pub Apart : Bytes → List ExtensionColumn → Type 0
Apart k = All (λ c. bytes_eq (s3_meta_ext_prefix ++ c.name) k ≡ false)

-- The extension keys leave the other fields alone.
pub put_exts-lookup :
    (codec : Codec) (k : Bytes) (exts : List ExtensionColumn) (values : Meta) (out md : Dict Bytes)
    → Apart k exts
    → put_exts codec exts values out ≡ ok md
    → lookup k md ≡ lookup k out
unfolding put_exts
put_exts-lookup codec k [] values out md apart h = ground arith
put_exts-lookup codec k (c ∷ exts) values out md (here, apart) h =
    let (out', first, rest) =
      first_value (put_ext codec c (metadata_value_for values c) out)
        (λ o. put_exts codec exts values o) h in
    put_exts-lookup codec k exts values out' md apart rest
    ∙ put_ext-lookup codec k c (metadata_value_for values c) out out' here first

-- The columns have different names; Config.validate demands it.
abbrev pub DistinctNames : List ExtensionColumn → Type 0
DistinctNames [] = Unit
DistinctNames (c ∷ exts) = All (λ d. bytes_eq d.name c.name ≡ false) exts × DistinctNames exts

-- The text of a column's value, if it has one.
abbrev pub stored : Codec → ExtensionColumn → Option GoValue → Option Bytes
stored codec c none = none
stored codec c (some v) = elim (format_ext_for_s3 codec c v) [ ok s ↦ some s | err e ↦ none ]

put_ext-stored :
    (codec : Codec) (c : ExtensionColumn) (o : Option GoValue) (out md : Dict Bytes)
    → lookup (s3_meta_ext_prefix ++ c.name) out ≡ none
    → put_ext codec c o out ≡ ok md
    → lookup (s3_meta_ext_prefix ++ c.name) md ≡ stored codec c o
unfolding put_ext
put_ext-stored codec c none out md absent h = ground arith
put_ext-stored codec c (some v) out md absent h = put_only (format_ext_for_s3 codec c v) refl
  where
    key : Bytes
    key = s3_meta_ext_prefix ++ c.name

    put_only :
        (r : Result FormatError Bytes)
        → format_ext_for_s3 codec c v ≡ r
        → lookup key md ≡ stored codec c (some v)
    put_only (ok s) e =
        let same : put key s out ≡ md = ground (arith, e) in
        rw (← same) (lookup-put key key s out ∙ ground (arith, bytes_eq_refl key, e))
    put_only (err x) e = ground (arith, e)

prefixed-Apart :
    (c : ExtensionColumn) (exts : List ExtensionColumn)
    → All (λ d. bytes_eq d.name c.name ≡ false) exts
    → Apart (s3_meta_ext_prefix ++ c.name) exts
unfolding bytes_eq
prefixed-Apart c [] h = tt
prefixed-Apart c (d ∷ exts) (here, h) = (here, prefixed-Apart c exts h)

-- No column is stored yet.
abbrev pub Unset : Dict Bytes → List ExtensionColumn → Type 0
Unset out = All (λ c. lookup (s3_meta_ext_prefix ++ c.name) out ≡ none)

Unset-put_ext :
    (codec : Codec) (c : ExtensionColumn) (o : Option GoValue) (out md : Dict Bytes)
    (exts : List ExtensionColumn)
    → All (λ d. bytes_eq d.name c.name ≡ false) exts
    → put_ext codec c o out ≡ ok md
    → Unset out exts
    → Unset md exts
Unset-put_ext codec c o out md [] apart h u = tt
Unset-put_ext codec c o out md (d ∷ exts) (here, apart) h (ud, u) = (
  put_ext-lookup codec (s3_meta_ext_prefix ++ d.name) c o out md
        (unfold bytes_eq in ground (arith, bytes_eq_iff c.name d.name, bytes_eq_iff d.name c.name))
        h
      ∙ ud,
  Unset-put_ext codec c o out md exts apart h u,
)

pub put_exts-stored :
    (codec : Codec) (exts : List ExtensionColumn) (values : Meta) (out md : Dict Bytes)
    → DistinctNames exts
    → Unset out exts
    → put_exts codec exts values out ≡ ok md
    → All
        (λ c.
          lookup (s3_meta_ext_prefix ++ c.name) md ≡ stored codec c (metadata_value_for values c))
        exts
unfolding put_exts
put_exts-stored codec [] values out md distinct u h = tt
put_exts-stored codec (c ∷ exts) values out md (apart, distinct) (uc, u) h =
    let o = metadata_value_for values c in
    let (out', first, rest) =
      first_value (put_ext codec c o out) (λ o'. put_exts codec exts values o') h in
    (
      put_exts-lookup codec (s3_meta_ext_prefix ++ c.name) exts values out' md
            (prefixed-Apart c exts apart) rest
          ∙ put_ext-stored codec c o out out' uc first,
      put_exts-stored codec exts values out' md distinct
          (Unset-put_ext codec c o out out' exts apart first u) rest,
    )
