-- ===== src/Partition/Grammar.antt =====
-- The keys that PartitionKeyValues accepts, and the values that it returns.
use s3pgstore.Base.{
  ℕ, suc, ◌+◌, ◌≡◌, ◌≢◌, refl, sym, ap, ◌∙◌, Option, none, some, List, [], ◌∷◌, ◌++◌, arith, ◌==◌,
  Bytes, bytes_eq_iff, bytes_eq_refl, take, length, ok, ◌>>=◌, first_value, All, All-append, inl,
  inr, Bool-cases,
}
use s3pgstore.Base.Separated.{
  split, index_byte, join, Lacks, join-split, split-join, index_byte_sound, index_byte-append,
  drop_past, take-length_append,
}
use s3pgstore.Partition.{parse_at, parse_segment, parse_segments, partition_key_values}

abbrev pub segment : Bytes → Bytes → Bytes
segment part value = part ++ (b'=' ∷ value)

abbrev pub segments : List Bytes → List Bytes → List Bytes
segments [] values = []
segments (part ∷ parts) [] = []
segments (part ∷ parts) (value ∷ values) = segment part value ∷ segments parts values

-- The key that names each part with its value.
abbrev pub render_key : List Bytes → List Bytes → Bytes
render_key parts values = join (b'/' ∷ []) (segments parts values)

parse_segment_sound :
    (i : ℕ) (seg part value : Bytes)
    → parse_segment i seg part ≡ ok value
    → (seg ≡ segment part value) × (value ≢ [])
unfolding parse_segment
parse_segment_sound i seg part value h = go (index_byte b'=' seg) refl h
  where
    go :
        (o : Option ℕ)
        → index_byte b'=' seg ≡ o
        → parse_at i seg part o ≡ ok value
        → (seg ≡ segment part value) × (value ≢ [])
    go none e q = cc
    go (some eq) e q =
        ground (arith, index_byte_sound b'=' seg eq e, bytes_eq_iff (take eq seg) part)

parse_segments_sound :
    (i : ℕ) (segs parts values : List Bytes)
    → length segs ≡ length parts
    → parse_segments i segs parts ≡ ok values
    → (segs ≡ segments parts values) × (length values ≡ length parts) × All (λ v. v ≢ []) values
unfolding parse_segments
parse_segments_sound i [] [] values n h = ground arith
parse_segments_sound i [] (part ∷ parts) values n h = absurd (omega arith)
parse_segments_sound i (seg ∷ segs) [] values n h = absurd (omega arith)
parse_segments_sound i (seg ∷ segs) (part ∷ parts) values n h =
    let (value, first, more) =
      first_value (parse_segment i seg part)
        (λ v. parse_segments (i + 1) segs parts >>= λ vs. ok (v ∷ vs)) h in
    let (rest, later, final) =
      first_value (parse_segments (i + 1) segs parts) (λ vs. ok (value ∷ vs)) more in
    let (here, filled) = parse_segment_sound i seg part value first in
    let (there, same, all_filled) =
      parse_segments_sound (i + 1) segs parts rest (omega arith) later in
    let shape : value ∷ rest ≡ values = ground (arith, final) in
    rw (← shape) (cc (here, there), ap suc same, (filled, all_filled))

-- An accepted key is the key that names each part, in order, with the value returned for it; there
-- is one value for each part, and none is empty.
pub partition_key_values_sound :
    (key : Bytes) (parts : List Bytes) {values : List Bytes}
    → partition_key_values key parts ≡ ok values
    → (key ≡ render_key parts values) × (length values ≡ length parts) × All (λ v. v ≢ []) values
unfolding partition_key_values
partition_key_values_sound [] parts h = cc
partition_key_values_sound (c ∷ key) parts {values} h =
    elim (Bool-cases (length (split b'/' (c ∷ key)) == length parts)) [
      | inl same ↦
          let parsed : parse_segments 0 (split b'/' (c ∷ key)) parts ≡ ok values =
            ground (arith, h, same) in
          let (shape, count, filled) =
            parse_segments_sound 0 (split b'/' (c ∷ key)) parts values (ground arith) parsed in
          (sym (join-split b'/' (c ∷ key)) ∙ ap (join (b'/' ∷ [])) shape, count, filled)
      | inr other ↦ absurd (ground (arith, h, other))
    ]

-- Names that validIdent allows hold neither `=` nor `/`.
abbrev pub IsPart : Bytes → Type 0
IsPart part = (part ≢ []) × Lacks b'=' part × Lacks b'/' part

abbrev pub IsValue : Bytes → Type 0
IsValue value = (value ≢ []) × Lacks b'/' value

parse_segment_complete :
    (i : ℕ) (part value : Bytes)
    → IsPart part
    → value ≢ []
    → parse_segment i (segment part value) part ≡ ok value
unfolding parse_segment parse_at
parse_segment_complete i [] value (filled, lacks, h) v = absurd (filled refl)
parse_segment_complete i (c ∷ part) [] p v = absurd (v refl)
parse_segment_complete i (c ∷ part) (d ∷ value) (filled, lacks, h) v = ground (
  arith,
  index_byte-append b'=' (c ∷ part) (d ∷ value) lacks,
  take-length_append (c ∷ part) (b'=' ∷ d ∷ value),
  drop_past part b'=' (d ∷ value),
  bytes_eq_refl (c ∷ part),
)

-- One value for each part, each fit to stand in a key.
abbrev pub Fits : List Bytes → List Bytes → Type 0
Fits [] [] = Unit
Fits [] (value ∷ values) = ⊥
Fits (part ∷ parts) [] = ⊥
Fits (part ∷ parts) (value ∷ values) = (IsPart part × IsValue value) × Fits parts values

parse_segments_complete :
    (i : ℕ) (parts values : List Bytes)
    → Fits parts values
    → parse_segments i (segments parts values) parts ≡ ok values
unfolding parse_segments
parse_segments_complete i [] [] f = refl
parse_segments_complete i [] (value ∷ values) f = absurd f
parse_segments_complete i (part ∷ parts) [] f = absurd f
parse_segments_complete i (part ∷ parts) (value ∷ values) ((p, v), f) =
    rw (parse_segment_complete i part value p v.0, parse_segments_complete (i + 1) parts values f)

segments-Lacks :
    (parts values : List Bytes) → Fits parts values → All (Lacks b'/') (segments parts values)
segments-Lacks [] values f = tt
segments-Lacks (part ∷ parts) [] f = absurd f
segments-Lacks (part ∷ parts) (value ∷ values) ((p, v), f) = (
  All-append (λ c. c ≢ b'/') part (b'=' ∷ value) p.2 (omega arith, v.1),
  segments-Lacks parts values f,
)

length-segments :
    (parts values : List Bytes) → Fits parts values → length (segments parts values) ≡ length parts
length-segments [] values f = refl
length-segments (part ∷ parts) [] f = absurd f
length-segments (part ∷ parts) (value ∷ values) (h, f) = ap suc (length-segments parts values f)

parse_nonempty :
    (key : Bytes) (parts values : List Bytes)
    → key ≢ []
    → split b'/' key ≡ segments parts values
    → Fits parts values
    → partition_key_values key parts ≡ ok values
unfolding partition_key_values
parse_nonempty [] parts values filled s f = absurd (filled refl)
parse_nonempty (c ∷ key) parts values filled s f =
    rw s (ground (arith, length-segments parts values f, parse_segments_complete 0 parts values f))

render_key-ne-nil :
    (part : Bytes) (parts : List Bytes) (value : Bytes) (values : List Bytes)
    → part ≢ []
    → render_key (part ∷ parts) (value ∷ values) ≢ []
unfolding join
render_key-ne-nil [] parts value values h = absurd (h refl)
render_key-ne-nil (c ∷ part) parts value values h = go (segments parts values)
  where
    go : (rest : List Bytes) → join (b'/' ∷ []) (segment (c ∷ part) value ∷ rest) ≢ []
    go [] e = cc
    go (s ∷ rest) e = cc

-- The key of at least one part, where the names are non-empty with no `=` and no `/`, and the
-- values are non-empty with no `/`, is accepted and gives those values back.
pub partition_key_values-render_key :
    (part : Bytes) (parts : List Bytes) (value : Bytes) (values : List Bytes)
    → Fits (part ∷ parts) (value ∷ values)
    → partition_key_values (render_key (part ∷ parts) (value ∷ values)) (part ∷ parts)
      ≡ ok (value ∷ values)
partition_key_values-render_key part parts value values f =
    parse_nonempty (render_key (part ∷ parts) (value ∷ values)) (part ∷ parts) (value ∷ values)
      (render_key-ne-nil part parts value values f.0.0.0)
      (split-join b'/' (segments (part ∷ parts) (value ∷ values)) (λ e. cc)
        (segments-Lacks (part ∷ parts) (value ∷ values) f))
      f
