-- ===== src/Metadata/Values.antt =====
-- The Go values of `map[string]any`, the declared columns and their SQL types.
use s3pgstore.Base.{
  ℕ, ◌-◌, Bool, ◌&&◌, ◌||◌, Option, none, some, List, [], ◌∷◌, if◌then◌else◌, leb, ◌==◌, Bytes,
  bytes_eq, codes,
}
use s3pgstore.Base.Int.{ℤ}

pub data IntKind : Type 0 where
  int int8 int16 int32 int64 : IntKind

pub data UintKind : Type 0 where
  uint uint8 uint16 uint32 uint64 : UintKind

-- The dynamic type and payload of an `any`; a float by its bits, a time by its instant.
pub data GoValue : Type 0 where
  go_string : Bytes → GoValue
  go_uuid : Bytes → GoValue
  go_bytes16 : Bytes → GoValue
  go_time : ℕ → GoValue
  go_int : IntKind → ℤ → GoValue
  go_uint : UintKind → ℕ → GoValue
  go_float32 : ℕ → GoValue
  go_float64 : ℕ → GoValue
  go_bool : Bool → GoValue
  go_other : GoValue

-- `map[string]any`; an entry `none` is the Go value nil.
abbrev pub Meta : Type 0
Meta = List (Bytes × Option GoValue)

-- ExtensionColumn of config.go.
pub record ExtensionColumn : Type 0 where
  pub name : Bytes
  pub type : Bytes

-- The canonical type names.
pub data SqlType : Type 0 where
  text uuid timestamptz int bigint boolean numeric : SqlType

unfoldable pub sql_type_of : Bytes → Option SqlType
unfolding bytes_eq
sql_type_of t =
    if bytes_eq t (codes "TEXT")
    then some text
    else if bytes_eq t (codes "UUID")
    then some uuid
    else if bytes_eq t (codes "TIMESTAMPTZ")
    then some timestamptz
    else if bytes_eq t (codes "INT")
    then some SqlType.int
    else if bytes_eq t (codes "BIGINT")
    then some bigint
    else if bytes_eq t (codes "BOOLEAN")
    then some boolean
    else if bytes_eq t (codes "NUMERIC")
    then some numeric
    else none

-- `strings.ToUpper` on ASCII.
unfoldable pub upper : Bytes → Bytes
upper [] = []
upper (c ∷ s) = (if leb b'a' c && leb c b'z' then c - 32 else c) ∷ upper s

-- ASCII white space of `strings.TrimSpace`: tab, newline, vertical tab, form feed, return, space.
unfoldable pub is_space : ℕ → Bool
is_space c = c == 32 || (leb 9 c && leb c 13)

trim_left : Bytes → Bytes
unfolding is_space
trim_left [] = []
trim_left (c ∷ s) = if is_space c then trim_left s else c ∷ s

-- A text that is all space trims to nothing; otherwise the trailing space goes.
trim_right : Bytes → Bytes
unfolding is_space
trim_right [] = []
trim_right (c ∷ s) = elim (trim_right s) [
  | [] ↦ if is_space c then [] else c ∷ []
  | d ∷ r ↦ c ∷ d ∷ r
]

unfoldable pub trim_space : Bytes → Bytes
unfolding trim_left trim_right
trim_space s = trim_right (trim_left s)

-- normalizeExtType: upper case, with every space and tab dropped.
unfoldable pub normalize_ext_type : Bytes → Bytes
normalize_ext_type [] = []
normalize_ext_type (c ∷ s) =
    let rest = normalize_ext_type s in
    if c == 32 || c == 9 then rest else (if leb b'a' c && leb c b'z' then c - 32 else c) ∷ rest

-- metadataValueFor: a missing key and a nil value are both SQL NULL.
unfoldable pub metadata_value_for : Meta → ExtensionColumn → Option GoValue
metadata_value_for [] c = none
metadata_value_for ((k, v) ∷ m) c = if bytes_eq k c.name then v else metadata_value_for m c
