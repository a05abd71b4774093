-- ===== src/Base/Separated.antt =====
-- `strings.Split` by one byte, `strings.Join`, `strings.IndexByte` and prefixes.
use s3pgstore.Base.{
  ℕ, zero, suc, ◌≡◌, ◌≢◌, refl, ap, Bool, true, false, ◌&&◌, Option, none, some, List, [], ◌∷◌, ◌∙◌,
  ◌++◌, arith, if◌then◌else◌, ◌==◌, Bytes, take, drop, length, All,
}

-- No byte of the text is `b`.
abbrev pub Lacks : ℕ → Bytes → Type 0
Lacks b = All (λ c. c ≢ b)

unfoldable pub join : Bytes → List Bytes → Bytes
join sep [] = []
join sep (p ∷ []) = p
join sep (p ∷ q ∷ ps) = p ++ (sep ++ join sep (q ∷ ps))

abbrev pub extend : ℕ → List Bytes → List Bytes
extend c [] = (c ∷ []) ∷ []
extend c (p ∷ ps) = (c ∷ p) ∷ ps

unfoldable pub split : ℕ → Bytes → List Bytes
split sep [] = [] ∷ []
split sep (c ∷ s) = let rest = split sep s in if c == sep then [] ∷ rest else extend c rest

split-ne-nil : (sep : ℕ) (s : Bytes) → split sep s ≢ []
unfolding split
split-ne-nil sep [] = ground arith
split-ne-nil sep (c ∷ s) = ground (arith, split-ne-nil sep s)

join-skip : (sep : Bytes) (ps : List Bytes) → ps ≢ [] → join sep ([] ∷ ps) ≡ sep ++ join sep ps
unfolding join
join-skip sep [] h = absurd (h refl)
join-skip sep (p ∷ ps) h = refl

join-extend :
    (sep : Bytes) (c : ℕ) (ps : List Bytes) → ps ≢ [] → join sep (extend c ps) ≡ c ∷ join sep ps
unfolding join
join-extend sep c [] h = absurd (h refl)
join-extend sep c (p ∷ []) h = refl
join-extend sep c (p ∷ q ∷ ps) h = refl

-- Joining the parts of a split gives the text back.
pub join-split : (sep : ℕ) (s : Bytes) → join (sep ∷ []) (split sep s) ≡ s
unfolding split
join-split sep [] = unfold join in refl
join-split sep (c ∷ s) = ground (
  arith,
  join-split sep s,
  join-skip (sep ∷ []) (split sep s) (split-ne-nil sep s),
  join-extend (sep ∷ []) c (split sep s) (split-ne-nil sep s),
)

split-Lacks : (sep : ℕ) (p : Bytes) → Lacks sep p → split sep p ≡ p ∷ []
unfolding split
split-Lacks sep [] h = refl
split-Lacks sep (c ∷ p) (hc, hp) = ground (arith, split-Lacks sep p hp)

split-append : (sep : ℕ) (p s : Bytes) → Lacks sep p → split sep (p ++ (sep ∷ s)) ≡ p ∷ split sep s
unfolding split
split-append sep [] s h = ground arith
split-append sep (c ∷ p) s (hc, hp) = ground (arith, split-append sep p s hp)

-- Splitting a join gives the parts back, if there is one and none holds the separator.
pub split-join :
    (sep : ℕ) (ps : List Bytes) → ps ≢ [] → All (Lacks sep) ps → split sep (join (sep ∷ []) ps) ≡ ps
unfolding join
split-join sep [] h hs = absurd (h refl)
split-join sep (p ∷ []) h (hp, hs) = split-Lacks sep p hp
split-join sep (p ∷ q ∷ ps) h (hp, hs) =
    split-append sep p (join (sep ∷ []) (q ∷ ps)) hp
    ∙ ap (λ r. p ∷ r) (split-join sep (q ∷ ps) (λ e. cc) hs)

-- `strings.IndexByte`: the first position of `b`, and `none` for -1.
unfoldable pub index_byte : ℕ → Bytes → Option ℕ
index_byte b [] = none
index_byte b (c ∷ s) =
    let rest = index_byte b s in
    if c == b then some 0 else elim rest [ none ↦ none | some i ↦ some (suc i) ]

-- What stands before and behind the first occurrence, around it.
pub index_byte_sound :
    (b : ℕ) (s : Bytes) (i : ℕ) → index_byte b s ≡ some i → s ≡ take i s ++ (b ∷ drop (suc i) s)
unfolding index_byte
index_byte_sound b [] i h = cc
index_byte_sound b (c ∷ s) zero h = ground arith
index_byte_sound b (c ∷ s) (suc i) h = ground (arith, index_byte_sound b s i)

pub index_byte-append :
    (b : ℕ) (p s : Bytes) → Lacks b p → index_byte b (p ++ (b ∷ s)) ≡ some (length p)
unfolding index_byte
index_byte-append b [] s h = ground arith
index_byte-append b (c ∷ p) s (hc, hp) = ground (arith, index_byte-append b p s hp)

-- `strings.HasPrefix`.
unfoldable pub has_prefix : Bytes → Bytes → Bool
has_prefix s [] = true
has_prefix [] (c ∷ p) = false
has_prefix (d ∷ s) (c ∷ p) = (d == c) && has_prefix s p

pub has_prefix_sound : (s p : Bytes) → has_prefix s p ≡ true → s ≡ p ++ drop (length p) s
unfolding has_prefix
has_prefix_sound s [] h = refl
has_prefix_sound [] (c ∷ p) h = cc
has_prefix_sound (d ∷ s) (c ∷ p) h = ground (arith, has_prefix_sound s p)

pub has_prefix-append : (p s : Bytes) → has_prefix (p ++ s) p ≡ true
unfolding has_prefix
has_prefix-append [] s = refl
has_prefix-append (c ∷ p) s = ground (arith, has_prefix-append p s)

pub take-length_append {ℓ} : {A : Type ℓ} (p s : List A) → take (length p) (p ++ s) ≡ p
take-length_append [] s = refl
take-length_append (c ∷ p) s = ap (λ r. c ∷ r) (take-length_append p s)

pub drop-length_append {ℓ} : {A : Type ℓ} (p s : List A) → drop (length p) (p ++ s) ≡ s
drop-length_append [] s = refl
drop-length_append (c ∷ p) s = drop-length_append p s

-- What stands behind a prefix and one more element.
pub drop_past {ℓ} :
    {A : Type ℓ} (p : List A) (c : A) (s : List A) → drop (suc (length p)) (p ++ (c ∷ s)) ≡ s
drop_past [] c s = refl
drop_past (b ∷ p) c s = drop_past p c s
