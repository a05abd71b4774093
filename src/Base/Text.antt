-- ===== src/Base/Text.antt =====
-- Go strings as byte sequences: literals, equality and the lexicographic order of `<`.
use Prim.Native.Char.{code}
use Prim.Native.String.{String}
use Prim.Native.Nat.{ℕ}
use mathlib.Core.Path.{◌≡◌, refl}
use mathlib.Core.Logic.{◌↔◌}
use mathlib.Core.Bool.{Bool, true, false, ◌&&◌}
use mathlib.Core.List.{List, [], ◌∷◌}
use native.Mathlib.Omega.{arith}
use s3pgstore.Base.Tests.{ltb, ◌==◌, if◌then◌else◌}

abbrev pub Bytes : Type 0
Bytes = List ℕ

-- The bytes of an ASCII literal.
abbrev pub codes : String → Bytes
codes String.[] = []
codes (String.◌∷◌ c s) = code c ∷ codes s

unfoldable pub bytes_eq : Bytes → Bytes → Bool
bytes_eq [] [] = true
bytes_eq [] (y ∷ ys) = false
bytes_eq (x ∷ xs) [] = false
bytes_eq (x ∷ xs) (y ∷ ys) = (x == y) && bytes_eq xs ys

bytes_eq→eq : (a b : Bytes) → bytes_eq a b ≡ true → a ≡ b
unfolding bytes_eq
bytes_eq→eq [] [] h = refl
bytes_eq→eq [] (y ∷ ys) h = cc
bytes_eq→eq (x ∷ xs) [] h = cc
bytes_eq→eq (x ∷ xs) (y ∷ ys) h = ground (arith, bytes_eq→eq xs ys)

pub bytes_eq_refl : (a : Bytes) → bytes_eq a a ≡ true
unfolding bytes_eq
bytes_eq_refl [] = refl
bytes_eq_refl (x ∷ xs) = ground (arith, bytes_eq_refl xs)

pub bytes_eq_iff : (a b : Bytes) → (bytes_eq a b ≡ true) ↔ (a ≡ b)
bytes_eq_iff a b = (bytes_eq→eq a b, λ e. rw e (bytes_eq_refl b))

-- Go's `a < b` on strings.
unfoldable pub bytes_ltb : Bytes → Bytes → Bool
bytes_ltb [] [] = false
bytes_ltb [] (y ∷ ys) = true
bytes_ltb (x ∷ xs) [] = false
bytes_ltb (x ∷ xs) (y ∷ ys) = if ltb x y then true else if ltb y x then false else bytes_ltb xs ys

pub bytes_lt_asymm : (a b : Bytes) → bytes_ltb a b ≡ true → bytes_ltb b a ≡ false
unfolding bytes_ltb
bytes_lt_asymm [] [] h = refl
bytes_lt_asymm [] (y ∷ ys) h = refl
bytes_lt_asymm (x ∷ xs) [] h = cc
bytes_lt_asymm (x ∷ xs) (y ∷ ys) h = ground (arith, bytes_lt_asymm xs ys)

pub bytes_lt_trans :
    (a b c : Bytes) → bytes_ltb a b ≡ true → bytes_ltb b c ≡ true → bytes_ltb a c ≡ true
unfolding bytes_ltb
bytes_lt_trans [] [] c p q = cc
bytes_lt_trans [] (y ∷ ys) [] p q = cc
bytes_lt_trans [] (y ∷ ys) (z ∷ zs) p q = refl
bytes_lt_trans (x ∷ xs) [] c p q = cc
bytes_lt_trans (x ∷ xs) (y ∷ ys) [] p q = cc
bytes_lt_trans (x ∷ xs) (y ∷ ys) (z ∷ zs) p q = ground (arith, bytes_lt_trans xs ys zs)

pub bytes_lt_connex : (a b : Bytes) → bytes_ltb a b ≡ false → bytes_ltb b a ≡ false → a ≡ b
unfolding bytes_ltb
bytes_lt_connex [] [] p q = refl
bytes_lt_connex [] (y ∷ ys) p q = cc
bytes_lt_connex (x ∷ xs) [] p q = cc
bytes_lt_connex (x ∷ xs) (y ∷ ys) p q = ground (arith, bytes_lt_connex xs ys)
