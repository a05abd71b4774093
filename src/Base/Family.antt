-- ===== src/Base/Family.antt =====
-- Families indexed by numbers: a change at one index, and sums over the first indices.
use s3pgstore.Base.{
  ℕ, zero, suc, ◌+◌, ◌*◌, ◌≤◌, ◌<◌, ◌≡◌, refl, ap, arith, if◌then◌else◌, ◌==◌, ltb, Bool-cases, inl,
  inr,
}

abbrev pub set {ℓ} : {A : Type ℓ} → ℕ → A → (ℕ → A) → ℕ → A
set i a f j = if i == j then a else f j

-- One more at an index.
abbrev pub raised : ℕ → (ℕ → ℕ) → ℕ → ℕ
raised i f = set i (suc (f i)) f

-- An amount more at an index.
abbrev pub added : ℕ → ℕ → (ℕ → ℕ) → ℕ → ℕ
added i n f = set i (f i + n) f

unfoldable pub total : ℕ → (ℕ → ℕ) → ℕ
total zero f = 0
total (suc n) f = f n + total n f

total-set_outside : (n i a : ℕ) (f : ℕ → ℕ) → n ≤ i → total n (set i a f) ≡ total n f
unfolding total
total-set_outside zero i a f h = refl
total-set_outside (suc n) i a f h = ground (arith, total-set_outside n i a f)

pub total-set : (n i a : ℕ) (f : ℕ → ℕ) → i < n → total n (set i a f) + f i ≡ total n f + a
unfolding total
total-set zero i a f h = absurd (omega arith)
total-set (suc n) i a f h = elim (Bool-cases (ltb i n)) [
  | inl below ↦ ground (arith, total-set n i a f)
  | inr last ↦ ground (arith, total-set_outside n i a f)
]

pub total-raised : (n i : ℕ) (f : ℕ → ℕ) → i < n → total n (raised i f) ≡ suc (total n f)
total-raised n i f h = omega (arith, total-set n i (suc (f i)) f h)

pub total-le : (n : ℕ) (f g : ℕ → ℕ) → ((i : ℕ) → i < n → f i ≤ g i) → total n f ≤ total n g
unfolding total
total-le zero f g h = omega arith
total-le (suc n) f g h =
    omega (arith, h n (omega arith), total-le n f g (λ i less. h i (omega (arith, less))))

pub total-lt :
    (n i : ℕ) (f g : ℕ → ℕ) → i < n → ((j : ℕ) → f j ≤ g j) → f i < g i → total n f < total n g
unfolding total
total-lt zero i f g inside h less = absurd (omega arith)
total-lt (suc n) i f g inside h less = elim (Bool-cases (ltb i n)) [
  | inl below ↦ ground (arith, h n, total-lt n i f g)
  | inr last ↦ ground (arith, total-le n f g (λ j small. h j), less, inside)
]

pub total-ext : (n : ℕ) (f g : ℕ → ℕ) → ((i : ℕ) → f i ≡ g i) → total n f ≡ total n g
unfolding total
total-ext zero f g same = refl
total-ext (suc n) f g same = omega (arith, same n, total-ext n f g same)

pub total-plus : (n : ℕ) (f g : ℕ → ℕ) → total n (λ i. f i + g i) ≡ total n f + total n g
unfolding total
total-plus zero f g = refl
total-plus (suc n) f g = omega (arith, total-plus n f g)

-- Two families that agree before an index, one of them 0 after it.
pub total-le_at :
    (n i : ℕ) (f g : ℕ → ℕ)
    → i < n
    → ((j : ℕ) → j < i → f j ≡ g j)
    → ((j : ℕ) → i < j → f j ≡ 0)
    → total n f ≤ total n g + f i
unfolding total
total-le_at zero i f g inside before after = absurd (omega arith)
total-le_at (suc n) i f g inside before after = elim (Bool-cases (ltb i n)) [
  | inl below ↦ ground (arith, after n, total-le_at n i f g)
  | inr last ↦
      let same : i ≡ n = ground (arith, inside, last) in
      let rest : total n f ≤ total n g =
        total-le n f g
          (λ j less. let e = before j (omega (arith, same, less)) in omega (arith, e)) in
      omega (arith, rest, ap f same)
]

pub total-le_times : (n m : ℕ) (f : ℕ → ℕ) → ((i : ℕ) → i < n → f i ≤ m) → total n f ≤ n * m
unfolding total
total-le_times zero m f h = omega arith
total-le_times (suc n) m f h =
    let rest = total-le_times n m f (λ i less. h i (omega (arith, less))) in
    omega (arith, h n (omega arith), rest)

pub total_of_zero : (n : ℕ) → total n (λ i. 0) ≡ 0
unfolding total
total_of_zero zero = refl
total_of_zero (suc n) = omega (arith, total_of_zero n)
