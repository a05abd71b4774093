-- ===== src/Base/Results.antt =====
-- A Go result `(value, error)`, as a sum, with its bind.
use mathlib.Core.Path.{◌≡◌, refl}

-- One of the two is there: the error or the value.
pub data Result {ℓ} (E V : Type ℓ) : Type ℓ where
  err : E → Result E V
  ok : V → Result E V

module _ {ℓ} {E V W : Type ℓ} where
  infixl 5 ◌>>=◌
  -- `if err != nil { return err }`, and on with the value.
  abbrev pub ◌>>=◌ : Result E V → (V → Result E W) → Result E W
  err failure >>= next = err failure
  ok value >>= next = next value

  -- A value at the end of two steps comes from a value of the first one.
  pub first_value :
      (first : Result E V) (next : V → Result E W) {end : W}
      → (first >>= next) ≡ ok end
      → (value : V) × (first ≡ ok value) × (next value ≡ ok end)
  first_value (err failure) next reached = cc
  first_value (ok value) next reached = (value, refl, reached)

-- A property of an `elim` on a result, from its two cases.
pub Result-split {ℓ κ μ} :
    {E A : Type ℓ} {X : Type κ} (P : X → Type μ) (m : Result E A) (g : A → X) (h : E → X)
    → ((a : A) → m ≡ ok a → P (g a))
    → ((e : E) → m ≡ err e → P (h e))
    → P (elim m [ ok a ↦ g a | err e ↦ h e ])
Result-split P (ok a) g h hg hh = hg a refl
Result-split P (err e) g h hg hh = hh e refl
