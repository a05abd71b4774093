-- ===== src/Pipeline/Rounds.antt =====
-- read.go: the round-robin of the decode workers, and the order in which the emit loop meets them.
use s3pgstore.Base.{
  ℕ, zero, suc, ◌+◌, ◌-◌, ◌%◌, ◌≤◌, ◌<◌, ◌≡◌, ◌≢◌, refl, sym, ap, ◌∙◌, List, [], ◌∷◌, ◌++◌, arith,
  if◌then◌else◌, ◌==◌, ltb, ltb→lt, Bool-cases, inl, inr,
}
use native.Mathlib.Nat.{mod-add-mod, mod-lt, mod-eq_of_lt, add-mod_right}

-- The first partition of the worker `w` that the emit loop has not taken, when it waits for `e`.
unfoldable pub turn : ℕ → ℕ → ℕ → ℕ
turn workers zero w = w
turn workers (suc e) w = let t = turn workers e w in if t == e then e + workers else t

pub turn_bounds :
    (n e w : ℕ) → w < n → (e ≤ turn n e w) × (turn n e w < e + n) × (turn n e w % n ≡ w)
unfolding turn
turn_bounds n zero w h = (omega arith, omega arith, mod-eq_of_lt h)
turn_bounds n (suc e) w h =
    let (low, high, same) = turn_bounds n e w h in
    elim (Bool-cases (turn n e w == e)) [
      | inl met ↦
          let at : turn n e w ≡ e = ground (arith, met) in
          rw met
            (omega arith, omega (arith, h), add-mod_right e n ∙ sym (ap (λ t. t % n) at) ∙ same)
      | inr later ↦ rw later (ground (arith, low, later), omega (arith, high), same)
    ]

-- A residue and a distance below `n` that give the residue again: the distance is 0.
same_residue : (n r d : ℕ) → r < n → d < n → (r + d) % n ≡ r → d ≡ 0
same_residue n r d small less same = elim (Bool-cases (ltb (r + d) n)) [
  | inl inside ↦
      let plain : (r + d) % n ≡ r + d = mod-eq_of_lt (ltb→lt (r + d) n inside) in
      omega (arith, plain, same)
  | inr outside ↦
      let over : (r + d - n + n) % n ≡ (r + d - n) % n = add-mod_right (r + d - n) n in
      let back : r + d - n + n ≡ r + d = ground (arith, outside) in
      let plain : (r + d - n) % n ≡ r + d - n = mod-eq_of_lt (omega (arith, small, less)) in
      let whole : (r + d) % n ≡ (r + d - n) % n = ap (λ x. x % n) (sym back) ∙ over in
      absurd (ground (arith, whole, plain, same, outside, small, less))
]

-- Two numbers of one residue less than `n` apart are the same.
pub mod-injective : (n a b : ℕ) → a ≤ b → b < a + n → a % n ≡ b % n → a ≡ b
mod-injective n a b le lt same =
    let shifted : (a % n + (b - a)) % n ≡ (a + (b - a)) % n = mod-add-mod a n (b - a) in
    let back : (a + (b - a)) % n ≡ b % n = ap (λ x. x % n) (omega (arith, le)) in
    let none_apart : b - a ≡ 0 =
      same_residue n (a % n) (b - a) (mod-lt a (omega (arith, le, lt))) (omega (arith, le, lt))
        (shifted ∙ back ∙ sym same) in
    omega (arith, none_apart, le)

-- When the emit loop waits for a partition, it waits at the worker whose turn it is.
pub turn_of_next : (n e : ℕ) → 0 < n → turn n e (e % n) ≡ e
turn_of_next n e h =
    let (low, high, same) = turn_bounds n e (e % n) (mod-lt e h) in
    sym (mod-injective n e (turn n e (e % n)) low high (sym same))

-- The worker whose turn it was is met again a round later, and every other one when it was to be.
pub turn_met : (n e : ℕ) → 0 < n → turn n (suc e) (e % n) ≡ e + n
unfolding turn
turn_met n e h = ground (arith, turn_of_next n e h)

pub turn_other : (n e w : ℕ) → w < n → w ≢ e % n → turn n (suc e) w ≡ turn n e w
unfolding turn
turn_other n e w h differs = elim (Bool-cases (turn n e w == e)) [
  | inl met ↦
      let (low, high, same) = turn_bounds n e w h in
      let at : turn n e w ≡ e = ground (arith, met) in
      absurd (differs (sym same ∙ ap (λ t. t % n) at))
  | inr later ↦ rw later refl
]

-- The numbers of a list, one step of `n` apart, from one number up to another.
abbrev pub Chain : ℕ → ℕ → List ℕ → ℕ → Type 0
Chain n a [] b = a ≡ b
Chain n a (p ∷ ps) b = (p ≡ a) × Chain n (a + n) ps b

pub Chain-append : (n a b : ℕ) (ps : List ℕ) → Chain n a ps b → Chain n a (ps ++ (b ∷ [])) (b + n)
Chain-append n a b [] h = (sym h, ap (λ c. c + n) h)
Chain-append n a b (p ∷ ps) (e, h) = (e, Chain-append n (a + n) b ps h)

pub Chain-le : (n a b : ℕ) (ps : List ℕ) → Chain n a ps b → a ≤ b
Chain-le n a b [] h = omega (arith, h)
Chain-le n a b (p ∷ ps) (e, h) = omega (arith, Chain-le n (a + n) b ps h)
