-- ===== src/Budget/Parts.antt =====
-- iter_pipeline_shared.go: what a worker and the emit loop hold of a byte budget.
use s3pgstore.Base.{
  ℕ, ◌+◌, ◌≤◌, ◌<◌, ◌≡◌, refl, ◌⊎◌, Bool, true, ◌||◌, Option, none, some, List, [], ◌∷◌, ◌++◌,
  arith, if◌then◌else◌, ltb, leb,
}
use s3pgstore.Budget.{Worker, idle, checking, parked, decoding, Budget}

unfoldable pub sum : List ℕ → ℕ
sum [] = 0
sum (u ∷ us) = u + sum us

-- The number of units with a size.
unfoldable pub sized : List ℕ → ℕ
sized [] = 0
sized (u ∷ us) = (if ltb 0 u then 1 else 0) + sized us

-- The units that the worker has reserved and not sent.
abbrev pub in_hand : Worker → List ℕ
in_hand (decoding u) = u ∷ []
in_hand idle = []
in_hand (checking u) = []
in_hand (parked u) = []

-- The unit that a waiting worker asks for has a size, and where a parked one's unit fits, the bell
-- has been rung, or is about to be.
abbrev pub IsAwake : ℕ → ℕ → ℕ → Worker → Bool → Type 0
IsAwake cap reserved given_back idle rings = Unit
IsAwake cap reserved given_back (checking u) rings = 0 < u
IsAwake cap reserved given_back (parked u) rings =
    (0 < u)
    × ((leb reserved given_back || leb (reserved + u) (given_back + cap)) ≡ true → rings ≡ true)
IsAwake cap reserved given_back (decoding u) rings = Unit

-- bufferedBytes is the sum of the units that are held, and it is above the cap only where one unit
-- with a size is held.
abbrev pub AreHeld : ℕ → ℕ → ℕ → List ℕ → Worker → Bool → Type 0
AreHeld cap reserved given_back sent w rings =
    (0 < cap)
    × (reserved ≡ given_back + (sum (in_hand w) + sum sent))
    × ((reserved ≤ given_back + cap) ⊎ (sized (in_hand w) + sized sent ≡ 1))
    × IsAwake cap reserved given_back w rings

abbrev pub IsWaiting : Worker → Type 0
IsWaiting idle = ⊥
IsWaiting (checking u) = Unit
IsWaiting (parked u) = Unit
IsWaiting (decoding u) = ⊥

abbrev pub IsHeld : Budget → Type 0
IsHeld b = AreHeld b.cap b.reserved b.given_back b.sent b.worker (b.bell || b.is_releasing)

-- Nothing is accounted, and no worker waits.
abbrev pub IsOpen : Budget → Type 0
IsOpen b = (b.cap ≡ 0) × (b.reserved ≡ 0) × (¬ IsWaiting b.worker)

-- The cap is the one that was given; what holds with one, and without one.
abbrev pub IsBalanced : ℕ → Budget → Type 0
IsBalanced cap b = (b.cap ≡ cap) × (IsHeld b ⊎ IsOpen b)

abbrev pub OrNone : (Budget → Type 0) → Option Budget → Type 0
OrNone P none = Unit
OrNone P (some b) = P b

pub OrNone-both :
    (P Q : Budget → Type 0) (o : Option Budget)
    → OrNone P o
    → OrNone Q o
    → OrNone (λ b. P b × Q b) o
OrNone-both P Q none p q = tt
OrNone-both P Q (some b) p q = (p, q)

pub OrNone-weaken :
    {P Q : Budget → Type 0}
    → ((c : Budget) → P c → Q c)
    → (o : Option Budget) → OrNone P o
    → OrNone Q o
OrNone-weaken f none h = tt
OrNone-weaken f (some c) h = f c h

pub sum-append : (us vs : List ℕ) → sum (us ++ vs) ≡ sum us + sum vs
unfolding sum
sum-append [] vs = omega arith
sum-append (u ∷ us) vs = omega (arith, sum-append us vs)

pub sized-append : (us vs : List ℕ) → sized (us ++ vs) ≡ sized us + sized vs
unfolding sized
sized-append [] vs = omega arith
sized-append (u ∷ us) vs = omega (arith, sized-append us vs)

-- No unit with a size is held where their sum is 0, and the other way round.
pub sized_of_sum : (us : List ℕ) → sum us ≤ 0 → sized us ≡ 0
unfolding sum sized
sized_of_sum [] e = refl
sized_of_sum (u ∷ us) e = ground (arith, e, sized_of_sum us)

pub sum_of_sized : (us : List ℕ) → sized us ≡ 0 → sum us ≡ 0
unfolding sum sized
sum_of_sized [] e = refl
sum_of_sized (u ∷ us) e = ground (arith, e, sum_of_sized us)

-- A worker whose bell rings is awake, whatever is held.
pub rung-IsAwake :
    (cap reserved before after : ℕ) (w : Worker) (was rings : Bool)
    → rings ≡ true
    → IsAwake cap reserved before w was
    → IsAwake cap reserved after w rings
rung-IsAwake cap reserved before after idle was rings e h = tt
rung-IsAwake cap reserved before after (checking u) was rings e h = h
rung-IsAwake cap reserved before after (parked u) was rings e (size, h) = (size, (λ _. e))
rung-IsAwake cap reserved before after (decoding u) was rings e h = tt
