-- ===== src/Budget/Progress.antt =====
-- iter_pipeline_shared.go: the wait of reserveBytes ends while the emit loop goes on.
use s3pgstore.Base.{
  ℕ, suc, ◌+◌, ◌*◌, ◌≤◌, ◌<◌, ◌≡◌, refl, subst, ◌⊎◌, inl, inr, Bool, true, false, ◌||◌, Option,
  some, List, [], ◌∷◌, arith, if◌then◌else◌, ltb, length, All, Option-split, if-split,
}
use s3pgstore.Budget.{
  Worker, idle, checking, parked, decoding, Budget, new_budget, fits, Action, ask, test, wake,
  cancel, send, drop, free, ring, test_step, wake_step, free_step, ring_step, step, run,
}
use s3pgstore.Budget.Parts.{sum, AreHeld, IsWaiting, IsBalanced, OrNone, OrNone-weaken}
use s3pgstore.Budget.Bounds.{run-IsBalanced, run_on-IsBalanced}

-- The moves that a wait consists of: those of the worker at its loop, and the releases.
abbrev pub IsMove : Action → Type 0
IsMove (ask u) = ⊥
IsMove test = Unit
IsMove wake = Unit
IsMove cancel = ⊥
IsMove send = ⊥
IsMove drop = ⊥
IsMove free = Unit
IsMove ring = Unit

abbrev pub is_checking : Worker → ℕ
is_checking (checking u) = 1
is_checking idle = 0
is_checking (parked u) = 0
is_checking (decoding u) = 0

-- A bound on the moves that are left.
unfoldable pub left : List ℕ → Bool → Bool → Worker → ℕ
left sent is_releasing bell w =
    6 * length sent + (if is_releasing then 4 else 0) + (if bell then 2 else 0) + is_checking w

abbrev pub moves_left : Budget → ℕ
moves_left b = left b.sent b.is_releasing b.bell b.worker

test-left :
    (b : Budget) (w : Worker)
    → OrNone (λ c. moves_left c < left b.sent b.is_releasing b.bell w) (test_step b w)
unfolding test_step left
test-left b idle = tt
test-left b (parked u) = tt
test-left b (decoding u) = tt
test-left b (checking u) =
    if-split (OrNone (λ c. moves_left c < left b.sent b.is_releasing b.bell (checking u)))
      (fits b u) _ _ (λ _. omega arith) (λ _. omega arith)

wake-left :
    (b : Budget) (w : Worker) (bell : Bool)
    → OrNone (λ c. moves_left c < left b.sent b.is_releasing bell w) (wake_step b w bell)
unfolding wake_step left
wake-left b idle bell = tt
wake-left b (checking u) bell = tt
wake-left b (decoding u) bell = tt
wake-left b (parked u) false = tt
wake-left b (parked u) true = omega arith

free-left :
    (b : Budget) (sent : List ℕ) (is_releasing : Bool)
    → b.is_releasing ≡ is_releasing
    → OrNone
        (λ c. moves_left c < left sent is_releasing b.bell b.worker)
        (free_step b sent is_releasing)
unfolding free_step left
free-left b [] is_releasing same = tt
free-left b (u ∷ sent) true same = tt
free-left b (u ∷ sent) false same =
    if-split (OrNone (λ c. moves_left c < left (u ∷ sent) false b.bell b.worker)) (ltb 0 u) _ _
      (λ _. omega arith) (λ _. ground (arith, same))

ring-left :
    (b : Budget) (is_releasing : Bool)
    → OrNone
        (λ c. moves_left c < left b.sent is_releasing b.bell b.worker)
        (ring_step b is_releasing)
unfolding ring_step left
ring-left b false = tt
ring-left b true = ground arith

step-left :
    (a : Action) (b : Budget) → IsMove a → OrNone (λ c. moves_left c < moves_left b) (step a b)
unfolding step
step-left (ask u) b m = absurd m
step-left test b m = test-left b b.worker
step-left wake b m = wake-left b b.worker b.bell
step-left cancel b m = absurd m
step-left send b m = absurd m
step-left drop b m = absurd m
step-left free b m = free-left b b.sent b.is_releasing refl
step-left ring b m = ring-left b b.is_releasing

run-left :
    (moves : List Action) (b : Budget)
    → All IsMove moves
    → OrNone (λ c. length moves + moves_left c ≤ moves_left b) (run moves b)
unfolding run
run-left [] b m = omega arith
run-left (a ∷ moves) b (m, ms) =
    Option-split (OrNone (λ c. suc (length moves) + moves_left c ≤ moves_left b)) (step a b) _ _
      (λ _. tt)
      (λ d e.
        let less = subst (OrNone (λ c. moves_left c < moves_left b)) e (step-left a b m) in
        OrNone-weaken (λ c h. omega (arith, h, less)) (run moves d) (run-left moves d ms))

-- A step can be made.
abbrev pub Goes : Option Budget → Type 0
Goes o = (c : Budget) × (o ≡ some c)

-- One of the moves can be made.
abbrev pub CanMove : Budget → Type 0
CanMove b = Goes (step test b) ⊎ (Goes (step wake b) ⊎ (Goes (step free b) ⊎ Goes (step ring b)))

abbrev MoveAt : Budget → Worker → Bool → List ℕ → Bool → Type 0
MoveAt b w bell sent is_releasing =
    Goes (test_step b w)
    ⊎ (Goes (wake_step b w bell)
        ⊎ (Goes (free_step b sent is_releasing) ⊎ Goes (ring_step b is_releasing)))

parked_moves :
    (b : Budget) (u : ℕ) (bell is_releasing : Bool) (sent : List ℕ)
    → AreHeld b.cap b.reserved b.given_back sent (parked u) (bell || is_releasing)
    → MoveAt b (parked u) bell sent is_releasing
unfolding wake_step free_step ring_step sum
parked_moves b u true is_releasing sent h = inr (inl (_, refl))
parked_moves b u false true sent h = inr (inr (inr (_, refl)))
parked_moves b u false false (v ∷ sent) h =
    inr (inr (inl (if-split Goes (ltb 0 v) _ _ (λ _. (_, refl)) (λ _. (_, refl)))))
parked_moves b u false false [] (capped, sums, bounded, (size, awake)) =
    let rung : false ≡ true = awake (ground (arith, sums)) in absurd cc

waiting_moves :
    (b : Budget) (w : Worker)
    → AreHeld b.cap b.reserved b.given_back b.sent w (b.bell || b.is_releasing)
    → IsWaiting w
    → MoveAt b w b.bell b.sent b.is_releasing
unfolding test_step
waiting_moves b idle h waits = absurd waits
waiting_moves b (decoding u) h waits = absurd waits
waiting_moves b (parked u) h waits = parked_moves b u b.bell b.is_releasing b.sent h
waiting_moves b (checking u) h waits =
    inl (if-split Goes (fits b u) _ _ (λ _. (_, refl)) (λ _. (_, refl)))

balanced_moves : (cap : ℕ) (b : Budget) → IsBalanced cap b → IsWaiting b.worker → CanMove b
unfolding step
balanced_moves cap b (_, inl h) waits = waiting_moves b b.worker h waits
balanced_moves cap b (_, inr h) waits = absurd (h.2 waits)

-- A wait of reserveBytes is short and does not block: from any state that the worker and the emit
-- loop reach, there are at most `moves_left` moves of the waiting worker and of the releases of the
-- emit loop, in any order; and while the worker still waits behind such moves, a further one can
-- be made.
pub reserve_ends :
    (actions moves : List Action) (cap : ℕ) (b c : Budget)
    → run actions (new_budget cap) ≡ some b
    → All IsMove moves
    → run moves b ≡ some c
    → IsWaiting c.worker
    → (length moves ≤ moves_left b) × CanMove c
reserve_ends actions moves cap b c reached m moved waits =
    let short =
      subst (OrNone (λ d. length moves + moves_left d ≤ moves_left b)) moved (run-left moves b m) in
    let start = subst (OrNone (IsBalanced cap)) reached (run-IsBalanced actions cap) in
    let balanced = subst (OrNone (IsBalanced cap)) moved (run_on-IsBalanced moves cap b start) in
    (omega (arith, short), balanced_moves cap c balanced waits)
