-- ===== src/Budget/Bounds.antt =====
-- iter_pipeline_shared.go: what a worker holds, and the bell that it cannot miss, through every step.
use s3pgstore.Base.{
  ℕ, ◌+◌, ◌≡◌, ◌⊎◌, refl, sym, ◌∙◌, subst, inl, inr, Bool, true, false, ◌||◌, ◌&&◌, List, [], ◌∷◌,
  arith, ltb, leb, Bool-cases, if-split, Option-split,
}
use s3pgstore.Budget.{
  Worker, idle, checking, parked, decoding, Budget, new_budget, fits, Action, ask, test, wake,
  cancel, send, drop, free, ring, ask_step, test_step, wake_step, cancel_step, send_step, drop_step,
  free_step, ring_step, step, run,
}
use s3pgstore.Budget.Parts.{
  sum, sized, in_hand, AreHeld, IsAwake, IsHeld, IsOpen, IsBalanced, OrNone, OrNone-both,
  OrNone-weaken, sum-append, sized-append, sized_of_sum, sum_of_sized, rung-IsAwake,
}

module _ (b : Budget) where
  -- What holds of the budget, with its list, worker and flags apart.
  abbrev Held : List ℕ → Worker → Bool → Type 0
  Held sent w rings = AreHeld b.cap b.reserved b.given_back sent w rings

  ask-IsHeld :
      (u : ℕ) (w : Worker)
      → Held b.sent w (b.bell || b.is_releasing)
      → OrNone IsHeld (ask_step b u w)
  unfolding ask_step sum sized
  ask-IsHeld u (checking v) h = tt
  ask-IsHeld u (parked v) h = tt
  ask-IsHeld u (decoding v) h = tt
  ask-IsHeld u idle (capped, sums, bounded, awake) = elim (Bool-cases (ltb 0 u)) [
    | inl size ↦
        let on : (ltb 0 b.cap && ltb 0 u) ≡ true = ground (arith, size, capped) in
        rw on (capped, sums, bounded, ground (arith, size))
    | inr none_asked ↦
        let off : (ltb 0 b.cap && ltb 0 u) ≡ false = ground (arith, none_asked, capped) in
        rw off (capped, ground (arith, none_asked, sums), ground (arith, none_asked, bounded), tt)
  ]

  test-IsHeld :
      (w : Worker) → Held b.sent w (b.bell || b.is_releasing) → OrNone IsHeld (test_step b w)
  unfolding test_step sum sized fits
  test-IsHeld idle h = tt
  test-IsHeld (parked u) h = tt
  test-IsHeld (decoding u) h = tt
  test-IsHeld (checking u) (capped, sums, bounded, awake) =
      if-split (OrNone IsHeld)
        (leb b.reserved b.given_back || leb (b.reserved + u) (b.given_back + b.cap)) _ _
        (λ e. (
          capped,
          omega (arith, sums),
          elim (Bool-cases (leb (b.reserved + u) (b.given_back + b.cap))) [
            | inl small ↦ inl (ground (arith, small))
            | inr big ↦ inr (ground (arith, awake, sums, e, big, sized_of_sum b.sent))
          ],
          tt,
        ))
        (λ e. (capped, sums, bounded, (awake, (λ f. ground (arith, e, f)))))

  wake-IsHeld :
      (w : Worker) (bell : Bool)
      → Held b.sent w (b.bell || b.is_releasing)
      → OrNone IsHeld (wake_step b w bell)
  unfolding wake_step sum sized
  wake-IsHeld idle bell h = tt
  wake-IsHeld (checking u) bell h = tt
  wake-IsHeld (decoding u) bell h = tt
  wake-IsHeld (parked u) false h = tt
  wake-IsHeld (parked u) true (capped, sums, bounded, (size, awake)) = (capped, sums, bounded, size)

  cancel-IsHeld :
      (w : Worker) → Held b.sent w (b.bell || b.is_releasing) → OrNone IsHeld (cancel_step b w)
  unfolding cancel_step sum sized
  cancel-IsHeld idle h = tt
  cancel-IsHeld (checking u) (capped, sums, bounded, awake) = (capped, sums, bounded, tt)
  cancel-IsHeld (parked u) (capped, sums, bounded, awake) = (capped, sums, bounded, tt)
  cancel-IsHeld (decoding u) h = tt

  send-IsHeld :
      (w : Worker) → Held b.sent w (b.bell || b.is_releasing) → OrNone IsHeld (send_step b w)
  unfolding send_step sum sized
  send-IsHeld idle h = tt
  send-IsHeld (checking u) h = tt
  send-IsHeld (parked u) h = tt
  send-IsHeld (decoding u) (capped, sums, bounded, _) = (
    capped,
    omega (arith, sums, sum-append b.sent (u ∷ [])),
    ground (arith, bounded, sized-append b.sent (u ∷ [])),
    tt,
  )

  drop-IsHeld :
      (w : Worker) → Held b.sent w (b.bell || b.is_releasing) → OrNone IsHeld (drop_step b w)
  unfolding drop_step sum sized
  drop-IsHeld idle h = tt
  drop-IsHeld (checking u) h = tt
  drop-IsHeld (parked u) h = tt
  drop-IsHeld (decoding u) (capped, sums, bounded, _) =
      if-split (OrNone IsHeld) (ltb 0 u) _ _
        (λ e.
          (capped, omega (arith, sums), ground (arith, e, bounded, sums, sum_of_sized b.sent), tt))
        (λ e. (capped, ground (arith, e, sums), ground (arith, e, bounded), tt))

  free-IsHeld :
      (sent : List ℕ) (is_releasing : Bool)
      → Held sent b.worker (b.bell || is_releasing)
      → b.is_releasing ≡ is_releasing
      → OrNone IsHeld (free_step b sent is_releasing)
  unfolding free_step
  free-IsHeld [] is_releasing h same = tt
  free-IsHeld (u ∷ sent) true h same = tt
  free-IsHeld (u ∷ sent) false (capped, sums, bounded, awake) same =
      if-split (OrNone IsHeld) (ltb 0 u) _ _
        (λ e. (
          capped,
          unfold sum in omega (arith, sums),
          unfold sum sized in
              ground (arith, e, bounded, sums, sum_of_sized sent, sum_of_sized (in_hand b.worker)),
          rung-IsAwake b.cap b.reserved b.given_back _ b.worker _ (b.bell || true) (ground arith)
              awake,
        ))
        (λ e. (
          capped,
          unfold sum in ground (arith, e, sums),
          unfold sized in ground (arith, e, bounded),
          subst (λ r. IsAwake b.cap b.reserved b.given_back b.worker (b.bell || r)) (sym same)
              awake,
        ))

  ring-IsHeld : (is_releasing : Bool) → IsHeld b → OrNone IsHeld (ring_step b is_releasing)
  unfolding ring_step
  ring-IsHeld false h = tt
  ring-IsHeld true (capped, sums, bounded, awake) = (
    capped,
    sums,
    bounded,
    rung-IsAwake b.cap b.reserved b.given_back b.given_back b.worker _ true refl awake,
  )

step-IsHeld : (a : Action) (b : Budget) → IsHeld b → OrNone IsHeld (step a b)
unfolding step
step-IsHeld (ask u) b h = ask-IsHeld b u b.worker h
step-IsHeld test b h = test-IsHeld b b.worker h
step-IsHeld wake b h = wake-IsHeld b b.worker b.bell h
step-IsHeld cancel b h = cancel-IsHeld b b.worker h
step-IsHeld send b h = send-IsHeld b b.worker h
step-IsHeld drop b h = drop-IsHeld b b.worker h
step-IsHeld free b h = free-IsHeld b b.sent b.is_releasing h refl
step-IsHeld ring b h = ring-IsHeld b b.is_releasing h

step-IsOpen :
    (a : Action) (b : Budget) (w : Worker) (sent : List ℕ) (bell is_releasing : Bool)
    → IsOpen (record b { worker = w; sent = sent; bell = bell; is_releasing = is_releasing })
    → OrNone IsOpen
        (step a (record b { worker = w; sent = sent; bell = bell; is_releasing = is_releasing }))
unfolding step ask_step test_step wake_step cancel_step send_step drop_step free_step ring_step
step-IsOpen (ask u) b idle sent bell is_releasing (uncapped, none_added, still) =
    (uncapped, none_added, rw uncapped (λ e. e))
step-IsOpen (ask u) b (checking v) sent bell is_releasing h = tt
step-IsOpen (ask u) b (parked v) sent bell is_releasing h = tt
step-IsOpen (ask u) b (decoding v) sent bell is_releasing h = tt
step-IsOpen test b idle sent bell is_releasing h = tt
step-IsOpen test b (checking v) sent bell is_releasing h = absurd (h.2 tt)
step-IsOpen test b (parked v) sent bell is_releasing h = tt
step-IsOpen test b (decoding v) sent bell is_releasing h = tt
step-IsOpen wake b idle sent bell is_releasing h = tt
step-IsOpen wake b (checking v) sent bell is_releasing h = tt
step-IsOpen wake b (parked v) sent bell is_releasing h = absurd (h.2 tt)
step-IsOpen wake b (decoding v) sent bell is_releasing h = tt
step-IsOpen cancel b idle sent bell is_releasing h = tt
step-IsOpen cancel b (checking v) sent bell is_releasing h = absurd (h.2 tt)
step-IsOpen cancel b (parked v) sent bell is_releasing h = absurd (h.2 tt)
step-IsOpen cancel b (decoding v) sent bell is_releasing h = tt
step-IsOpen send b idle sent bell is_releasing h = tt
step-IsOpen send b (checking v) sent bell is_releasing h = tt
step-IsOpen send b (parked v) sent bell is_releasing h = tt
step-IsOpen send b (decoding v) sent bell is_releasing (uncapped, none_added, still) =
    (uncapped, none_added, (λ e. e))
step-IsOpen drop b idle sent bell is_releasing h = tt
step-IsOpen drop b (checking v) sent bell is_releasing h = tt
step-IsOpen drop b (parked v) sent bell is_releasing h = tt
step-IsOpen drop b (decoding v) sent bell is_releasing (uncapped, none_added, still) =
    if-split (OrNone IsOpen) (ltb 0 v) _ _ (λ _. (uncapped, none_added, (λ e. e)))
      (λ _. (uncapped, none_added, (λ e. e)))
step-IsOpen free b w [] bell is_releasing h = tt
step-IsOpen free b w (u ∷ sent) bell true h = tt
step-IsOpen free b w (u ∷ sent) bell false (uncapped, none_added, still) =
    if-split (OrNone IsOpen) (ltb 0 u) _ _ (λ _. (uncapped, none_added, still))
      (λ _. (uncapped, none_added, still))
step-IsOpen ring b w sent bell false h = tt
step-IsOpen ring b w sent bell true h = h

-- No step changes the cap.
step-cap :
    (a : Action) (b : Budget) (w : Worker) (sent : List ℕ) (bell is_releasing : Bool)
    → OrNone
        (λ c. c.cap ≡ b.cap)
        (step a (record b { worker = w; sent = sent; bell = bell; is_releasing = is_releasing }))
unfolding step ask_step test_step wake_step cancel_step send_step drop_step free_step ring_step
step-cap (ask u) b w sent bell is_releasing = ground arith
step-cap test b w sent bell is_releasing = ground arith
step-cap wake b w sent bell is_releasing = ground arith
step-cap cancel b w sent bell is_releasing = ground arith
step-cap send b w sent bell is_releasing = ground arith
step-cap drop b w sent bell is_releasing = ground arith
step-cap free b w sent bell is_releasing = ground arith
step-cap ring b w sent bell is_releasing = ground arith

step-IsBalanced :
    (a : Action) (cap : ℕ) (b : Budget) → IsBalanced cap b → OrNone (IsBalanced cap) (step a b)
step-IsBalanced a cap b (same, h) =
    OrNone-both (λ c. c.cap ≡ cap) (λ c. IsHeld c ⊎ IsOpen c) (step a b)
      (OrNone-weaken (λ c e. e ∙ same) (step a b)
        (step-cap a b b.worker b.sent b.bell b.is_releasing))
      (elim h [
        | inl held ↦ OrNone-weaken (λ c. inl) (step a b) (step-IsHeld a b held)
        | inr uncapped ↦
            OrNone-weaken (λ c. inr) (step a b)
              (step-IsOpen a b b.worker b.sent b.bell b.is_releasing uncapped)
      ])

pub run_on-IsBalanced :
    (actions : List Action) (cap : ℕ) (b : Budget)
    → IsBalanced cap b
    → OrNone (IsBalanced cap) (run actions b)
unfolding run
run_on-IsBalanced [] cap b h = h
run_on-IsBalanced (a ∷ actions) cap b h =
    Option-split (OrNone (IsBalanced cap)) (step a b) _ _ (λ _. tt)
      (λ c e.
        run_on-IsBalanced actions cap c
          (subst (OrNone (IsBalanced cap)) e (step-IsBalanced a cap b h)))

-- After every sequence of steps of the worker and the emit loop the cap is the one given. With a
-- cap: the accounted bytes are the sum of the units held by the worker, in its queue or handed out,
-- they exceed the cap only where one unit with a size is held, and a parked worker whose unit fits
-- has a token in its bell, or the emit loop is about to put one there. With no cap: nothing is ever
-- reserved, and no worker waits.
pub run-IsBalanced :
    (actions : List Action) (cap : ℕ) → OrNone (IsBalanced cap) (run actions (new_budget cap))
run-IsBalanced actions cap = run_on-IsBalanced actions cap (new_budget cap) (
  refl,
  elim (Bool-cases (ltb 0 cap)) [
    | inl capped ↦ inl (ground (arith, capped), unfold sum in omega arith, inl (omega arith), tt)
    | inr uncapped ↦ inr (ground (arith, uncapped), refl, (λ e. e))
  ],
)
