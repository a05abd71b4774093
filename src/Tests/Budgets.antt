-- ===== src/Tests/Budgets.antt =====
-- A worker with a cap of 10 that waits for a second unit.
use s3pgstore.Base.{◌≡◌, ◌≤◌, refl, true, false, some, List, [], ◌∷◌, length}
use s3pgstore.Budget.{
  Budget, parked, checking, new_budget, Action, ask, test, wake, send, free, ring, run,
}
use s3pgstore.Budget.Parts.{OrNone, IsBalanced}
use s3pgstore.Budget.Bounds.{run-IsBalanced}
use s3pgstore.Budget.Progress.{moves_left, CanMove, reserve_ends}

abbrev two_units : List Action
two_units = ask 6 ∷ test ∷ send ∷ ask 7 ∷ test ∷ []

abbrev waiting : Budget
waiting = record {
  cap = 10;
  reserved = 6;
  given_back = 0;
  sent = 6 ∷ [];
  worker = parked 7;
  bell = false;
  is_releasing = false;
}

abbrev released : Budget
released = record waiting { given_back = 6; sent = []; worker = checking 7 }

run-two_units : run two_units (new_budget 10) ≡ some waiting
unfolding run
run-two_units = refl

run-release : run (free ∷ ring ∷ wake ∷ []) waiting ≡ some released
unfolding run
run-release = refl

-- With no cap, the releases make bufferedBytes negative.
run-uncapped :
    run (ask 6 ∷ send ∷ free ∷ ring ∷ []) (new_budget 0)
    ≡ some (record (new_budget 0) { given_back = 6; bell = true })
unfolding run
run-uncapped = refl

run-IsBalanced_example : OrNone (IsBalanced 10) (run two_units (new_budget 10))
run-IsBalanced_example = run-IsBalanced two_units 10

reserve_ends_example : (length (free ∷ ring ∷ wake ∷ []) ≤ moves_left waiting) × CanMove released
reserve_ends_example =
    reserve_ends two_units (free ∷ ring ∷ wake ∷ []) 10 waiting released run-two_units
      (tt, (tt, (tt, tt))) run-release tt
