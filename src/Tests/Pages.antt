-- ===== src/Tests/Pages.antt =====
-- The pages of a window, and of a feed without an end.
use s3pgstore.Base.{◌≡◌, refl, false, [], ◌∷◌, arith, ℕ}
use s3pgstore.Base.Int.{pos}
use s3pgstore.Poll.Pages.{View, finished, poll_iter, tail_iter}
use s3pgstore.Poll.Pages.Dense.{Follow, IsRun, poll_iter-IsRun}
use s3pgstore.Poll.Pages.Calm.{poll_iter_finishes}
use s3pgstore.Poll.Pages.Tail.{files_of, tail_iter-Follow}
use s3pgstore.Tests.{toy_store}
use s3pgstore.Tests.Reads.{one_numbered, one_numbered-IsDense}

abbrev calm : View
calm = record {
  tables = one_numbered;
  query_fails = false;
  is_done = false;
  is_done_waiting = false;
}

poll_iter-IsRun_example :
    IsRun 1 3 (1 ∷ 1 ∷ []) (poll_iter (calm ∷ calm ∷ []) toy_store (pos 1) 1 3)
poll_iter-IsRun_example =
    poll_iter-IsRun (calm ∷ calm ∷ []) (1 ∷ 1 ∷ []) toy_store (pos 1) 1 3 (omega arith)
      (omega arith) (one_numbered-IsDense, (one_numbered-IsDense, tt))

poll_iter_finishes_example :
    (poll_iter (calm ∷ calm ∷ calm ∷ []) toy_store (pos 1) 1 3).1 ≡ finished
poll_iter_finishes_example =
    poll_iter_finishes (calm ∷ calm ∷ calm ∷ []) toy_store (pos 1) 1 3 1 (omega arith) (omega arith)
      (
        (refl, refl, one_numbered-IsDense),
        ((refl, refl, one_numbered-IsDense), ((refl, refl, one_numbered-IsDense), tt)),
      )
      (omega arith)

tail_iter-Follow_example :
    (n : ℕ) × Follow 1 n
      (files_of (tail_iter (calm ∷ calm ∷ []) toy_store (pos 1) (pos 5) (pos 9) 1).0)
tail_iter-Follow_example =
    tail_iter-Follow (calm ∷ calm ∷ []) (1 ∷ 1 ∷ []) toy_store (pos 1) (pos 5) (pos 9) 1
      (omega arith) (one_numbered-IsDense, (one_numbered-IsDense, tt))
