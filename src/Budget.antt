-- ===== src/Budget.antt =====
-- iter_pipeline_shared.go: workerState, the byte budget of a decode worker, as a machine with steps.
pub mod Parts
pub mod Bounds
pub mod Progress
use s3pgstore.Base.{
  ℕ, zero, suc, ◌+◌, Bool, true, false, ◌||◌, ◌&&◌, not, Option, none, some, List, [], ◌∷◌, ◌++◌,
  if◌then◌else◌, ltb, leb,
}

-- Where the worker is: between two units, before the test of reserveBytes, at its select, or
-- decoding a unit that it has reserved, or that is not accounted.
pub data Worker : Type 0 where
  idle : Worker
  checking parked decoding : ℕ → Worker

-- bufferedBytes is an int64 that may be negative: here it is `reserved`, all that was added to it,
-- less `given_back`, all that was subtracted. A `cap` that is not positive is 0. Then, the sizes
-- of the units that were sent and not released, the token of releaseSig, and whether the emit loop
-- stands between its subtraction and its send on releaseSig.
pub record Budget : Type 0 where
  pub cap : ℕ
  pub reserved : ℕ
  pub given_back : ℕ
  pub sent : List ℕ
  pub worker : Worker
  pub bell : Bool
  pub is_releasing : Bool

abbrev pub new_budget : ℕ → Budget
new_budget cap = record {
  cap = cap;
  reserved = 0;
  given_back = 0;
  sent = [];
  worker = idle;
  bell = false;
  is_releasing = false;
}

-- `ws.bufferedBytes <= 0 || ws.bufferedBytes+uncomp <= cap`
unfoldable pub fits : Budget → ℕ → Bool
fits b u = leb b.reserved b.given_back || leb (b.reserved + u) (b.given_back + b.cap)

-- What the worker and the emit loop do: `ask` calls reserveBytes, `test` is the critical section,
-- `wake` receives from releaseSig, `cancel` is the end of the context, `send` is sendBatch, `drop`
-- the release after a failed decode or send, `free` the subtraction of releaseBytes by the emit
-- loop, and `ring` its send on releaseSig.
pub data Action : Type 0 where
  ask : ℕ → Action
  test wake cancel send drop free ring : Action

-- With no cap, or for a size of 0, reserveBytes returns at once and accounts nothing.
unfoldable pub ask_step : Budget → ℕ → Worker → Option Budget
ask_step b u idle =
    some (record b { worker = if ltb 0 b.cap && ltb 0 u then checking u else decoding u })
ask_step b u _ = none

unfoldable pub test_step : Budget → Worker → Option Budget
unfolding fits
test_step b (checking u) =
    if fits b u
    then some (record b { reserved = b.reserved + u; worker = decoding u })
    else some (record b { worker = parked u })
test_step b _ = none

unfoldable pub wake_step : Budget → Worker → Bool → Option Budget
wake_step b (parked u) true = some (record b { worker = checking u; bell = false })
wake_step b _ _ = none

unfoldable pub cancel_step : Budget → Worker → Option Budget
cancel_step b (checking u) = some (record b { worker = idle })
cancel_step b (parked u) = some (record b { worker = idle })
cancel_step b _ = none

unfoldable pub send_step : Budget → Worker → Option Budget
send_step b (decoding u) = some (record b { sent = b.sent ++ (u ∷ []); worker = idle })
send_step b _ = none

-- The worker's own releaseBytes, before it ends: nobody waits for its bell. A size of 0 is not
-- released; with no cap the others are, though nothing was reserved.
unfoldable pub drop_step : Budget → Worker → Option Budget
drop_step b (decoding u) =
    if ltb 0 u
    then some (record b { given_back = b.given_back + u; worker = idle; bell = true })
    else some (record b { worker = idle })
drop_step b _ = none

unfoldable pub free_step : Budget → List ℕ → Bool → Option Budget
free_step b (u ∷ sent) false =
    if ltb 0 u
    then some (record b { given_back = b.given_back + u; sent = sent; is_releasing = true })
    else some (record b { sent = sent })
free_step b _ _ = none

unfoldable pub ring_step : Budget → Bool → Option Budget
ring_step b true = some (record b { bell = true; is_releasing = false })
ring_step b false = none

unfoldable pub step : Action → Budget → Option Budget
unfolding ask_step test_step wake_step cancel_step send_step drop_step free_step ring_step
step (ask u) b = ask_step b u b.worker
step test b = test_step b b.worker
step wake b = wake_step b b.worker b.bell
step cancel b = cancel_step b b.worker
step send b = send_step b b.worker
step drop b = drop_step b b.worker
step free b = free_step b b.sent b.is_releasing
step ring b = ring_step b b.is_releasing

-- The budget after a sequence of steps, if each of them can be made.
unfoldable pub run : List Action → Budget → Option Budget
unfolding step
run [] b = some b
run (a ∷ actions) b = elim (step a b) [ none ↦ none | some c ↦ run actions c ]
