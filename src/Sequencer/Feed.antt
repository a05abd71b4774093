-- ===== src/Sequencer/Feed.antt =====
-- The feed as a call of RunOnce leaves it, whatever becomes of its transactions.
use s3pgstore.Base.{ℕ, ◌+◌, ◌≤◌, arith, Result, ok, err, count_if}
use s3pgstore.Catalog.Tables.{Tables}
use s3pgstore.Catalog.Feed.{assign_feed_seq}
use s3pgstore.Catalog.Feed.Stamps.{UniqueIds, IsDense, numbered_at}
use s3pgstore.Catalog.Feed.Dense.{assign-IsDense, assign-keeps}
use s3pgstore.Sequencer.{
  Config, TxOutcome, committed, rolled_back, committed_unseen, SequencerError, validate, resolved,
  run_once_with_metrics, run_checked, run_once,
}

-- Unique ids, and a feed that is dense up to `top`.
abbrev pub Feeds : ℕ → Tables → Type 0
Feeds top t = UniqueIds t.files × IsDense top t.files

-- A later state of the feed: its top has not fallen, and a numbered row keeps its number.
abbrev pub Extends : ℕ → Tables → Tables → Type 0
Extends top t t' =
    (top' : ℕ) × (top ≤ top')
    × Feeds top' t'
    × ((id q : ℕ) → count_if (numbered_at id q) t.files ≤ count_if (numbered_at id q) t'.files)

Extends-refl : (top : ℕ) (t : Tables) → Feeds top t → Extends top t t
Extends-refl top t h = (top, omega arith, h, (λ id q. omega arith))

Extends-assign :
    (batch now top : ℕ) (t : Tables) → Feeds top t → Extends top t (assign_feed_seq batch now t).1
Extends-assign batch now top t (unique, dense) =
    let (later, same) = assign-IsDense batch now top t unique dense in
    (
      top + (assign_feed_seq batch now t).0,
      omega arith,
      (same, later),
      (λ id q. assign-keeps batch now id q t unique),
    )

pub run_once_with_metrics-Extends :
    (outcome : TxOutcome) (now batch top : ℕ) (t : Tables)
    → Feeds top t
    → Extends top t (run_once_with_metrics outcome now batch t).1
unfolding run_once_with_metrics
run_once_with_metrics-Extends committed now batch top t h = Extends-assign batch now top t h
run_once_with_metrics-Extends rolled_back now batch top t h = Extends-refl top t h
run_once_with_metrics-Extends committed_unseen now batch top t h = Extends-assign batch now top t h

-- A call of RunOnce, whether its configuration is valid and however its transaction ends, leaves a
-- feed that is dense up to a top no lower than before, in which every row that had a number keeps it.
pub run_once-Extends :
    (outcome : TxOutcome) (now : ℕ) (c : Config) (top : ℕ) (t : Tables)
    → Feeds top t
    → Extends top t (run_once outcome now c t).1
unfolding run_once
run_once-Extends outcome now c top t h = checked (validate c)
  where
    checked :
        (v : Result SequencerError (Unit {0})) → Extends top t (run_checked v outcome now c t).1
    checked (err e) = unfold run_checked in Extends-refl top t h
    checked (ok _) =
        unfold run_checked in
        run_once_with_metrics-Extends outcome now (resolved c).batch_size top t h
