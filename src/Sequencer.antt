-- ===== src/Sequencer.antt =====
-- sequencer/sequencer.go: the process that numbers committed rows for the feed.
pub mod Drain
pub mod Feed
use s3pgstore.Base.{
  ℕ, zero, suc, ◌+◌, Bool, true, false, ◌&&◌, ◌||◌, not, Option, none, some, List, [], ◌∷◌, ◌++◌,
  if◌then◌else◌, ltb, Bytes, codes, length, Result, ok, err, ◌>>=◌,
}
use s3pgstore.Base.Int.{ℤ, pos, negsuc, int_ltb}
use s3pgstore.Base.Defaults.{or_default, positive_or}
use s3pgstore.Catalog.Tables.{Tables}
use s3pgstore.Catalog.Feed.{assign_feed_seq}

-- Durations in nanoseconds; `has_pool` is false for a nil pool.
pub record Config : Type 0 where
  pub has_pool : Bool
  pub schema_name : Bytes
  pub table_prefix : Bytes
  pub poll_interval : ℤ
  pub batch_size : ℤ
  pub notify_channel : Bytes

abbrev pub default_poll_interval : ℕ
default_poll_interval = 1000000000

abbrev pub default_batch_size : ℕ
default_batch_size = 1000

abbrev pub max_notify_channel_len : ℕ
max_notify_channel_len = 63

-- What `resolved` fills in; the two numbers are positive.
pub record Resolved : Type 0 where
  pub schema_name : Bytes
  pub table_prefix : Bytes
  pub poll_interval : ℕ
  pub batch_size : ℕ
  pub notify_channel : Bytes

unfoldable pub resolved : Config → Resolved
resolved c = record {
  schema_name = or_default c.schema_name (codes "public");
  table_prefix = or_default c.table_prefix (codes "s3pgstore_");
  poll_interval = positive_or c.poll_interval default_poll_interval;
  batch_size = positive_or c.batch_size default_batch_size;
  notify_channel = or_default c.notify_channel (codes "s3pgstore_writes");
}

-- How the transaction of one assignment ends: a statement or the commit fails and nothing is kept,
-- or the commit is kept though it is reported as failed.
pub data TxOutcome : Type 0 where
  committed rolled_back committed_unseen : TxOutcome

pub data SequencerError : Type 0 where
  pool_required channel_too_long negative_batch metrics_failed tx_failed : SequencerError

unfoldable pub validate : Config → Result SequencerError (Unit {0})
validate c =
    if not c.has_pool
    then err pool_required
    else if ltb max_notify_channel_len (length c.notify_channel)
    then err channel_too_long
    else if int_ltb c.batch_size (pos 0)
    then err negative_batch
    else ok tt

-- runOnceWithMetrics: one assignment under the advisory lock, in one transaction.
unfoldable pub run_once_with_metrics : TxOutcome → ℕ → ℕ → Tables → Result SequencerError ℕ × Tables
run_once_with_metrics committed now batch t =
    let (n, t') = assign_feed_seq batch now t in (ok n, t')
run_once_with_metrics rolled_back now batch t = (err tx_failed, t)
run_once_with_metrics committed_unseen now batch t =
    let (n, t') = assign_feed_seq batch now t in (err tx_failed, t')

run_checked :
    Result SequencerError Unit → TxOutcome → ℕ → Config → Tables → Result SequencerError ℕ × Tables
unfolding run_once_with_metrics resolved
run_checked (err e) outcome now c t = (err e, t)
run_checked (ok _) outcome now c t = run_once_with_metrics outcome now (resolved c).batch_size t

-- RunOnce; the registration of its metrics is taken to succeed.
unfoldable pub run_once : TxOutcome → ℕ → Config → Tables → Result SequencerError ℕ × Tables
unfolding run_checked validate
run_once outcome now c t = run_checked (validate c) outcome now c t

-- What happens around each call in a drain: how its transaction ends, when, and what the writers
-- commit before it.
pub record Round : Type 0 where
  pub outcome : TxOutcome
  pub now : ℕ
  pub others : Tables → Tables

drain_next :
    Result SequencerError ℕ
    → ℕ
    → Tables
    → Option (Result SequencerError Unit) × Tables
    → Option (Result SequencerError Unit) × Tables
drain_next (err e) batch t rest = (some (err e), t)
drain_next (ok n) batch t rest = if ltb n batch then (some (ok tt), t) else rest

-- drainAll: calls until one assigns fewer rows than a batch. The list holds a round for each call;
-- `none` means that it was too short.
unfoldable pub drain_all : List Round → ℕ → Tables → Option (Result SequencerError Unit) × Tables
unfolding run_once_with_metrics drain_next
drain_all [] batch t = (none, t)
drain_all (r ∷ rounds) batch t =
    let (result, t') = run_once_with_metrics r.outcome r.now batch (r.others t) in
    let rest = drain_all rounds batch t' in drain_next result batch t' rest
