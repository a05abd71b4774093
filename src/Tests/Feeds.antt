-- ===== src/Tests/Feeds.antt =====
-- The sequencer over a table with one new row.
use s3pgstore.Base.{◌≡◌, refl, true, some, [], ◌∷◌, arith, ok, count_if}
use s3pgstore.Base.Int.{pos}
use s3pgstore.Catalog.Tables.{Tables, no_tables}
use s3pgstore.Catalog.Feed.{unsequenced}
use s3pgstore.Sequencer.{Config, committed, committed_unseen, Round, run_once, drain_all}
use s3pgstore.Sequencer.Feed.{Feeds, Extends, run_once-Extends}
use s3pgstore.Sequencer.Drain.{drain_all_total, drain_all-Extends}
use s3pgstore.Tests.{new_row}

abbrev one_new : Tables
one_new = record no_tables { files = new_row ∷ []; next_file_id = 2 }

abbrev quiet_round : Round
quiet_round = record { outcome = committed; now = 9; others = λ t. t }

abbrev unseen_round : Round
unseen_round = record { outcome = committed_unseen; now = 9; others = λ t. t }

abbrev default_config : Config
default_config = record {
  has_pool = true;
  schema_name = [];
  table_prefix = [];
  poll_interval = pos 0;
  batch_size = pos 0;
  notify_channel = [];
}

one_new-Feeds : Feeds 0 one_new
one_new-Feeds = ((λ id. ground arith), (λ q. ground arith))

drain_all_total_example :
    ((drain_all (quiet_round ∷ quiet_round ∷ []) 1 one_new).0 ≡ some (ok tt))
    × (count_if unsequenced (drain_all (quiet_round ∷ quiet_round ∷ []) 1 one_new).1.files ≡ 0)
drain_all_total_example =
    drain_all_total (quiet_round ∷ quiet_round ∷ []) 1 0 one_new (omega arith)
      ((refl, (λ t. refl)), ((refl, (λ t. refl)), tt)) one_new-Feeds (omega arith)

drain_all-Extends_example : Extends 0 one_new (drain_all (unseen_round ∷ []) 1 one_new).1
drain_all-Extends_example =
    drain_all-Extends (unseen_round ∷ []) 1 0 one_new
      ((λ top t h. (top, omega arith, h, (λ id q. omega arith))), tt) one_new-Feeds

run_once-Extends_example : Extends 0 one_new (run_once committed_unseen 9 default_config one_new).1
run_once-Extends_example =
    run_once-Extends committed_unseen 9 default_config 0 one_new one_new-Feeds
