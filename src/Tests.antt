-- ===== src/Tests.antt =====
-- Runs of the definitions on concrete data, and the theorems applied to them.
mod Writes
mod Collector
mod Feeds
mod Reads
mod Texts
mod Pages
mod Configs
mod Rebuilds
mod Clauses
mod Batches
mod Budgets
mod Fans
mod Retries
mod Pipelines
mod Lookups
mod Schemas
mod Pools
use s3pgstore.Base.{ℕ, Bool, true, false, Option, some, none, List, [], ◌∷◌, Bytes, codes}
use s3pgstore.Metadata.Values.{Meta, ExtensionColumn}
use s3pgstore.Metadata.Format.{Codec}
use s3pgstore.Catalog.Tables.{Tables, FileRow, no_tables}
use s3pgstore.Sequencer.{committed}
use s3pgstore.Store.{Store, World}
use s3pgstore.Write.Tx.{TxFaults, PutOutcome, put_ok}
use s3pgstore.Write.{Options, Faults}

abbrev pub toy_codec : Codec
toy_codec = record {
  uuid_string = λ u. u;
  uuid_parses = λ u. true;
  format_time = λ t. t ∷ [];
  parse_time = λ s. elim s [ [] ↦ none | c ∷ r ↦ some c ];
  format_float32 = λ f. codes "1.5";
  format_float64 = λ f. codes "2.5";
}

abbrev pub toy_exts : List ExtensionColumn
toy_exts = record { name = codes "n"; type = codes "bigint" } ∷ []

abbrev pub toy_store : Store
toy_store = record {
  parts = codes "day" ∷ [];
  exts = toy_exts;
  s3_prefix = codes "p";
  notify_channel = codes "w";
  codec = toy_codec;
}

abbrev pub empty_world : World
empty_world = record { tables = no_tables; objects = []; delivered = [] }

abbrev pub put_faults : PutOutcome → TxFaults
put_faults put = record {
  begin_fails = false;
  upsert_fails = false;
  insert_fails = false;
  put = put;
  delete_fails = false;
  views_fail = false;
  notify_fails = false;
  commit = committed;
  now = 7;
}

abbrev pub quiet_faults : PutOutcome → Faults ℕ
quiet_faults put = record {
  lookup_fails = false;
  view_rows = λ records. some [];
  encode = λ records. some (1 ∷ 2 ∷ [], 5);
  uuid = some (codes "u");
  pending_fails = false;
  pending_unseen = false;
  pending_at = 6;
  before_tx = λ w. w;
  tx = put_faults put;
  cleanup_fails = false;
  after_tx = λ w. w;
  relookup_fails = false;
}

abbrev pub toy_options : Bytes → Options ℕ
toy_options token = record {
  idempotency_token = some token;
  token_of = none;
  expected_version = none;
  metadata = [];
}

abbrev pub new_row : FileRow
new_row = record {
  file_id = 1;
  s3_key = codes "k";
  partition_key = codes "day=1";
  part_values = codes "1" ∷ [];
  file_size = 2;
  uncompressed_size = 5;
  record_count = 1;
  written_at_version = 1;
  written_at = 7;
  idempotency_token = none;
  feed_seq = none;
  feed_seq_at = none;
  ext_values = none ∷ [];
}
