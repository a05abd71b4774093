-- ===== src/Lib.antt =====
-- A model of s3pgstore: records are written as parquet objects to S3, one object for a partition
-- and a write, and a PostgreSQL catalog says which objects are committed files. The repository's
-- parts, and the files that model them:
--
-- * The catalog (internal/catalog/ddl.go, internal/catalog/sql.go): Catalog/Tables.antt has the
--   tables as lists of records, and each SQL statement is a function on them, one file for each
--   table: Partitions (PartitionUpsertSQL, PartitionUpdateOCCSQL), Files (FilesInsertSQL,
--   IdempotencyLookupSQL, FilesQuerySQL), Pending (the tracking rows), Views (MVInsertSQL) and Feed
--   (PollFilesSQL, OffsetLatestSQL, OffsetAtSQL and the sequencer's assignment).
-- * The write path (write.go, write_options.go, idempotency.go, executor.go, target.go): Write.antt
--   has the steps of writePartition and LookupByToken, Write/Tx.antt the transaction. A World of
--   Store.antt is the tables, the bucket and the delivered notifications. The order of the steps is
--   the code's: a tracking row in a transaction of its own, then the transaction that takes the
--   version, inserts the file row, puts the object, deletes the tracking row, inserts the views'
--   rows and notifies the sequencer. Every call can fail; a PUT and a commit can take effect and be
--   reported as failed. What other processes do in between is a function on worlds, an argument.
-- * Write (write.go) groups its records into one writePartition for each partition: Fanout.antt.
-- * The sequencer (sequencer/sequencer.go): Sequencer.antt has RunOnce and drainAll, with how each
--   transaction ends and what writers commit in between as arguments.
-- * The collector (gc/gc.go): Gc.antt has a pass of RunOnce over the orphans it scans.
-- * Extension metadata (metadata.go, metadata_s3.go) and what a rebuild reads from an object
--   (cmd/s3pgstore-rebuild/rebuild.go): Metadata and its child modules.
-- * The feed's readers (poll.go): Poll.antt has Poll, OffsetLatest, OffsetAt and the waits of the
--   tail loop, Poll/Pages.antt the loops of PollIter and TailIter.
-- * Snapshot reads (read.go, read_options.go): Read.antt has ResolveFileRefs, preparePartitions,
--   the defaults and bounds of the pipeline, and decodePartition; Read/Range.antt has
--   ResolveFileRefsInRange. Budget.antt is the byte budget that a decode worker shares with the
--   emit loop (iter_pipeline_shared.go), each critical section and each channel operation a step.
--   Pipeline.antt is readFetchAndDecodeIter: the fetcher, the downloads, the decode workers with
--   their queues and their byte budgets, and the emit loop, as a machine in which any of them may
--   step next. There a call of reserveBytes is one step, which waits until the bytes fit or the
--   buffer is empty; Budget/Progress.antt is about the bell by which the code waits. The wait of
--   Submit for a slot of the pool is part of the fetcher's step. Pipeline/Parts.antt is its
--   invariant, and Pipeline/Call.antt the machine that a call starts for its entries.
-- * Filters (filter.go): Filter.antt translates them to a WHERE clause with bound arguments, and
--   Filter/Meaning.antt is the clause that each stands for, in SQL's grammar.
-- * The retries of S3 calls (s3client/backoff.go): Jitter.antt has the delay before each.
-- * The configuration (config.go): Config.antt has validate and resolved, Config/Names.antt the
--   names that names.go and ddl.go make of it.
-- * The rebuild of the catalog from the bucket (cmd/s3pgstore-rebuild/rebuild.go): Listing.antt
--   lists and groups the keys, Rebuild.antt has the inserts and Rebuild.
-- * Materialized views (materialized_view.go): Views.antt makes a write's rows for the declared
--   views, and is the lookups; Write/Tx.antt inserts the rows.
-- * Schema (schema.go, internal/catalog/ddl.go): Schema.antt is Validate over the rows of
--   information_schema, and Schema/Ddl.antt the text of the DDL from the tables that it creates.
-- * Worker pool (pool/pool.go): Pool.antt, a machine of slots and groups.
-- * Deduplication of the records of a read (dedup.go): Dedup.antt.
-- * Partition keys (internal/catalog/partition.go): Partition.antt.
--
-- The parts meet in the tables: a write adds file rows without a feed_seq, which the sequencer
-- numbers; a write that dies leaves a tracking row, by which the collector finds its object.
--
-- Strings are lists of bytes, and the functions on them that change case or trim space are those
-- on ASCII. The sort of a partition's files by key is stable, where slices.SortFunc leaves open
-- the order of entries with one key. Versions and ids are natural numbers, an option of an int64
-- is the integer ℤ, offsets are natural numbers below 2 ^ 63, times are nanoseconds since the
-- epoch, an SQL NULL is `none`. A Go map is an association list in the order it is ranged over.
-- drain_all takes a list with a round for each call and answers `none` when the list is too
-- short; more rounds than unsequenced rows are enough. poll_iter and tail_iter take a View for
-- each round, with the tables that its poll meets, and end as `unfinished` when the list is too
-- short; as many rounds as the window is long are enough for poll_iter, and tail_iter has no
-- end. insert_chunks takes fuel, as much as there are rows. The bounds of metadata_s3.go (2048
-- bytes) and materialized_view.go (50000 rows) are constants. The machines of Budget.antt,
-- Pipeline.antt and Pool.antt are relations between states, in no fixed order and with no fuel.
--
-- Parameters stand for code that is not in the repository: the parquet codec, UUIDs, the texts of
-- times, floats and UUIDs, pgx's quoting, random numbers, PostgreSQL's clock and what it makes of
-- a WHERE clause.
-- Not modelled: the pipeline of a poll's downloads, the run of Write's tasks on the pool, the
-- locks, a transaction of the caller's, the run of the DDL, the loops on timers, the set-up of the
-- S3 client, the metrics and the commands.
pub mod Base
pub mod Metadata
pub mod Partition
pub mod Catalog
pub mod Config
pub mod Filter
pub mod Fanout
pub mod Read
pub mod Budget
pub mod Pipeline
pub mod Views
pub mod Pool
pub mod Schema
pub mod Jitter
pub mod Dedup
pub mod Gc
pub mod Poll
pub mod Listing
pub mod Rebuild
pub mod Sequencer
pub mod Store
pub mod Write
pub mod Tests
