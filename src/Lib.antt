-- ===== src/Lib.antt =====
-- A lakehouse: src/producer sends events, src/streaming fills a Delta Lake table with events, and
-- src/compactor rewrites its small files. The streaming job judges each event of a batch, appends the valid
-- ones to the table and the rejected ones to a quarantine, and writes down the counts. The compaction of
-- the table: a run lists the objects of the table, groups the Parquet files by partition, selects the
-- partitions that are worth rewriting, takes a lock on each, has Spark rewrite it, gives the lock back, and
-- records what it has done.
--
-- The parts, and how they interact:
--   Config        src/compactor/config.py: the settings, and the table's prefix in the bucket
--   Errors, Exec  src/compactor/exceptions.py, and Python's exceptions: a statement is a function of the state
--                 that returns or raises, and keeps the state that it has reached in both cases
--   Time          `datetime`: naive and aware times, in microseconds
--   Scanner       src/compactor/file_scanner.py: partitions and tests on them; Scanner/Keys: the expression that
--                 reads a partition from a key; Scanner/Order: the order of dates and hours; Scanner/Scan:
--                 the loop over a listing
--   Sizing        src/compactor/target_sizing.py: the number of files a partition is rewritten into
--   Selection     src/compactor/partition_selection.py: the policy and the loop over the partitions, and
--                 `find_eligible_partitions`; Selection/Summary: the policy as the log shows it
--   Codec, Storage, Spark
--                 what the program is given: the texts of times and of JSON, the object store, and Spark,
--                 each a record of operations; the laws that are relied on are records beside them
--   Locks         src/compactor/lock_manager.py: locks and their texts; Locks/Manager: `LockManager`;
--                 Locks/Lease: what a lock is for, in which Locks/Refinement, Locks/Release and
--                 Locks/Exclusion describe the manager; Locks/Histories: sequences of its calls; Locks/Race:
--                 workers of which each call of the store is a turn, and whose turns interleave; Locks/Paths and
--                 Locks/Local: locks in local files
--   Metrics       src/compactor/metrics.py: the record of a run, its status and its exit code; Metrics/Sizes: sizes
--                 for people to read; Metrics/Summary: the dictionaries that are written
--   Compactor     src/compactor/delta_compactor.py: the rewriting of one partition
--   Daemon        src/compactor/compaction_daemon.py: the loop over the eligible partitions; Daemon/Cycle: the
--                 whole of `run_compaction_cycle` and of `run_dry_run`; Daemon/Loop: `run_daemon`, `main`;
--                 Daemon/Plan, Daemon/Forecast: what a dry run says
--   Json          the values of `json`
--   Quality       src/streaming/data_quality.py: the validation of a record; Quality/Acceptable: what it asks of a
--                 record, without its code; Quality/Percent: the share of rejected records; Quality/Report:
--                 src/streaming/quality_metrics.py
--   Streaming     src/streaming/spark_streaming_job.py: the column of Spark that rejects an event;
--                 Streaming/Batch: the split of a batch; Streaming/Writing: `process_batch`
--   Producer      src/producer: the events of a demonstration, a share of them bad on purpose, and the loop that
--                 sends them; Producer/Events: the events; Producer/Messages relates them to Quality
--   Logging       src/utils/logging_config.py: a line of the log in JSON; Logging/Lookup: what is read back from it
--   Benchmark     src/benchmark/benchmark_queries.py: the phases of the runs and the pair that is compared;
--                 Benchmark/Execution: the measuring of a run, and `main`; Benchmark/Book: the file of the runs and
--                 the report, as `main` relies on them
--   Base          lists, dictionaries, texts, integers and doubles, for all parts
--   Tests         the theorems at concrete inputs, over a bucket, tables and a broker in memory
--
-- How the code is modelled. A function of the code keeps its name. What mutates is passed along: the
-- dictionary of the scan, the two lists of the selection, and in a run the record of its metrics beside the
-- world, so that a handler sees the metrics that the body has reached. The world is a parameter; the clock,
-- the listing, the store, Spark and the metrics file act on it. Every exception can come from every such
-- call. Integers of Python are unbounded; where `float` is applied to one, its overflow is modelled.
-- Counters that only grow are natural numbers. All loops run over lists, and the writing of a number in
-- decimal, and the count of its binary digits, run on a fuel of one more than the number, which is enough
-- since each step divides by ten or two. The loops of the daemon and of the producer end by a signal only;
-- they run on a fuel of rounds, and a number of rounds greater than that after which the signal has come is
-- enough.
--
-- What is not exact: the ceiling of a quotient is taken in integers where Python divides in floating point,
-- which agree below 2 ^ 53 bytes; the digits of an hour are those of ASCII, where Python's `\d` takes all
-- decimal digits; durations are rounded to thousandths only where they are written; dates outside the years
-- 1 to 9999 raise in Python and not here; the values of a lock's JSON object are texts; `KeyboardInterrupt`
-- and the like are not modelled. `float(text)` reads ASCII digits only.
-- A local path that begins with exactly two slashes is taken for one that begins with one. A percentage is in hundredths, and
-- a printed size is exact below 2 ^ 53 bytes; a double is the nearest to a quotient for quotients that are
-- zero or from 2 ^ (-67) up, that is, for fewer than 2 ^ 67 records. A row of the streaming job is what
-- Spark computes for one value of the batch, and each count and each append is a query of its own, with a
-- time of its own; the batch is the same in each.
--
-- What is not modelled: the calls of the log and the printed table, which only write; the loading of the
-- settings; `acquire` and `release` over local files, which only tests use; the opening of files, so that the daemon has the
-- writer of Metrics/Summary as a parameter; the parsing of the command line; the settings of Spark and of
-- its stream; the settings of the producer; of the
-- benchmark, the queries, the file of the runs and the report, which are parameters.
pub mod Base
pub mod Errors
pub mod Exec
pub mod Time
pub mod Config
pub mod Scanner
pub mod Sizing
pub mod Selection
pub mod Codec
pub mod Storage
pub mod Locks
pub mod Metrics
pub mod Spark
pub mod Compactor
pub mod Daemon
pub mod Json
pub mod Quality
pub mod Streaming
pub mod Producer
pub mod Logging
pub mod Benchmark
pub mod Tests
