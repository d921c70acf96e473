-- ===== src/Lib.antt =====
-- The importer of Solana snapshots into ClickHouse: a snapshot archive holds AppendVec files;
-- their accounts are read one after the other and written as rows to the tables of a group, while
-- a watcher chooses which archive comes next.
--
-- AppendVec.antt models src/append_vec.rs: the file as bytes, its two constructors `new_from_file`
-- and `new_from_reader`, `get_slice`, `get_type` and `get_account`. The offset arithmetic wraps at
-- 2 ^ 64, and a slice beyond the map is a panic, kept apart from `None`. AppendVec/Bounds has the
-- well-formedness of a file and its slices, AppendVec/Open the two constructors. AppendVec/Name
-- and AppendVec/Accounts model src/lib.rs: the name of a file, `append_vec_iter` and
-- `append_vec_accounts`; AppendVec/Scan relates the two.
--
-- Incremental.antt models src/incremental.rs: discovery of archives in a directory, their
-- eligibility after a slot, and their removal. Incremental/Selection and Incremental/Generations
-- have the choices of src/bin/solana-snapshot-etl/main.rs on top of it:
-- `newest_eligible_incremental`, `newest_full_generation`, `find_recorded_full`,
-- `watched_snapshot_candidates`. Incremental/Cleanup is about removal.
--
-- Watcher.antt has the durable state of the watcher in src/bin/solana-snapshot-etl/main.rs, with
-- the calls to the outside as events that a world lets succeed or fail; Watcher/Transitions has
-- the transitions `apply_active_incremental`, `process_bootstrap_full`, `begin_shared_full_load`,
-- `complete_shared_full_load` and `finish_cutover`. A write of the state that fails may have put the new
-- state on disk already, as the world says. Watcher/Journal reads off the events which imports the
-- tables of a group hold, clearings and exchanges counted, and what each event is allowed behind the
-- ones before it; Watcher/Progress is about what the transitions achieve.
--
-- Watcher/Workers has what its threads do, Watcher/Staging the threads and the state that
-- `run_incremental_snapshots` keeps, Watcher/Loop, Watcher/Round and Watcher/Select the parts of a
-- round of its loop, in the order of the source; `round` composes them. What is found in the
-- directory and whether a thread starts is an observation. Watcher/Invariant says what holds
-- between the parts, the modules below Watcher/Gathered and Watcher/Threads that each part and
-- each step of a thread keeps it, Watcher/Rounds and Watcher/Runs put them together, for the worlds of
-- `steady`: there the write directly behind a shared load does not fail. Where it fails, the loop
-- clears tables that its state in memory has as loaded; Tests/Looping runs that case.
-- Watcher/Failures is about the set of invalid archives. Watcher/Start has the states that the process
-- starts from: recovered from the tables, or read from a file of this or of an older version.
--
-- Streams.antt has what the extractors share: the manifest's fields of src/solana.rs,
-- `deserialize_from` and the lookup of an entry. Streams/Archived models src/archived.rs,
-- Streams/Unpacked src/unpacked.rs, Streams/Paths the tests of a path in both, Streams/Progress the
-- counting reader. Streams/Search, Streams/Yields, Streams/Count and Streams/Discovery have their
-- proofs. OpcodeStats.antt models src/bin/solana-opcode-stats/main.rs, HotTokens.antt
-- src/bin/import_hot_token/main.rs, with proofs in the modules below them.
--
-- The other modules model src/bin/solana-snapshot-etl/clickhouse.rs. Metadata.antt has the patches
-- of token metadata that workers record (Metadata/Recording) and that are merged with the stored
-- rows at the end of an import (Metadata/Merge). Token2022.antt is the Borsh reader of Token-2022
-- metadata, Token2022/Extension the extensions of a mint, Token2022/Tlv the loop over them;
-- Token2022/Reader and Token2022/Loop have their proofs. Import.antt has the rows, the policies
-- and the statistics that workers share, Import/Programs the types of mpl_metadata.rs and what is
-- taken from the Solana crates, Import/Rows what both kinds of workers build from an account,
-- Import/Worker the `Worker` of one table group, Import/Fanout the `FullFanoutWorker` that feeds
-- two groups from one stream, with Import/Fanout/Inserts for what it does with an account;
-- Import/Equivalence relates them. Import/Stats is about `ParallelWorkerStats::merge`.
-- Import/Tombstones has `write_close_token_account_tombstones`, Import/Tombstones/Live what its query
-- answers and Import/Tombstones/Batches its specification.
--
-- A worker walks an AppendVec with `append_vec_accounts`, decodes token mints with the Token-2022
-- parsers, records metadata patches, and remembers closed accounts, for which tombstones are
-- written when all workers have ended and their statistics are merged.
--
-- Fuel: the iterators over accounts take one round more than the file has bytes, the loop over
-- extensions as many rounds as the mint has bytes; each round moves on, by 136 bytes and by 4
-- bytes at least. Bytes are numbers; integers of the source are numbers with their wrap-around or
-- their `checked_add` written out where the source can overflow; the counters of the statistics are
-- unbounded.
--
-- Parameters: the operating system's files and directories, the memory map, the parser of archive
-- names of solana_runtime, base-58 text of keys, `unpack` of token states, the readers that Borsh
-- derives, the text of JSON, the answers of the database, zstd, tar, csv, ELF and bincode. A call of
-- these that fails is an error value. The sink of a worker and the inserter of tombstones are
-- records of operations.
--
-- Not modelled: SQL text, HTTP inserts and their batching, the schema, progress bars and logging,
-- argument parsing, the threads and channels that drive the workers of an import, and the fields of
-- the bank in src/solana.rs, which are decoded and dropped. Of the watcher's start, neither the choice among
-- --bootstrap, a file and the tables nor the upkeep of the files with hot mints is modelled.
pub mod Prelude
pub mod AppendVec
pub mod Incremental
pub mod Metadata
pub mod Token2022
pub mod Streams
pub mod OpcodeStats
pub mod HotTokens
pub mod Import
pub mod Watcher
pub mod Tests
