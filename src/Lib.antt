-- ===== src/Lib.antt =====
-- Passbook, an execution extension (ExEx) of reth that keeps a ledger of every wei and token that moves at
-- a few watched addresses, and stalls where it cannot account for a balance.
--
-- For each committed block the pipeline reads the receipts, the balances that changed and, if a watched
-- account changed, executes the block again under an inspector. Block processing turns this into rows and
-- balances every watched account; the driver writes the rows to SQLite, handles reorgs and gaps, and
-- reports to reth the height up to which it is done. Paths are from the repository's root; `core` is
-- crates/passbook-core/src.
--
-- Model: core/model.rs, the rows; Model/Spelling `as_str` and `from_str`.
-- Inspector: core/inspector.rs, `ValueInspector`; on_call, on_create and so on are its hooks.
-- Reexec: core/reexec.rs, `TaggingInspector` and how its frames are collected. An execution of the EVM is
-- a tree of calls (Reexec/CallTree), whose hooks `replay` makes in order. Reexec/Prestate is the state below it.
-- Attribution, Erc20, System, Stack: core/attribution.rs, core/erc20.rs, core/system.rs, core/stack.rs with
-- the adapters of crates/passbook-stack-ethereum and crates/passbook-stack-optimism.
-- Reconcile: core/reconcile.rs, the balance test of one account.
-- Block: core/exex.rs, `process_block` and `build_partial_batch_skip_frames`. Block/Inputs and Block/Rows are
-- its data and its loops, Block/Sums what the loops add up to, Block/Entries what the rows add up to.
-- Pipeline: core/exex.rs, `process_committed_block_inner`, one definition for each of its sections;
-- Pipeline/Optimism: crates/passbook-stack-optimism/src/op_chain.rs, its counterpart for OP chains, with
-- Pipeline/Optimism/Paid, what its transactions pay;
-- Pipeline/ChainExec: the two arms of the `ChainExec` seam, as the attempts of the driver;
-- Pipeline/Audit: the driver with the L1 arm.
-- Ledger: core/ledger/writer.rs, core/ledger/schema.rs and `resume_head` of core/ledger/queries.rs. A table is
-- the list of its rows in rowid order; a writer is a list of statements run as one transaction. Ledger/Queries:
-- `get_transfers` of the same file, its ORDER BY a stable sort of the categories in their order;
-- Ledger/Matches says which rows a query asks for, and Ledger/Drain follows the cursor as a client does.
-- Opening: core/ledger/mod.rs, `Ledger::open`. Opening/Statements is the SQL of core/ledger/schema.rs on the file.
-- Config, Start: core/config.rs, and `main` of crates/bin/reth-passbook, which configures, opens and launches.
-- Rpc: core/rpc.rs and `health` of core/ledger/queries.rs, over the ledger that the driver writes.
-- Driver: core/exex.rs, `run_passbook`, `gap_range` and `lag_finished`.
-- Prelude: the standard library's functions that the program uses, and shared lemmas. Tests: the
-- theorems at concrete inputs.
--
-- Numbers. Addresses, hashes and U256 amounts are natural numbers. `+` and `*` of U256 wrap at 2 ^ 256, `+=` of
-- i128 wraps as in a release build, checked operations are checked. Text is a list of code points. A
-- HashMap or HashSet of addresses is an association list or a list; the order in which SQLite sees the
-- watched addresses of a gap marker is that of the list.
--
-- Failures. Where the program retries for ever, the loop takes its rounds from a list of attempts: which
-- SQL statements are refused, what the provider answers and what the execution of a block returns. A run
-- that uses up the list is still in the loop (`stalled`), so that a statement about all lists covers
-- every moment of an endless retry; that loops do end is stated with the attempt that lets them. No other
-- definition has fuel, but for the digits of a decimal number (80, enough below 2 ^ 256) and the client that
-- follows a cursor, whose fuel is its number of pages.
--
-- External code is a parameter: the text form of hashes and addresses (`Formats`, with the instance
-- `lower_hex`), the EVM, the L1 fee of an encoded transaction, and the execution of a block as the driver sees
-- it (`Attempt`), the addresses of alloy (`AddressFormat`) and revm's caching database (`CacheDb`). SQLite is
-- modelled by what INSERT OR REPLACE, DELETE and upsert mean, with NULL equal to nothing in a key, and by the
-- atomicity of a transaction.
--
-- Not modelled: the pragmas and indexes of the database, the servers and builders of jsonrpsee, reth and clap,
-- logging and the messages of errors, and the API probe, which holds no logic of its own.
pub mod Prelude
pub mod Model
pub mod Inspector
pub mod Reexec
pub mod Reconcile
pub mod Stack
pub mod Attribution
pub mod Erc20
pub mod System
pub mod Block
pub mod Ledger
pub mod Opening
pub mod Config
pub mod Rpc
pub mod Start
pub mod Driver
pub mod Pipeline
pub mod Tests
