-- ===== src/Lib.antt =====
-- pevm executes the transactions of a block in parallel with the result of executing them in order.
-- Worker threads take tasks from a scheduler; an execution reads through a database that records
-- where each value came from, and its writes go to a multi-version memory; a validation reads the
-- recorded locations again and aborts the transaction if it finds other origins. This library models
-- the crate crates/pevm.
--
-- Base              names, tests on numbers and lists that the other files share
-- Types             crates/pevm/src/lib.rs: statuses, versions, tasks, memory values, read origins
-- Scheduler         crates/pevm/src/scheduler.rs: `Scheduler` and its methods, under their names
--   Workers         crates/pevm/src/pevm.rs: the threads' loop over the scheduler, as a step relation
--   Effects, Exclusion, Protocol, Steps, Safety
--                   an abstract protocol of statuses and dependents, and the workers against it
--   Statuses, Counters, Progress, Reexecution, Alone
--                   transitions, counters, termination of `next_task`, failing validations, and the
--                   operations of one thread alone as steps of Workers
-- MvMemory          crates/pevm/src/mv_memory.rs: `MvMemory`; `record_sets` is `MvMemory::record`
--   Reads           validation against re-reading
--   Record, Coherence, Estimates, Initial
--                   what `record` and `convert_writes_to_estimates` make of the memory
-- Storage           crates/pevm/src/storage.rs and storage/in_memory.rs: the trait, the in-memory
--                   implementation, the wrapper that revm reads
-- VmDb              crates/pevm/src/vm.rs: `VmDb`; `read_basic`, `read_storage` and `read_block_hash`
--                   are `Database::basic`, `storage` and `block_hash`
--   Basic, Lazy     account reads and lazy balance updates; Basic/Blocking: blocked reads
--   Slots, SlotReads, Undisturbed
--                   slot reads, and their validation
--   Programs, Agreeing, Reexecution, Serial
--                   transactions that read slots while others write, against one after another
-- Execution         crates/pevm/src/vm.rs: what `Vm::execute` makes of revm's final state and errors
--   Writes, Reached, Transitions, Failures
--                   the write set by locations, against the state transitions; failures
-- Driver            crates/pevm/src/pevm.rs: `Pevm::execute` and `execute_revm_sequential`
--   Sequential, Rejected
--                   the sequential runs; invalid blocks
-- Chains            crates/pevm/src/chain: gas prices, RISE's initial memory, roots of receipts
--   Estimates, Roots, Specs
--                   the initial memory; when a root is calculated; Ethereum's forks
-- Rpc               crates/pevm/src/storage/rpc.rs: `RpcStorage`
--   Fetch, Caches, Refines, Answers
--                   retries; the caches against the chain
-- Rewards           crates/pevm/src/vm.rs behind revm's run in `Vm::execute`, and `get_rewards` and
--                   `build_mv_memory` of crates/pevm/src/chain
--   Credit, Conclude, Estimated
--                   a reward in the write set, the end of an execution, the initial memory
-- Block             crates/pevm/src/pevm.rs behind the parallel run: gas, and lazy addresses
--   Gas, History, Agreement, Start
--                   sums of gas; the evaluation of an address against a replay and against reads
--
-- Interaction: a worker (`Scheduler.Workers`) calls the scheduler's operations; what `Vm::execute` and
-- the validation answer is left open there, but a blocking transaction is a lower one.
-- `MvMemory.Estimates.Run` is the sequence of calls that change the memory. `VmDb.Programs` stands for
-- what revm asks of the database in a transaction: slots, each after those read before, and each on the
-- memory as the other threads have left it at that time.
--
-- Conventions. Hashes, addresses and 256-bit words are natural numbers, with saturation and
-- wrap-around written out where the code has them. A `Vec` of the block's size is a function with the
-- bound tested: an index past it, a failing debug assertion or a lock taken twice is the result
-- `none`, a fault. Atomics are sequentially consistent, though the code asks for relaxed order. In
-- Workers each access of an atomic outside the locks, in `next_task` and in `finish_validation`, is a
-- step of its own, and so is each section under the lock of a transaction's status, but for
-- `finish_execution`: it makes each dependent ready and lowers the execution index for it in steps of
-- their own, and what it does with the other counters behind that is one step. A worker in
-- `finish_execution` keeps nobody out, though it has the lock in the code, so Workers has more runs
-- than the code. `turn`, `next_task`, `finish_execution`, `finish_validation` and `try_validate` as
-- functions are what one thread does when no other runs meanwhile. A read of an account in `read_basic`
-- finds one memory in all its lookups.
-- `next_task` takes fuel, one unit for each turn of its loop; the loop over the last written
-- locations in `record` takes their number, one for each location; the retries of `fetch` recur on the
-- lives left. `unwrap` of nothing and a nonce below zero are `none` or `panicked`. The location hash,
-- codes, `Bytecode::from` and keccak-256 are other crates' and are parameters.
--
-- Not modelled: revm's run of a transaction and its journal (parameters where the code uses them);
-- transaction environments and the block environment, which copy fields between the
-- types of other crates; the reuse of result slots; serialisation, the hashers, and the command line
-- tool in bins/fetch; the conversions between `EvmCode` and revm's `Bytecode`. Workers leaves the memory
-- out, and `VmDb.Serial` is about a block whose validations passed, not about every reachable state:
-- that the scheduler leads every run to such an end is not shown.
pub mod Base
pub mod Block
pub mod Chains
pub mod Driver
pub mod Execution
pub mod MvMemory
pub mod Rewards
pub mod Rpc
pub mod Scheduler
pub mod Storage
pub mod Types
pub mod VmDb
