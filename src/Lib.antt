-- ===== src/Lib.antt =====
-- seashell is a Rust library that runs Solana instructions in a test, without a validator: the
-- accounts come from memory, from a saved scenario or from an RPC node, and the virtual machine of
-- the validator is called on them. Its code is in crates/seashell-core/src.
--
-- The parts and their files here:
-- - Instruction: the structs `Instruction`, `AccountMeta` and `InstructionAccount`.
-- - Sdk: the crates that the code calls, as one record of types and operations that every part
--   takes as a parameter. A theorem that relies on what those crates document names the laws:
--   `HasSysvars` (Sysvars/Reads), `IsTextual` (Scenario/Json), `IsPersistable` (Scenario/Reload),
--   `HasExecutable` (AccountsDb/Programs), `HasContext` (Seashell/Processing/Results),
--   `IsConfigurable` (Seashell/Processing/Totality), `IsLogBlind` (Seashell/Processing/Independent).
--   Tests/Toy is a small instance; Tests/Laws and Tests/Sequences show that it has the laws.
-- - Files: the file system that a scenario is read from and written to.
-- - Compile: crates/seashell-core/src/compile.rs, `compile_accounts_for_instruction`, with its unit
--   tests in Compile/UnitTests.
-- - Dedup: the map of `process_instruction` from transaction positions to instruction positions.
-- - Scenario: crates/seashell-core/src/scenario.rs. The cache with its RPC node is in Scenario, the
--   JSON form in Scenario/Json, the reading, writing and dropping in Scenario/Persist. A `HashMap` is
--   written in an order of its own, which Scenario/Order is about; Scenario/Unanswered is about
--   requests that the node answers with an error.
-- - Sysvars: crates/seashell-core/src/sysvar.rs, the sysvars that accounts are made from.
-- - AccountsDb: crates/seashell-core/src/accounts_db.rs. It holds the scenario, the accounts, the
--   programs and the sysvars, and looks a key up in the sysvars, the scenario and the accounts, in
--   that order. AccountsDb/Store is what it promises, with functions in place of its maps, and
--   AccountsDb/Refinement compares the two; AccountsDb/Replay is about loading again
--   what has been loaded, AccountsDb/Offline about loading without a node, and AccountsDb/Order
--   about databases that are seen as the same store.
-- - Seashell: crates/seashell-core/src/seashell.rs, spl/mod.rs and precompiles.rs.
--   Seashell/Process is `process_instruction`: the database loads the accounts, Compile and Dedup
--   prepare the transaction context, the virtual machine is invoked, and the accounts that it left
--   are reported and, if results are memoized, written back to the database. Seashell/Environment
--   has the methods that read the process's environment, and error.rs. Seashell/Steps has the step
--   relation of all methods, Seashell/Reachable what they lead to, Seashell/Offline runs without a
--   node, and Seashell/Fresh what `Seashell::new` leaves. AccountsDb/Closed and Seashell/Invariant lift what the primitive changes
--   keep to all methods.
--   Seashell/Processing/Replay and Saved follow an instruction from the first, online, run to a
--   second one from what the first kept, in memory or in the scenario's file; Totality and Online
--   say when processing returns, Missing when it panics for want of an account, Chained,
--   Independent and Order are about sequences of instructions. Seashell/UnitTests has the tests.
-- - OnChain: programs/account-loader, programs/create-account, programs/sysvar and
--   programs/sysvar_ixns, the programs that the integration tests run, over the pinocchio crates as
--   a second parameter, with its laws in the files of OnChain; Tests/Machine is an instance that
--   logs and has a clock, Tests/Ledger one that holds balances.
-- - Prelude and Outcome: Boolean tests, lists, association lists and signed integers; results,
--   methods, and the rules for invariants and totality of methods. Tests: concrete runs.
--
-- How the code corresponds: a method that changes its object is a function from the state to a
-- result and the state afterwards (`Exec` of Outcome). A panic is a result, with one constructor of
-- `Panic` for each message, and what was written before it stays written. The methods have the
-- names of the source, except `insert_account` (`Scenario::insert`), `get_sysvar` and `set_sysvar`
-- (`Sysvars::get`, `Sysvars::set`); the fields `entries` and `bytes` are named `data` there.
-- Public keys are numbers, since the code only compares them, and bytes are lists of numbers. The
-- `HashMap`s and `IndexMap`s are association lists. A `u64` addition is taken modulo 2 ^ 64 or
-- panics, as the build asks, a cast to `u8` is a remainder by 256, and a cast from `u64` to `i64`
-- is the two's complement. Every loop of the code runs over a list that is given, so every
-- definition is by structural recursion and none needs fuel.
--
-- Not modelled: the log lines and the logger. The unit tests are functions of the crates, those of
-- compile.rs in Compile/UnitTests and those of seashell.rs in Seashell/UnitTests, and so are the
-- integration tests of crates/seashell-core/tests (Seashell/UnitTests/Integration); Tests/UnitRuns,
-- Tests/Bank and Tests/IntegrationRuns evaluate them on small instances. The locks and
-- reference counts are left out where the code has one thread and one owner. The virtual
-- machine, the program cache, the text forms, gzip and JSON are parameters, and so are the
-- environment variables, the output of cargo and the directories of Seashell/Environment.
pub mod Prelude
pub mod Outcome
pub mod Instruction
pub mod Sdk
pub mod Files
pub mod Scenario
pub mod Sysvars
pub mod AccountsDb
pub mod Seashell
pub mod Compile
pub mod Dedup
pub mod OnChain
pub mod Tests
