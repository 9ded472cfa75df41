-- ===== src/Tests.antt =====
-- Concrete runs of the model, over a small instance of the crates that it takes as a parameter.
mod Bank
mod IntegrationRuns
mod Text
mod Encodings
mod Toy
mod Laws
mod Compiling
mod SysvarReads
mod Database
mod Saving
mod Running
mod Replays
mod Sequences
mod Histories
mod UnitRuns
mod Machine
mod Ledger
mod Programs
mod Environments
