-- ===== src/Tests/Database.antt =====
-- A database of the small instance: the program 100 and the account 50 are there, the account 60 is
-- the scenario's, and the RPC node knows the account 42.
use seashell.Prelude.{◌≡◌, refl, true, false, none, some, List, [], ◌∷◌, arith, ◌==◌, if◌then◌else◌}
use seashell.Prelude.Int.{pos}
use seashell.Outcome.{ok}
use seashell.Instruction.{Pubkey}
use seashell.Sdk.{Account}
use seashell.Scenario
use seashell.Scenario.{Scenario, get, try_fetch_from_rpc}
use seashell.Files.{Files}
use seashell.Scenario.Persist.{drop}
use seashell.Scenario.Unanswered.{fetch_unanswered}
use seashell.Sysvars.{is_sysvar}
use seashell.AccountsDb.{
  AccountsDb, account_maybe, account_must, clear_non_program_accounts, set_account, build_program,
  load_program_from_bytes_with_loader,
}
use seashell.AccountsDb.Reads.{account_maybe-set_account}
use seashell.AccountsDb.Invariant.{IsWellFormed}
use seashell.AccountsDb.Reachable.{Operation, run_all, new_database, reachable-IsWellFormed}
use seashell.AccountsDb.Loading.{account_must_fetches}
use seashell.AccountsDb.Programs.{load_program_survives}
use seashell.Tests.Encodings.{an_account}
use seashell.Tests.Toy.{toy}
use seashell.Tests.Laws.{toy_executable}
use seashell.Tests.Compiling.{transfer}
use seashell.Tests.SysvarReads.{sysvars_at}

abbrev pub node : List (Pubkey × Account)
node = (42, an_account 7 [] 0) ∷ []

abbrev pub program : Account
program = record (an_account 1 (127 ∷ []) 11) { executable = true }

abbrev pub scenario : Scenario toy
scenario = record {
  should_persist = false;
  allow_uninitialized_accounts = true;
  dirty = false;
  entries = (60, an_account 9 [] 0) ∷ [];
  path = none;
  rpc_client = some node;
}

abbrev pub db : AccountsDb toy
db = record {
  scenario = scenario;
  accounts = (100, program) ∷ (50, an_account 5 [] 0) ∷ [];
  programs = [];
  sysvars = sysvars_at 12;
}

pub db-IsWellFormed : IsWellFormed toy db
unfolding is_sysvar
db-IsWellFormed = record {
  scenario_keys = (refl, tt);
  account_keys = (refl, (refl, tt));
  no_sysvars = λ k h. ground arith;
}

fetch_unanswered_example :
    (s' : Scenario toy) × (c' : List (Pubkey × Account)) × (try_fetch_from_rpc toy 43 scenario
      ≡ (ok (some toy.default_shared), s'))
    × ((j : Pubkey) → get toy s' j ≡ get toy scenario j)
    × ((fs : Files) → drop toy s' fs ≡ drop toy scenario fs)
    × (s'.rpc_client ≡ some c')
    × ((try_fetch_from_rpc toy 43 s').1.rpc_client ≡ some (toy.get_account c' 43).1)
unfolding Scenario.is_not_found
fetch_unanswered_example = fetch_unanswered toy 43 node scenario 0 refl refl

account_must_fetches_example :
    (db' : AccountsDb toy) × (account_must toy 42 db ≡ (ok (an_account 7 [] 0), db'))
    × (db'.scenario.dirty ≡ true)
    × ((j : Pubkey)
        → account_maybe toy db' j
          ≡ (if j == 42 then ok (some (an_account 7 [] 0)) else account_maybe toy db j))
    × (account_must toy 42 db' ≡ (ok (an_account 7 [] 0), db'))
unfolding account_maybe is_sysvar Scenario.get
account_must_fetches_example =
    account_must_fetches toy db 42 node (an_account 7 [] 0) refl refl refl

account_maybe-set_account_example :
    ((set_account toy 60 program db).0 ≡ ok tt)
    × (account_maybe toy (set_account toy 60 program db).1 60 ≡ ok (some (an_account 9 [] 0)))
unfolding is_sysvar Scenario.get
account_maybe-set_account_example = account_maybe-set_account toy db 60 program 60 refl

load_program_survives_example :
    let load =
      load_program_from_bytes_with_loader toy 70 (127 ∷ 69 ∷ []) 11 toy.all_enabled 200000 in
    (x : Account) × (x.executable ≡ true)
    × (account_maybe toy (load db).1 70 ≡ ok (some x))
    × (account_maybe toy (clear_non_program_accounts toy (load db).1) 70 ≡ ok (some x))
unfolding is_sysvar Scenario.get build_program load_program_from_bytes_with_loader
load_program_survives_example =
    load_program_survives toy toy_executable 70 (127 ∷ 69 ∷ []) 11 toy.all_enabled 200000 db
      db-IsWellFormed refl refl refl

-- The account of the clock is no clock, so the first write panics; what follows is run all the same.
reachable-IsWellFormed_example : IsWellFormed toy (
    run_all toy
      (Operation.set_accounts ((50, program) ∷ (1, program) ∷ (51, program) ∷ [])
        ∷ Operation.load_builtins toy.all_enabled
        ∷ Operation.clear
        ∷ Operation.accounts_for_instruction true transfer
        ∷ Operation.warp 9 (pos 1)
        ∷ [])
      (new_database toy scenario))
reachable-IsWellFormed_example =
    reachable-IsWellFormed toy
      (Operation.set_accounts ((50, program) ∷ (1, program) ∷ (51, program) ∷ [])
        ∷ Operation.load_builtins toy.all_enabled
        ∷ Operation.clear
        ∷ Operation.accounts_for_instruction true transfer
        ∷ Operation.warp 9 (pos 1)
        ∷ [])
      scenario (refl, tt)
