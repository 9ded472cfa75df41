-- ===== src/Tests/Running.antt =====
-- Instructions processed with the small instance.
use mathlib.Core.Option.{get_or}
use seashell.Prelude.{
  ◌-◌, ◌^◌, ◌≡◌, refl, Bool, true, false, none, some, [], ◌∷◌, arith, ◌==◌, if◌then◌else◌,
}
use seashell.Prelude.Map.{lookup}
use seashell.Outcome.{Returns, ok, panic, overflow}
use seashell.Instruction.{Pubkey}
use seashell.Sdk.{Account}
use seashell.Scenario
use seashell.Sysvars.{is_sysvar, get_sysvar}
use seashell.Compile.{compile_accounts_for_instruction}
use seashell.Dedup.{dedup_map}
use seashell.AccountsDb
use seashell.AccountsDb.{AccountsDb, account_maybe}
use seashell.Seashell.{Seashell, airdrop}
use seashell.Seashell.Accounts.{airdrop_adds, airdrop_overflows}
use seashell.Seashell.Process.{
  InstructionProcessingResult, InstructionProcessingError, process_instruction,
}
use seashell.Seashell.Processing.{Same}
use seashell.Seashell.Processing.Reports.{process_instruction_isolated, process_instruction_fails}
use seashell.Seashell.Processing.Results.{process_instruction_memoizes}
use seashell.Tests.Encodings.{an_account}
use seashell.Tests.Toy.{toy}
use seashell.Seashell.Processing.Totality.{process_instruction_total}
use seashell.Tests.Laws.{toy_sysvars, toy_context, toy_configurable}
use seashell.Tests.Compiling.{transfer}
use seashell.Tests.Database.{db, scenario, program}

abbrev pub shell : Bool → Seashell toy
shell memoize = record {
  config = record {
    memoize = memoize;
    allow_uninitialized_accounts_local = false;
    allow_uninitialized_accounts_fetched = false;
  };
  accounts_db = db;
  compute_budget = 200000;
  feature_set = λ k. true;
  log_collector = none;
}

abbrev pub bumped_program : Account
bumped_program = record program { lamports = 2 }

abbrev pub reported : InstructionProcessingResult toy
reported = record {
  compute_units_consumed = 150;
  return_data = [];
  error = none;
  post_execution_accounts =
      (100, bumped_program)
      ∷ (50, an_account 6 [] 0)
      ∷ (60, an_account 10 [] 0)
      ∷ (50, an_account 6 [] 0)
      ∷ [];
}

abbrev pub memoized_db : AccountsDb toy
memoized_db = record db {
  accounts = (100, bumped_program) ∷ (50, an_account 6 [] 0) ∷ (60, an_account 10 [] 0) ∷ [];
}

abbrev pub memoized : Seashell toy
memoized = record (shell true) { accounts_db = memoized_db }

-- Each account has one lamport more; the key 60 still reads the scenario's account.
process_instruction_memoizes_example :
    (x : Account) × (lookup 60 reported.post_execution_accounts ≡ some x)
    × (lookup 60 memoized_db.accounts ≡ some x)
    × (account_maybe toy memoized_db 60 ≡ ok (some (get_or (Scenario.get toy scenario 60) x)))
unfolding process_instruction account_maybe is_sysvar Scenario.get
    AccountsDb.accounts_for_instruction AccountsDb.sysvars_for_instruction get_sysvar
    compile_accounts_for_instruction dedup_map AccountsDb.set_account
process_instruction_memoizes_example =
    process_instruction_memoizes toy toy_context transfer 60 refl (shell true) refl refl reported
      memoized refl refl

-- A budget of zero makes the program fail.
abbrev broke : Seashell toy
broke = record (shell true) { compute_budget = 0 }

abbrev failed : InstructionProcessingResult toy
failed = record {
  compute_units_consumed = 150;
  return_data = [];
  error = some (InstructionProcessingError.instruction_error 7);
  post_execution_accounts = [];
}

process_instruction_fails_example : (failed.post_execution_accounts ≡ []) × Same toy broke broke
unfolding process_instruction account_maybe is_sysvar Scenario.get
    AccountsDb.accounts_for_instruction AccountsDb.sysvars_for_instruction get_sysvar
    compile_accounts_for_instruction dedup_map
process_instruction_fails_example =
    process_instruction_fails toy transfer broke failed broke refl (λ e. cc)

process_instruction_isolated_example : Same toy (shell false) (shell false)
unfolding process_instruction account_maybe is_sysvar Scenario.get
    AccountsDb.accounts_for_instruction AccountsDb.sysvars_for_instruction get_sysvar
    compile_accounts_for_instruction dedup_map
process_instruction_isolated_example =
    process_instruction_isolated toy transfer (shell false) reported (shell false) refl refl

-- The account 50 has 5 lamports.
airdrop_adds_example :
    ((airdrop toy true 50 10 (shell false)).0 ≡ ok tt)
    × ((j : Pubkey)
        → account_maybe toy (airdrop toy true 50 10 (shell false)).1.accounts_db j
          ≡ (if j == 50 then ok (some (an_account 15 [] 0)) else account_maybe toy db j))
unfolding account_maybe is_sysvar Scenario.get
airdrop_adds_example =
    airdrop_adds toy (shell false) 50 10 (some (an_account 5 [] 0)) refl refl true (omega arith)

airdrop_overflows_example :
    (airdrop toy true 50 (2 ^ 64 - 1) (shell false) ≡ (panic overflow, shell false))
    × ((airdrop toy false 50 (2 ^ 64 - 1) (shell false)).0 ≡ ok tt)
    × (account_maybe toy (airdrop toy false 50 (2 ^ 64 - 1) (shell false)).1.accounts_db 50
        ≡ ok (some (an_account 4 [] 0)))
unfolding account_maybe is_sysvar Scenario.get
airdrop_overflows_example =
    airdrop_overflows toy (shell false) 50 (2 ^ 64 - 1) (some (an_account 5 [] 0)) refl refl
      (omega arith) 50

abbrev allowing : Seashell toy
allowing = record (shell false) {
  config = record {
    memoize = false;
    allow_uninitialized_accounts_local = true;
    allow_uninitialized_accounts_fetched = false;
  };
}

process_instruction_total_example : Returns (process_instruction toy transfer) allowing
unfolding account_maybe is_sysvar Scenario.get
process_instruction_total_example =
    process_instruction_total toy toy_sysvars toy_context toy_configurable transfer allowing program
      refl refl refl (omega arith) (omega arith)
