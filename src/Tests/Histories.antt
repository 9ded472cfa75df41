-- ===== src/Tests/Histories.antt =====
-- The small instance, from `new_with_config` on.
use seashell.Prelude.{◌≡◌, refl, true, if◌then◌else◌}
use seashell.Instruction.{Pubkey}
use seashell.Sysvars.{is_sysvar}
use seashell.AccountsDb
use seashell.AccountsDb.{AccountsDb, account_maybe, build_program, load_builtins}
use seashell.AccountsDb.OnlyPrograms.{Runs}
use seashell.Seashell
use seashell.Seashell.{
  Seashell, airdrop, Config, default_config, new, new_with_config, load_precompiles,
  token_program_id, associated_token_program_id, token_2022_program_id,
}
use seashell.Seashell.Process.{process_instruction}
use seashell.Seashell.Environment
use seashell.Seashell.Environment.{World}
use seashell.Seashell.Invariant.{IsSound}
use seashell.Seashell.Steps.{LocalStep, Step, Reach}
use seashell.Seashell.Reachable.{Reach-IsSound}
use seashell.Seashell.Fresh.{new_loads}
use seashell.Seashell.Offline.{LocalReach, LocalReach-scenario}
use seashell.Scenario.Persist.{drop}
use seashell.Tests.Database.{db}
use seashell.Tests.Running.{shell}
use seashell.Tests.Toy.{toy}
use seashell.Tests.Laws.{toy_executable}
use seashell.Tests.Compiling.{transfer}
use seashell.Tests.Saving.{no_files, fresh}
use seashell.Tests.Environments.{workspace}

abbrev memoizing : Config
memoizing = record default_config { memoize = true }

abbrev first : World toy
first = ((new_with_config toy memoizing).1, no_files)

-- a scenario is loaded, the time is changed, and an instruction panics, since its program is missing
abbrev second : World toy
second = (Environment.load_scenario toy workspace "a" first).1

abbrev third : World toy
third = (Seashell.warp toy 9 77 second.0, second.1)

abbrev fourth : World toy
fourth = ((process_instruction toy transfer third.0).1, third.1)

abbrev history : Reach toy first fourth
history =
    Reach.next
      (Reach.next (Reach.next Reach.here (Step.load_scenario workspace "a" refl))
        (Step.local_step (LocalStep.warp 9 77 refl) refl))
      (Step.local_step (LocalStep.process transfer refl) refl)

Reach-IsSound_example : IsSound toy fourth.0
Reach-IsSound_example = Reach-IsSound toy memoizing no_files fourth history

new_loads_example :
    let db = (new toy).1.accounts_db in
    Runs toy toy_executable (token_program_id toy) db
    × Runs toy toy_executable (associated_token_program_id toy) db
    × Runs toy toy_executable (token_2022_program_id toy) db
    × ((k : Pubkey)
        → account_maybe toy (AccountsDb.clear_non_program_accounts toy db) k
          ≡ account_maybe toy db k)
unfolding new is_sysvar load_precompiles load_builtins build_program
    AccountsDb.load_program_from_bytes_with_loader Seashell.load_program_from_bytes
new_loads_example = new_loads toy toy_executable refl refl refl refl

-- without a node: an instruction whose results are memoized, an airdrop, and a clearing
abbrev unmarked : Seashell toy
unmarked = record (shell true) { accounts_db = record db { scenario = fresh } }

abbrev processed : Seashell toy
processed = (process_instruction toy transfer unmarked).1

abbrev funded : Seashell toy
funded = (airdrop toy true 50 10 processed).1

abbrev cleared : Seashell toy
cleared = Seashell.clear_non_program_accounts toy funded

LocalReach-scenario_example :
    (cleared.accounts_db.scenario ≡ fresh)
    × (drop toy cleared.accounts_db.scenario no_files
        ≡ (if fresh.dirty then drop toy fresh no_files else no_files))
LocalReach-scenario_example =
    LocalReach-scenario toy unmarked cleared no_files
      (LocalReach.next
        (LocalReach.next (LocalReach.next LocalReach.here (LocalStep.process transfer refl))
          (LocalStep.airdrop true 50 10 refl))
        (LocalStep.clear refl))
      refl
