-- ===== src/Tests/IntegrationRuns.antt =====
-- The integration tests, on a small instance whose virtual machine does what the programs do.
use Prim.Native.String.{String, ◌++◌ as ◌and◌, slice}
use mathlib.Core.Option
use mathlib.Core.Option.{get_or}
use seashell.Prelude.{
  ℕ, zero, suc, ◌+◌, ◌≡◌, refl, true, Option, none, some, List, [], ◌∷◌, map, replicate, ◌==◌,
  if◌then◌else◌,
}
use seashell.Prelude.Int.{ℤ, pos, negsuc}
use seashell.Prelude.Map.{lookup}
use seashell.Outcome.{ok}
use seashell.Instruction.{Pubkey, Bytes}
use seashell.Sdk.{Sdk, Account, Clock}
use seashell.Scenario
use seashell.Sysvars.{is_sysvar, get_sysvar, set_sysvar}
use seashell.Compile.{compile_accounts_for_instruction}
use seashell.Dedup.{dedup_map}
use seashell.AccountsDb
use seashell.AccountsDb.{
  account_maybe, account_must, load_builtins, build_program, load_program_from_bytes_with_loader,
  accounts_for_instruction, sysvars_for_instruction,
}
use seashell.Seashell.{
  new, new_with_config, account, set_account, load_program_from_bytes, enable_log_collector, logs,
}
use seashell.Seashell.Process.{process_instruction}
use seashell.Seashell.UnitTests.Logs.{parse_logs}
use seashell.Seashell.Environment.{
  Environment, load_program_from_environment, try_find_workspace_root, program_directory,
}
use seashell.Seashell.UnitTests.Integration.{
  test_account_loader, test_account_loader_duplicate_accounts, test_sysvar_ixns,
  test_create_account, test_sysvar_override,
}
use seashell.Tests.Text.{key_text, sum_of}
use seashell.Tests.Toy.{toy}
use seashell.Tests.Environments.{entry, workspace}
use seashell.Tests.Saving.{no_files}

-- a number of one digit
abbrev digit : ℕ → String
digit n = slice "0123456789" n (n + 1)

abbrev signed : ℤ → String
signed (pos n) = digit n
signed (negsuc n) = "-"

-- account_loader logs the keys, sysvar the clock, and create_account fills the new account
abbrev Ran : Type 0
Ran = List (Pubkey × Account) × List String

abbrev clock_lines : Option Clock → List String
clock_lines none = []
clock_lines (some c) =
    ("Program log: Slot: " and digit c.slot)
    ∷ ("Program log: Epoch: " and digit c.epoch)
    ∷ ("Program log: Epoch Start Timestamp: " and signed c.epoch_start_timestamp)
    ∷ ("Program log: Leader Schedule Epoch: " and digit c.leader_schedule_epoch)
    ∷ ("Program log: Timestamp: " and signed c.unix_timestamp)
    ∷ []

abbrev create_key : Pubkey
create_key = sum_of "create1111111111111111111111111111111111111"

abbrev ran : List (Pubkey × Bytes) → List (Pubkey × Account) → Ran
ran cache [] = ([], [])
ran cache ((k, p) ∷ accounts) =
    if k == 80
    then (
      (k, p) ∷ accounts,
      map (λ (e : Pubkey × Account). "Program log: " and key_text e.0) accounts,
    )
    else if k == 81
    then ((k, p) ∷ accounts, clock_lines (toy.clock_codec.deserialize (get_or (lookup 1 cache) [])))
    else if k == create_key
    then ((k, p) ∷ created accounts, [])
    else ((k, p) ∷ accounts, [])
  where
    created : List (Pubkey × Account) → List (Pubkey × Account)
    created (signer ∷ (k, a) ∷ rest) =
        signer ∷ (k, record a { lamports = 7850880; bytes = replicate 1000 0 }) ∷ rest
    created l = l

abbrev validator : Sdk
validator = record toy {
  run_program = λ c p f v l b.
      let (c', lines) = ran v c in
      (none, 150, c', Option.map (λ (old : List String). "Program invoke [1]" ∷ lines) l);
}

-- the directory of the four programs
abbrev built : Environment
built = record workspace {
  read_dir = λ directory. some (
      some (entry "account_loader.so" (some (1 ∷ [])))
      ∷ some (entry "sysvar.so" (some (2 ∷ [])))
      ∷ some (entry "sysvar_ixns.so" (some (3 ∷ [])))
      ∷ some (entry "create_account.so" (some (4 ∷ [])))
      ∷ []);
}

abbrev from_key : ℕ → ℕ → List Pubkey
from_key zero k = []
from_key (suc n) k = k ∷ from_key n (k + 1)

account_loader_passes :
    test_account_loader validator 80 (map (λ k. (k, k + 1)) (from_key 50 20)) built no_files
    ≡ ok true
unfolding test_account_loader new load_builtins is_sysvar load_program_from_bytes
    load_program_from_bytes_with_loader build_program account_maybe Scenario.get process_instruction
    accounts_for_instruction sysvars_for_instruction get_sysvar compile_accounts_for_instruction
    dedup_map load_program_from_environment try_find_workspace_root program_directory set_account
    enable_log_collector logs
account_loader_passes = refl

account_loader_duplicate_accounts_passes :
    test_account_loader_duplicate_accounts validator 80 30 31 (from_key 10 20) built no_files
    ≡ ok true
unfolding test_account_loader_duplicate_accounts new load_builtins is_sysvar load_program_from_bytes
    load_program_from_bytes_with_loader build_program account_maybe Scenario.get process_instruction
    accounts_for_instruction sysvars_for_instruction get_sysvar compile_accounts_for_instruction
    dedup_map load_program_from_environment try_find_workspace_root program_directory set_account
    enable_log_collector logs
account_loader_duplicate_accounts_passes = refl

sysvar_ixns_passes : test_sysvar_ixns validator 82 built no_files ≡ ok true
unfolding test_sysvar_ixns new load_builtins is_sysvar load_program_from_bytes
    load_program_from_bytes_with_loader build_program account_maybe Scenario.get process_instruction
    accounts_for_instruction sysvars_for_instruction get_sysvar compile_accounts_for_instruction
    dedup_map load_program_from_environment try_find_workspace_root program_directory set_account
    enable_log_collector logs
sysvar_ixns_passes = refl

sysvar_override_passes : test_sysvar_override validator 81 built no_files ≡ ok true
unfolding test_sysvar_override new load_builtins is_sysvar load_program_from_bytes
    load_program_from_bytes_with_loader build_program account_maybe Scenario.get process_instruction
    accounts_for_instruction sysvars_for_instruction get_sysvar compile_accounts_for_instruction
    dedup_map load_program_from_environment try_find_workspace_root program_directory set_account
    enable_log_collector logs parse_logs set_sysvar AccountsDb.set_account
sysvar_override_passes = refl

create_account_passes :
    test_create_account validator 0 (λ seeds program. (77, 255)) 76 built no_files ≡ ok true
unfolding test_create_account new load_builtins is_sysvar load_program_from_bytes
    load_program_from_bytes_with_loader build_program account_maybe Scenario.get process_instruction
    accounts_for_instruction sysvars_for_instruction get_sysvar compile_accounts_for_instruction
    dedup_map load_program_from_environment try_find_workspace_root program_directory set_account
    enable_log_collector logs new_with_config account account_must AccountsDb.set_account
    Scenario.rpc_enabled
create_account_passes = refl
