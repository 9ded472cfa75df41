-- ===== src/Tests/UnitRuns.antt =====
-- The unit tests of crates/seashell-core/src/seashell.rs on the small instance.
use Prim.Native.String.{String}
use seashell.Prelude.{◌+◌, ◌%◌, ◌≡◌, refl, true, some, [], ◌∷◌}
use seashell.Outcome.{ok, add_u64}
use seashell.Instruction.{Pubkey}
use seashell.Sdk.{Sdk}
use seashell.Scenario
use seashell.Scenario.{try_fetch_from_rpc, insert_account}
use seashell.Scenario.Json.{document_into, account_of_json, from_object, to_document}
use seashell.Scenario.Persist
use seashell.Scenario.Persist.{from_file, from_file_with_rpc}
use seashell.Sysvars.{is_sysvar}
use seashell.AccountsDb.{
  account_maybe, account_must, load_builtins, build_program, load_program_from_bytes_with_loader,
}
use seashell.Seashell.{new, new_with_config, account, airdrop, load_program_from_bytes}
use seashell.Seashell.Environment.{
  Environment, load_scenario, try_find_workspace_root, program_directory,
  load_program_from_environment,
}
use seashell.Seashell.UnitTests.{
  test_account_lookup_order, test_missing_account_without_rpc, test_load_from_environment,
  test_scenario_loading,
}
use seashell.Files.{write_file}
use seashell.Tests.Text.{sum_of}
use seashell.Tests.Encodings.{an_account}
use seashell.Tests.Toy.{toy}
use seashell.Tests.Environments.{entry, workspace}
use seashell.Tests.Saving.{no_files}

abbrev small_key : String → Pubkey
small_key t = 20 + sum_of t % 61

-- the small instance with small keys and a node that knows two of them
abbrev mainnet : Sdk
mainnet = record toy {
  pubkey = small_key;
  new_client = λ url.
      (small_key "B91piBSfCBRs5rUxCMRdJEGv7tNEnFxweWcdQJHJoFpi", an_account 7 [] 0)
      ∷ (small_key "6gAnjderE13TGGFeqdPVQ438jp2FPVeyXAszxKu9y338", an_account 8 [] 0)
      ∷ [];
}

-- the directory of the three programs
abbrev elfs : Environment
elfs = record workspace {
  read_dir = λ directory. some (
      some (entry "token22.so" (some (1 ∷ [])))
      ∷ some (entry "tokenkeg.so" (some (2 ∷ [])))
      ∷ some (entry "associated_token.so" (some (3 ∷ [])))
      ∷ []);
}

lookup_order_passes : test_account_lookup_order toy true 70 workspace no_files ≡ ok true
unfolding test_account_lookup_order new load_builtins is_sysvar load_program_from_bytes
    load_program_from_bytes_with_loader build_program airdrop account_maybe add_u64 Scenario.get
    account account_must load_scenario try_find_workspace_root from_file insert_account
lookup_order_passes = refl

missing_account_passes : test_missing_account_without_rpc toy workspace no_files ≡ true
unfolding test_missing_account_without_rpc new load_builtins is_sysvar load_program_from_bytes
    load_program_from_bytes_with_loader build_program account_maybe Scenario.get account
    account_must load_scenario try_find_workspace_root from_file try_fetch_from_rpc
missing_account_passes = refl

load_from_environment_passes : test_load_from_environment toy 70 71 72 elfs no_files ≡ ok true
unfolding test_load_from_environment new load_builtins is_sysvar load_program_from_bytes
    load_program_from_bytes_with_loader build_program try_find_workspace_root program_directory
    load_program_from_environment
load_from_environment_passes = refl

scenario_loading_passes : test_scenario_loading mainnet workspace no_files ≡ ok tt
unfolding test_scenario_loading new_with_config new load_builtins is_sysvar load_program_from_bytes
    load_program_from_bytes_with_loader build_program account_maybe Scenario.get account
    account_must load_scenario try_find_workspace_root from_file_with_rpc try_fetch_from_rpc
    Persist.drop write_file document_into account_of_json from_object to_document
scenario_loading_passes = refl
