-- ===== src/Tests/Environments.antt =====
-- The small instance in an environment: a workspace at "w/", with a directory of programs.
use Prim.Native.String.{String}
use seashell.Prelude.{◌≡◌, refl, true, false, Option, none, some, List, [], ◌∷◌, ◌++◌, map}
use seashell.Outcome.{ok, no_workspace_root, pure, ◌>>=◌}
use seashell.Instruction.{Pubkey, Bytes}
use seashell.Scenario.{Scenario, get}
use seashell.Scenario.Persist.{from_file, read_entries, drop}
use seashell.Scenario.Durable.{run}
use seashell.Seashell.{Seashell, load_program_from_bytes}
use seashell.Seashell.Environment.{
  Environment, DirEntry, World, scenario_path, try_find_workspace_root, load_scenario,
  program_directory, load_program_from_environment,
}
use seashell.Seashell.Environment.Scenarios.{load_scenario_saves, load_scenario_fails}
use seashell.Seashell.Environment.Deployed.{load_program_found, load_program_missing}
use seashell.Tests.Toy.{toy}
use seashell.Tests.Laws.{toy_persistable}
use seashell.Tests.Database.{db, node}
use seashell.Tests.Running.{shell}
use seashell.Tests.Saving.{no_files, fresh, online, calls}

abbrev pub entry : String → Option Bytes → DirEntry
entry name contents = record { file_name = name; contents = contents }

abbrev before : List DirEntry
before = entry "other.so" none ∷ []

abbrev after : List DirEntry
after = entry "vault.json" (some (1 ∷ [])) ∷ []

abbrev listing : List (Option DirEntry)
listing = map some before ++ (some (entry "vault.so" (some (127 ∷ []))) ∷ map some after)

abbrev pub workspace : Environment
workspace = record {
  cargo = none;
  sbf_out_dir = none;
  rpc_url = none;
  locate_project = λ cargo. some (record { success = true; root = some (some "w/Cargo.toml") });
  read_dir = λ directory. some listing;
}

-- Cargo cannot be run.
abbrev nowhere : Environment
nowhere = record workspace { locate_project = λ cargo. none; sbf_out_dir = some "out" }

abbrev saved_shell : Seashell toy
saved_shell = record (shell false) { accounts_db = record db { scenario = run toy calls online } }

abbrev switched : World toy
switched = (
  record (shell false) {
    accounts_db = record db { scenario = record fresh { path = some "w/scenarios/b.json.gz" } };
  },
  drop toy (run toy calls online) no_files,
)

load_scenario_saves_example :
    (t : Scenario toy) × (root : String) × (try_find_workspace_root workspace ≡ ok (some root))
    × (from_file toy "scenarios/a.json.gz" false switched.1 ≡ ok t)
    × ((k : Pubkey) → get toy t k ≡ get toy (run toy calls online) k)
    × (read_entries toy (scenario_path root "b") no_files ≡ ok [])
unfolding load_scenario from_file read_entries try_find_workspace_root
load_scenario_saves_example =
    load_scenario_saves toy workspace "b" saved_shell no_files toy_persistable "scenarios/a.json.gz"
      false calls (some node) fresh switched refl refl refl refl

abbrev stuck : World toy
stuck = (saved_shell, no_files)

load_scenario_fails_example : (load_scenario toy nowhere "b" stuck).1 ≡ stuck
unfolding load_scenario try_find_workspace_root
load_scenario_fails_example =
    load_scenario_fails toy nowhere "b" stuck (load_scenario toy nowhere "b" stuck).1
      no_workspace_root refl

load_program_found_example :
    load_program_from_environment toy workspace "vault" 70 (shell false)
    ≡ (load_program_from_bytes toy 70 (127 ∷ []) >>= λ _. pure none) (shell false)
unfolding program_directory try_find_workspace_root
load_program_found_example =
    load_program_found toy "vault" 70 workspace "w/target/deploy" (shell false) refl before after
      (entry "vault.so" (some (127 ∷ []))) (127 ∷ []) refl refl refl refl refl

load_program_missing_example :
    load_program_from_environment toy
      (record nowhere { read_dir = λ d. some (map some before) })
      "vault"
      70
      (shell false)
    ≡ (ok none, shell false)
unfolding program_directory
load_program_missing_example =
    load_program_missing toy "vault" 70 (record nowhere { read_dir = λ d. some (map some before) })
      "out" (shell false) refl before refl refl
