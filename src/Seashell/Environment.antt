-- ===== src/Seashell/Environment.antt =====
-- crates/seashell-core/src/seashell.rs: the methods that read the process's environment, and the
-- error type of crates/seashell-core/src/error.rs that one of them returns. A method's state is the
-- seashell with the file system, since replacing a scenario drops the old one.
pub mod Scenarios
pub mod Deployed
use Prim.Native.String.{String, len, ◌++◌, slice}
use text.Mathlib.Text.{◌==◌ as str_eq}
use mathlib.Core.Option.{get_or}
use seashell.Prelude.{
  ℕ, ◌-◌, Bool, true, false, ◌&&◌, ◌||◌, not, Option, none, some, List, [], ◌∷◌, if◌then◌else◌,
}
use seashell.Outcome.{
  Result, then_ok, ok, panic, unwrap_none, unwrap_err, no_workspace_root, no_rpc_url, Exec,
  continue, ◌>>=◌, pure, lift, expect,
}
use seashell.Instruction.{Pubkey, Bytes}
use seashell.Sdk.{Sdk}
use seashell.Files.{Files}
use seashell.Scenario.{Scenario, rpc_only}
use seashell.Scenario.Persist.{from_file, from_file_with_rpc, drop}
use seashell.Seashell.{Seashell, load_program_from_bytes}

-- `SeashellError`; the payload of an I/O error is not looked at
pub data SeashellError : Type 0 where
  io_error : SeashellError
  custom : String → SeashellError

-- An entry of a directory: its name, and what `std::fs::read` gives.
pub record DirEntry : Type 0 where
  pub file_name : String
  pub contents : Option Bytes

-- The output of `cargo locate-project --workspace`. `root` is what `serde_json` makes of it: none
-- if it is no JSON, and none inside if `parsed["root"]` is no string.
pub record Output : Type 0 where
  pub success : Bool
  pub root : Option (Option String)

-- The variables that are set, the command that is run, and the directories.
pub record Environment : Type 0 where
  pub cargo : Option String
  pub sbf_out_dir : Option String
  pub rpc_url : Option String
  pub locate_project : String → Option Output
  pub read_dir : String → Option (List (Option DirEntry))

-- `text.ends_with(suffix)` and `text.strip_suffix(suffix)`
abbrev pub ends_with : String → String → Bool
ends_with text suffix = str_eq (slice text (len text - len suffix) (len text)) suffix

abbrev pub strip_suffix : String → String → Option String
strip_suffix text suffix =
    if ends_with text suffix then some (slice text 0 (len text - len suffix)) else none

-- `root.join(path)` for a relative path
abbrev pub join : String → String → String
join root path = if str_eq root "" || ends_with root "/" then root ++ path else root ++ "/" ++ path

unfoldable pub try_find_workspace_root : Environment → Result (Option String)
try_find_workspace_root env = elim (env.locate_project (get_or env.cargo "cargo")) [
  | none ↦ ok none
  | some output ↦
      if output.success
      then then_ok (expect unwrap_err output.root)
          (λ root. then_ok (expect unwrap_none root) (λ text. ok (strip_suffix text "Cargo.toml")))
      else ok none
]

-- the directory that is searched
unfoldable pub program_directory : Environment → Result (Option String)
program_directory env = elim env.sbf_out_dir [
  | some directory ↦ ok (some directory)
  | none ↦
      then_ok (try_find_workspace_root env)
        λ found. ok (elim found [ none ↦ none | some root ↦ some (join root "target/deploy") ])
]

-- Whether the entry's name has the stem `program_name` and the extension `so`; a name that begins
-- with its only dot has no extension.
abbrev pub is_program : String → DirEntry → Bool
is_program program_name entry =
    not (str_eq program_name "") && str_eq entry.file_name (program_name ++ ".so")

abbrev pub scenario_path : String → String → String
scenario_path root name = join root ("scenarios/" ++ name ++ ".json.gz")

module _ (sdk : Sdk) where
  abbrev pub World : Type 0
  World = Seashell sdk × Files

  -- `self.accounts_db.scenario = scenario`, which drops the old one
  abbrev pub replace_scenario : Scenario sdk → Exec World (Unit {0})
  replace_scenario scenario (s, fs) = (
    ok tt,
    (
      record s { accounts_db = record (s.accounts_db) { scenario = scenario } },
      drop sdk s.accounts_db.scenario fs,
    ),
  )

  abbrev pub read_scenario : Environment → String → Bool → Files → Result (Scenario sdk)
  read_scenario env path allow fs = elim env.rpc_url [
    | some url ↦ from_file_with_rpc sdk path url allow fs
    | none ↦ from_file sdk path allow fs
  ]

  unfoldable pub load_scenario : Environment → String → Exec World (Unit {0})
  load_scenario env name w =
      continue
        (then_ok (try_find_workspace_root env) λ found.
          then_ok (expect no_workspace_root found) λ root.
            read_scenario env (scenario_path root name)
              w.0.config.allow_uninitialized_accounts_fetched w.1)
        w replace_scenario

  unfoldable pub load_temporary_scenario : Environment → Exec World (Unit {0})
  load_temporary_scenario env w =
      continue (expect no_rpc_url env.rpc_url) w
        λ url. replace_scenario (rpc_only sdk url w.0.config.allow_uninitialized_accounts_fetched)

  -- what the loop returns early, or `Ok(())`
  abbrev pub Outcome : Type 0
  Outcome = Option SeashellError

  -- the loop over the entries
  unfoldable pub load_entries :
      String → Pubkey → List (Option DirEntry) → Exec (Seashell sdk) Outcome
  load_entries program_name program_id [] = pure none
  load_entries program_name program_id (none ∷ entries) = pure (some io_error)
  load_entries program_name program_id (some entry ∷ entries) =
      if is_program program_name entry
      then elim entry.contents [
        | none ↦ pure (some io_error)
        | some bytes ↦ load_program_from_bytes sdk program_id bytes >>= λ _.
            load_entries program_name program_id entries
      ]
      else load_entries program_name program_id entries

  unfoldable pub load_program_from_environment :
      Environment → String → Pubkey → Exec (Seashell sdk) Outcome
  unfolding load_entries
  load_program_from_environment env program_name program_id =
      lift (program_directory env) >>= λ found. elim found [
        | none ↦ pure (some (custom "Could not locate workspace root"))
        | some directory ↦ elim (env.read_dir directory) [
          | none ↦ pure (some io_error)
          | some entries ↦ load_entries program_name program_id entries
        ]
      ]
