-- ===== src/Scenario/Persist.antt =====
-- crates/seashell-core/src/scenario.rs: the constructors that read a file, and `Drop`, which writes
-- it. What is printed on standard error is left out, and so is a failure of `serde_json` after
-- the file was opened: maps of this shape are always encoded.
use Prim.Native.String.{String}
use seashell.Prelude.{Bool, true, false, ◌&&◌, Option, none, some, [], ◌∷◌, if◌then◌else◌}
use seashell.Prelude.Map.{Map, collect_into}
use seashell.Outcome.{Result, then_ok, ok, panic, failed_to_open, unwrap_err, expect}
use seashell.Instruction.{Bytes}
use seashell.Sdk.{Sdk, Account}
use seashell.Files.{file, Files, exists, write_file}
use seashell.Scenario.{Scenario}
use seashell.Scenario.Json.{to_document, from_document}

unfoldable pub open_read : String → Files → Result Bytes
open_read path fs = elim (fs.entry path) [ file b ↦ ok b | _ ↦ panic failed_to_open ]

-- `iter.map(|(k, v)| (k, f(v)))`
abbrev pub map_values {ℓ κ} : {V : Type ℓ} {W : Type κ} → (V → W) → Map V → Map W
map_values f [] = []
map_values f ((k, v) ∷ m) = (k, f v) ∷ map_values f m

module _ (sdk : Sdk) where
  open sdk use {Shared, from_account, to_account, new_client, to_json_gz, from_json_gz}

  -- `serde_json::from_reader(bytes)` at `SerializableScenario`
  abbrev decode : Bytes → Option (Map Account)
  decode b = elim (from_json_gz b) [ none ↦ none | some doc ↦ from_document sdk doc ]

  unfoldable pub read_json_gz : String → Files → Result (Map Account)
  unfolding open_read
  read_json_gz path fs = then_ok (open_read path fs) λ b. expect unwrap_err (decode b)

  unfoldable pub try_write_json_gz : String → Map Account → Files → Files
  try_write_json_gz path accounts fs =
      if fs.can_write path then write_file path (to_json_gz (to_document sdk accounts)) fs else fs

  -- the `if path.exists()` of `from_file`
  unfoldable pub read_entries : String → Files → Result (Map Shared)
  unfolding read_json_gz
  read_entries path fs =
      if exists (fs.entry path)
      then then_ok (read_json_gz path fs)
          (λ accounts. ok (collect_into [] (map_values from_account accounts)))
      else ok []

  unfoldable pub from_file : String → Bool → Files → Result (Scenario sdk)
  unfolding read_entries
  from_file path allow fs = then_ok (read_entries path fs) λ entries. ok (record {
    should_persist = true;
    allow_uninitialized_accounts = allow;
    dirty = false;
    entries = entries;
    path = some path;
    rpc_client = none;
  })

  unfoldable pub from_file_with_rpc : String → String → Bool → Files → Result (Scenario sdk)
  unfolding from_file
  from_file_with_rpc path rpc_url allow fs =
      then_ok (from_file path allow fs)
        λ scenario. ok (record scenario { rpc_client = some (new_client rpc_url) })

  -- the `if let Some(path)` of `drop`
  abbrev pub write_entries : Option String → Map Shared → Files → Files
  write_entries none entries fs = fs
  write_entries (some path) entries fs =
      try_write_json_gz path (collect_into [] (map_values to_account entries)) fs

  -- `impl Drop for Scenario`
  unfoldable pub drop : Scenario sdk → Files → Files
  unfolding try_write_json_gz
  drop s fs = if s.dirty && s.should_persist then write_entries s.path s.entries fs else fs
