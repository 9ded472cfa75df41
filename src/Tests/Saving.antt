-- ===== src/Tests/Saving.antt =====
-- A scenario of the small instance that is saved and loaded again.
use mathlib.Core.List.{Permᴰ}
use seashell.Prelude.{◌≡◌, refl, true, false, none, some, List, [], ◌∷◌}
use seashell.Outcome.{ok}
use seashell.Instruction.{Pubkey}
use seashell.Files.{absent, Files}
use seashell.Scenario.{Scenario, get}
use seashell.Scenario.Persist.{from_file, read_entries, try_write_json_gz, drop}
use seashell.Scenario.Durable.{Call, run}
use seashell.Scenario.Reload.{reload}
use seashell.Scenario.Order.{from_file-any_order}
use seashell.Tests.Encodings.{an_account}
use seashell.Tests.Toy.{toy}
use seashell.Tests.Database.{node}
use seashell.Tests.Laws.{toy_persistable}

abbrev pub no_files : Files
no_files = record { entry = λ p. absent; can_write = λ p. true }

abbrev pub fresh : Scenario toy
fresh = record {
  should_persist = true;
  allow_uninitialized_accounts = false;
  dirty = false;
  entries = [];
  path = some "scenarios/a.json.gz";
  rpc_client = none;
}

abbrev pub online : Scenario toy
online = record fresh { rpc_client = some node }

-- an insertion, a fetch of an account that the node knows, and another insertion
abbrev pub calls : List (Call toy)
calls =
    Call.insert_call 50 (an_account 5 (1 ∷ 2 ∷ []) 0)
    ∷ Call.fetch 42
    ∷ Call.insert_call 51 (an_account 6 [] 9)
    ∷ []

reload_example :
    (t : Scenario toy) × (from_file toy "scenarios/a.json.gz" false
        (drop toy (run toy calls online) no_files)
      ≡ ok t)
    × (t.rpc_client ≡ none)
    × ((k : Pubkey) → get toy t k ≡ get toy (run toy calls online) k)
unfolding from_file read_entries
reload_example =
    reload toy toy_persistable "scenarios/a.json.gz" no_files false calls (some node) fresh refl
      refl

abbrev two : Scenario toy
two = record fresh { entries = (50, an_account 5 [] 0) ∷ (51, an_account 6 [] 9) ∷ [] }

from_file-any_order_example :
    (t : Scenario toy) × (from_file toy "a.json.gz" true (
        try_write_json_gz toy "a.json.gz"
          ((51, an_account 6 [] 9) ∷ (50, an_account 5 [] 0) ∷ [])
          no_files)
      ≡ ok t)
    × ((k : Pubkey) → get toy t k ≡ get toy two k)
unfolding from_file read_entries
from_file-any_order_example =
    from_file-any_order toy toy_persistable "a.json.gz" no_files true two
      ((51, an_account 6 [] 9) ∷ (50, an_account 5 [] 0) ∷ []) (refl, (refl, tt))
      (Permᴰ.swap refl refl) refl
