-- ===== src/Scenario/Order.antt =====
-- A scenario that is written in whatever order the `HashMap` is iterated.
use Prim.Native.String.{String}
use mathlib.Core.List.{Permᴰ}
use mathlib.Core.Option
use seashell.Prelude.{◌≡◌, ap, ◌∙◌, Bool, true, []}
use seashell.Prelude.Map.{Map, lookup, collect_into, HasDistinctKeys, collect_into-HasDistinctKeys}
use seashell.Prelude.Order.{lookup-any_order}
use seashell.Outcome.{ok}
use seashell.Instruction.{Pubkey}
use seashell.Sdk.{Sdk, Account}
use seashell.Files.{Files, entry-write_file}
use seashell.Scenario.{Scenario, get}
use seashell.Scenario.Persist.{map_values, try_write_json_gz, read_entries, from_file}
use seashell.Scenario.Durable.{lookup-map_values, map_values-HasDistinctKeys, lookup-collected}
use seashell.Scenario.Reload.{
  IsPersistable, written, read_json_gz-written, from_file-loaded, loaded_with, map-converted,
}

module _ (sdk : Sdk) (laws : IsPersistable sdk) (path : String) (fs : Files) where
  open sdk use {Shared, from_account, to_account}

  abbrev read_back : Map Account → Map Shared
  read_back q = collect_into [] (map_values from_account (collect_into [] q))

  read_entries-written :
      (q : Map Account) → read_entries sdk path (written sdk laws path fs q) ≡ ok (read_back q)
  unfolding read_entries
  read_entries-written q = rw (entry-write_file, read_json_gz-written sdk laws path fs q)

  lookup-read_back :
      (m : Map Shared) (q : Map Account)
      → HasDistinctKeys m
      → Permᴰ (map_values to_account m) q
      → (k : Pubkey) → lookup k (read_back q) ≡ lookup k m
  lookup-read_back m q h order k =
      let (distinct, same) = lookup-any_order order (map_values-HasDistinctKeys to_account m h) in
      let collected = collect_into [] q in
      lookup-collected k (map_values from_account collected)
        (map_values-HasDistinctKeys from_account collected (collect_into-HasDistinctKeys q [] tt))
      ∙ lookup-map_values from_account k collected
      ∙ ap (Option.map from_account)
          (lookup-collected k q distinct ∙ same k ∙ lookup-map_values to_account k m)
      ∙ map-converted sdk laws path fs (lookup k m)

  -- If the accounts of a scenario are written to a file that can be written, in any order, then
  -- loading the file gives a scenario in which every key has the account that it had.
  pub from_file-any_order :
      (allow : Bool) (s : Scenario sdk) (q : Map Account)
      → HasDistinctKeys s.entries
      → Permᴰ (map_values to_account s.entries) q
      → fs.can_write path ≡ true
      → (t : Scenario sdk) × (from_file sdk path allow (try_write_json_gz sdk path q fs) ≡ ok t)
        × ((k : Pubkey) → get sdk t k ≡ get sdk s k)
  unfolding try_write_json_gz get
  from_file-any_order allow s q distinct order can = rw can (
    loaded_with sdk (read_back q) path allow,
    from_file-loaded sdk path allow (written sdk laws path fs q) (read_back q)
        (read_entries-written q),
    lookup-read_back s.entries q distinct order,
  )
