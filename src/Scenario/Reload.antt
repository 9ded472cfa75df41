-- ===== src/Scenario/Reload.antt =====
-- The persistence of a scenario: what a run has cached is there when the scenario has been dropped
-- and its file is loaded again.
use Prim.Native.String.{String}
use mathlib.Core.Option
use seashell.Prelude.{
  ◌≡◌, refl, ap, ◌∙◌, Bool, true, false, ◌&&◌, Option, none, some, List, [], arith, if◌then◌else◌,
}
use seashell.Prelude.Map.{Map, lookup, collect_into, HasDistinctKeys, collect_into-HasDistinctKeys}
use seashell.Outcome.{Result, ok, panic}
use seashell.Instruction.{Pubkey, Bytes}
use seashell.Sdk.{Sdk, Account}
use seashell.Files.{Files, write_file, entry-write_file}
use seashell.Scenario.{Scenario, get}
use seashell.Scenario.Json.{to_document, IsTextual, document_into-to_document}
use seashell.Scenario.Persist.{
  open_read, map_values, read_json_gz, try_write_json_gz, read_entries, from_file, write_entries,
  drop,
}
use seashell.Scenario.Durable.{
  with_client, with_client-IsDurable, lookup-map_values, map_values-HasDistinctKeys,
  lookup-collected, Holds, IsDurable, Call, run, run-IsDurable, from_file-IsDurable,
}

-- What is documented of the conversions and of the file format: each is undone by its inverse.
pub record IsPersistable (sdk : Sdk) : Type 0 where
  pub text : IsTextual sdk
  pub from-to_account : (x : sdk.Shared) → sdk.from_account (sdk.to_account x) ≡ x
  pub from-to_json_gz :
      (m : Map Account)
      → sdk.from_json_gz (sdk.to_json_gz (to_document sdk m)) ≡ some (to_document sdk m)

module _ (sdk : Sdk) where
  open sdk use {Shared, from_account, to_account, to_json_gz}

  abbrev pub loaded_with : Map Shared → String → Bool → Scenario sdk
  loaded_with m path allow = record {
    should_persist = true;
    allow_uninitialized_accounts = allow;
    dirty = false;
    entries = m;
    path = some path;
    rpc_client = none;
  }

  pub from_file-loaded :
      (path : String) (allow : Bool) (fs : Files) (m : Map Shared)
      → read_entries sdk path fs ≡ ok m
      → from_file sdk path allow fs ≡ ok (loaded_with m path allow)
  unfolding from_file
  from_file-loaded path allow fs m read = rw read

  module _ (laws : IsPersistable sdk) (path : String) (fs : Files) where
    abbrev pub written : Map Account → Files
    written accounts = write_file path (to_json_gz (to_document sdk accounts)) fs

    open_read-written : (b : Bytes) → open_read path (write_file path b fs) ≡ ok b
    unfolding open_read
    open_read-written b = rw (entry-write_file, open_read)

    pub read_json_gz-written :
        (accounts : Map Account)
        → read_json_gz sdk path (written accounts) ≡ ok (collect_into [] accounts)
    unfolding read_json_gz
    read_json_gz-written accounts = ground (
      arith,
      open_read-written (to_json_gz (to_document sdk accounts)),
      laws.from-to_json_gz accounts,
      document_into-to_document sdk laws.text accounts [],
    )

    pub map-converted : (o : Option Shared) → Option.map from_account (Option.map to_account o) ≡ o
    map-converted none = refl
    map-converted (some x) = ap some (laws.from-to_account x)

    -- The accounts of a map, converted and collected twice, are found as in the map.
    lookup-converted :
        (m : Map Shared) (k : Pubkey)
        → HasDistinctKeys m
        → lookup k (
            collect_into [] (
              map_values from_account
                (collect_into [] (collect_into [] (map_values to_account m)))))
          ≡ lookup k m
    lookup-converted m k h =
        let once = map_values to_account m in
        let distinct = map_values-HasDistinctKeys to_account m h in
        let twice = collect_into [] once in
        let thrice = collect_into [] twice in
        let distinct' = collect_into-HasDistinctKeys once [] tt in
        let distinct'' = collect_into-HasDistinctKeys twice [] tt in
        lookup-collected k (map_values from_account thrice)
          (map_values-HasDistinctKeys from_account thrice distinct'')
        ∙ lookup-map_values from_account k thrice
        ∙ ap (Option.map from_account) (
            lookup-collected k twice distinct'
            ∙ lookup-collected k once distinct
            ∙ lookup-map_values to_account k m)
        ∙ map-converted (lookup k m)

    read-written :
        (m : Map Shared)
        → HasDistinctKeys m
        → Holds sdk (read_entries sdk path (written (collect_into [] (map_values to_account m)))) m
    unfolding read_entries
    read-written m h =
        let once = collect_into [] (map_values to_account m) in
        rw (entry-write_file, read_json_gz-written once) (λ k. lookup-converted m k h)

    -- `drop`, on the fields of the scenario
    drop_fields-Holds :
        (dirty should_persist : Bool) (o : Option String) (m : Map Shared)
        → should_persist ≡ true
        → o ≡ some path
        → HasDistinctKeys m
        → fs.can_write path ≡ true
        → (dirty ≡ false → Holds sdk (read_entries sdk path fs) m)
        → Holds sdk
            (read_entries sdk path
              (if dirty && should_persist then write_entries sdk o m fs else fs))
            m
    unfolding try_write_json_gz
    drop_fields-Holds false sp o m p l h w synced = synced refl
    drop_fields-Holds true sp o m p l h w synced = rw (p, l, write_entries, w) (read-written m h)

    drop-Holds :
        (s : Scenario sdk)
        → IsDurable sdk path fs s
        → fs.can_write path ≡ true
        → Holds sdk (read_entries sdk path (drop sdk s fs)) s.entries
    unfolding drop
    drop-Holds s h w =
        drop_fields-Holds s.dirty s.should_persist s.path s.entries h.persists h.located h.distinct
          w h.synced

    Holds-ok :
        (r : Result (Map Shared)) (n : Map Shared)
        → Holds sdk r n
        → (m : Map Shared) × (r ≡ ok m) × ((k : Pubkey) → lookup k m ≡ lookup k n)
    Holds-ok (ok m) n h = (m, refl, h)
    Holds-ok (panic p) n h = absurd h

    -- A durable scenario is dropped, and its file is loaded.
    pub IsDurable-reload :
        (allow : Bool) (s : Scenario sdk)
        → IsDurable sdk path fs s
        → fs.can_write path ≡ true
        → (t : Scenario sdk) × (from_file sdk path allow (drop sdk s fs) ≡ ok t)
          × (t.rpc_client ≡ none)
          × ((k : Pubkey) → get sdk t k ≡ get sdk s k)
    unfolding get
    IsDurable-reload allow s durable w =
        let (m, read, same) =
          Holds-ok (read_entries sdk path (drop sdk s fs)) s.entries (drop-Holds s durable w) in
        (loaded_with m path allow, from_file-loaded path allow (drop sdk s fs) m read, refl, same)

    -- Load a scenario from a file (or from none), with or without an RPC node, make any fetches and
    -- insertions, drop it, and load it again without a node: if the file can be written, loading
    -- succeeds, and every account is found as it was before the drop.
    pub reload :
        (allow : Bool) (calls : List (Call sdk)) (client : Option sdk.RpcClient) (s : Scenario sdk)
        → from_file sdk path allow fs ≡ ok s
        → fs.can_write path ≡ true
        → let s' = run sdk calls (with_client sdk client s) in
          (t : Scenario sdk) × (from_file sdk path allow (drop sdk s' fs) ≡ ok t)
          × (t.rpc_client ≡ none)
          × ((k : Pubkey) → get sdk t k ≡ get sdk s' k)
    reload allow calls client s loaded w =
        let first =
          with_client-IsDurable sdk path fs client s
            (from_file-IsDurable sdk path fs allow loaded) in
        IsDurable-reload allow (run sdk calls (with_client sdk client s))
          (run-IsDurable sdk path fs calls (with_client sdk client s) first) w
