-- ===== src/Seashell/Environment/Scenarios.antt =====
-- Scenarios that are replaced: what is saved, and what the new one holds.
use Prim.Native.String.{String}
use mathlib.Core.Path.{subst}
use seashell.Prelude.{
  ◌≡◌, refl, sym, ap, ◌∙◌, Bool, true, Option, some, List, Option-cases, inl, inr,
}
use seashell.Outcome.{
  Panic, Result, ok, panic, then_ok, then_ok-eq-ok, continue, expect, no_workspace_root,
  Result-cases, expect-eq-ok, ok-injective,
}
use seashell.Instruction.{Pubkey}
use seashell.Sdk.{Sdk}
use seashell.Files.{Files}
use seashell.Scenario.{Scenario, get}
use seashell.Scenario.Persist.{from_file, from_file_with_rpc, read_entries}
use seashell.Scenario.Durable.{with_client, Call, run}
use seashell.Scenario.Reload.{IsPersistable, reload}
use seashell.Seashell.{Seashell}
use seashell.Seashell.Environment.{
  Environment, World, try_find_workspace_root, scenario_path, read_scenario, replace_scenario,
  load_scenario,
}

module _ (sdk : Sdk) where
  from_file-entries :
      (path : String) (allow : Bool) (fs : Files) (sc : Scenario sdk)
      → from_file sdk path allow fs ≡ ok sc
      → read_entries sdk path fs ≡ ok sc.entries
  unfolding from_file
  from_file-entries path allow fs sc e = elim (Result-cases (read_entries sdk path fs)) [
    | inl (m, read) ↦
        read ∙ ap ok (ap (λ (t : Scenario sdk). t.entries) (ok-injective (rw read at e)))
    | inr (p, failed) ↦ absurd (cc)
  ]

  from_file_with_rpc-entries :
      (path url : String) (allow : Bool) (fs : Files) (sc : Scenario sdk)
      → from_file_with_rpc sdk path url allow fs ≡ ok sc
      → read_entries sdk path fs ≡ ok sc.entries
  unfolding from_file_with_rpc
  from_file_with_rpc-entries path url allow fs sc e =
      elim (Result-cases (from_file sdk path allow fs)) [
        | inl (t, read) ↦
            from_file-entries path allow fs t read
            ∙ ap ok (ap (λ (u : Scenario sdk). u.entries) (ok-injective (rw read at e)))
        | inr (p, failed) ↦ absurd (cc)
      ]

  pub read_scenario-entries :
      (env : Environment) (path : String) (allow : Bool) (fs : Files) (sc : Scenario sdk)
      → read_scenario sdk env path allow fs ≡ ok sc
      → read_entries sdk path fs ≡ ok sc.entries
  read_scenario-entries env path allow fs sc e = elim (Option-cases env.rpc_url) [
    | inl unset ↦ from_file-entries path allow fs sc (rw unset at e)
    | inr (url, set) ↦ from_file_with_rpc-entries path url allow fs sc (rw set at e)
  ]

  -- The two ways that a replacement ends.
  replaced :
      (r : Result (Scenario sdk)) (w w' : World sdk)
      → continue r w (replace_scenario sdk) ≡ (ok tt, w')
      → (sc : Scenario sdk) × (r ≡ ok sc) × ((replace_scenario sdk sc w).1 ≡ w')
  replaced (ok sc) w w' e = (sc, refl, ap (λ (p : Result (Unit {0}) × World sdk). p.1) e)
  replaced (panic p) w w' e = absurd (cc)

  not_replaced :
      (r : Result (Scenario sdk)) (w w' : World sdk) (p : Panic)
      → continue r w (replace_scenario sdk) ≡ (panic p, w')
      → w' ≡ w
  not_replaced (ok sc) w w' p e = absurd (cc)
  not_replaced (panic q) w w' p e = sym (ap (λ (p : Result (Unit {0}) × World sdk). p.1) e)

  module _ (env : Environment) (name : String) where
    -- If loading a scenario panics (there is no workspace, or the file cannot be read), the old
    -- scenario stays in place, and no file is written.
    pub load_scenario_fails :
        (w w' : World sdk) (p : Panic) → load_scenario sdk env name w ≡ (panic p, w') → w' ≡ w
    unfolding load_scenario
    load_scenario_fails w w' p e = not_replaced _ w w' p e

    module _ (s : Seashell sdk) (fs : Files) where
      abbrev pub reading : String → Result (Scenario sdk)
      reading root =
          read_scenario sdk env (scenario_path root name)
            s.config.allow_uninitialized_accounts_fetched fs

      abbrev pub rooted : Option String → Result (Scenario sdk)
      rooted found = then_ok (expect no_workspace_root found) reading

      pub root_of :
          (sc : Scenario sdk)
          → then_ok (try_find_workspace_root env) rooted ≡ ok sc
          → (root : String) × (try_find_workspace_root env ≡ ok (some root))
            × (reading root ≡ ok sc)
      root_of sc e =
          let (found, at_root, e') = then_ok-eq-ok (try_find_workspace_root env) rooted e in
          let (root, is_root, e'') = then_ok-eq-ok (expect no_workspace_root found) reading e' in
          (root, at_root ∙ ap ok (expect-eq-ok no_workspace_root found is_root), e'')

      -- Load a scenario from a file that can be written, with or without an RPC node, make any fetches and insertions, and then
      -- load a scenario by name: if that returns, a workspace root was found, and the first file
      -- holds every account of the old scenario. The new scenario holds what the file of the given
      -- name under that root held before the old one was saved, also if it is the same file.
      pub load_scenario_saves :
          (laws : IsPersistable sdk) (path : String) (allow : Bool) (calls : List (Call sdk))
          (client : Option sdk.RpcClient) (old : Scenario sdk) (w' : World sdk)
          → from_file sdk path allow fs ≡ ok old
          → fs.can_write path ≡ true
          → s.accounts_db.scenario ≡ run sdk calls (with_client sdk client old)
          → load_scenario sdk env name (s, fs) ≡ (ok tt, w')
          → (t : Scenario sdk) × (root : String) × (try_find_workspace_root env ≡ ok (some root))
            × (from_file sdk path allow w'.1 ≡ ok t)
            × ((k : Pubkey) → get sdk t k ≡ get sdk s.accounts_db.scenario k)
            × (read_entries sdk (scenario_path root name) fs ≡ ok w'.0.accounts_db.scenario.entries)
      unfolding load_scenario
      load_scenario_saves laws path allow calls client old w' loaded writable ran e =
          let (sc, read, after) =
            replaced (then_ok (try_find_workspace_root env) rooted) (s, fs) w' e in
          let (root, at_root, read') = root_of sc read in
          let (t, again, _, same) =
            reload sdk laws path fs allow calls client old loaded writable in
          (
            t,
            root,
            at_root,
            rw (sym after, ran) again,
            rw ran same,
            subst
                (λ (w : World sdk).
                  read_entries sdk (scenario_path root name) fs
                  ≡ ok w.0.accounts_db.scenario.entries)
                after
                (read_scenario-entries env (scenario_path root name)
                  s.config.allow_uninitialized_accounts_fetched fs sc read'),
          )
