-- ===== src/Seashell/Reachable.antt =====
-- The seashells that the methods of `Seashell` lead to from `new_with_config`.
use Prim.Native.String.{String}
use seashell.Prelude.{◌≡◌, refl}
use seashell.Prelude.Map.{HasDistinctKeys}
use seashell.Outcome.{Result, ok, panic, continue, then_ok, modify, expect, no_rpc_url}
use seashell.Outcome.Keeps.{Keeps-bind, continue_rule}
use seashell.Sdk.{Sdk}
use seashell.Files.{Files}
use seashell.Scenario.{Scenario, rpc_only}
use seashell.Scenario.Durable.{read_entries-HasDistinctKeys}
use seashell.AccountsDb.Invariant.{IsWellFormed-Closed}
use seashell.Seashell.{Seashell, Config, default_seashell, new, new_with_config}
use seashell.Seashell.Environment
use seashell.Seashell.Environment.{
  load_entries, program_directory, DirEntry, Outcome, is_program, try_find_workspace_root,
  Environment, World, replace_scenario, read_scenario, scenario_path, load_temporary_scenario,
  load_program_from_environment,
}
use seashell.Seashell.Environment.Scenarios.{read_scenario-entries, rooted, root_of}
use seashell.Seashell.Invariant.{
  IsSound, load_spl-KeepsWhole, load_precompiles-KeepsWhole, load_builtins-KeepsWhole,
}
use seashell.Seashell.Steps.{
  local_step, load_scenario, load_temporary, Step, Reach, here, next, LocalStep-Whole,
}

module _ (sdk : Sdk) where
  -- A scenario without a key twice takes the place of the old one.
  replace_scenario-IsSound :
      (sc : Scenario sdk) (w : World sdk)
      → HasDistinctKeys sc.entries
      → IsSound sdk w.0
      → IsSound sdk (replace_scenario sdk sc w).1.0
  replace_scenario-IsSound sc w distinct h = record {
    well = record {
      scenario_keys = distinct;
      account_keys = h.well.account_keys;
      no_sysvars = h.well.no_sysvars;
    };
    same_features = h.same_features;
    same_budget = h.same_budget;
  }

  read_then_replace-IsSound :
      (r : Result (Scenario sdk)) (w : World sdk)
      → ((sc : Scenario sdk) → r ≡ ok sc → HasDistinctKeys sc.entries)
      → IsSound sdk w.0
      → IsSound sdk (continue r w (replace_scenario sdk)).1.0
  read_then_replace-IsSound (panic p) w distinct h = h
  read_then_replace-IsSound (ok sc) w distinct h =
      replace_scenario-IsSound sc w (distinct sc refl) h

  load_scenario-IsSound :
      (env : Environment) (name : String) (w : World sdk)
      → IsSound sdk w.0
      → IsSound sdk (Environment.load_scenario sdk env name w).1.0
  unfolding Environment.load_scenario
  load_scenario-IsSound env name w h =
      read_then_replace-IsSound
        (then_ok (try_find_workspace_root env) (rooted sdk env name w.0 w.1)) w
        (λ sc read.
          let (root, at_root, read') = root_of sdk env name w.0 w.1 sc read in
          read_entries-HasDistinctKeys sdk (scenario_path root name) w.1 (
            read_scenario-entries sdk env (scenario_path root name)
              w.0.config.allow_uninitialized_accounts_fetched w.1 sc read'))
        h

  load_temporary-IsSound :
      (env : Environment) (w : World sdk)
      → IsSound sdk w.0
      → IsSound sdk (load_temporary_scenario sdk env w).1.0
  unfolding load_temporary_scenario rpc_only
  load_temporary-IsSound env w h =
      continue_rule {P = λ (v : World sdk). IsSound sdk v.0} (expect no_rpc_url env.rpc_url) _
        (λ url. record {
          at = λ v h.
              replace_scenario-IsSound
                (rpc_only sdk url w.0.config.allow_uninitialized_accounts_fetched) v tt h;
        })
        w h

  pub new-IsSound : IsSound sdk (new sdk).1
  unfolding new
  new-IsSound =
      (Keeps-bind _ _
          (Keeps-bind _ _
            (load_builtins-KeepsWhole sdk (IsWellFormed-Closed sdk) sdk.all_enabled
              sdk.default_budget)
            (λ _.
              load_spl-KeepsWhole sdk (IsWellFormed-Closed sdk) sdk.all_enabled sdk.default_budget))
          (λ _.
            load_precompiles-KeepsWhole sdk (IsWellFormed-Closed sdk) sdk.all_enabled
              sdk.default_budget)).at
        (default_seashell sdk)
        (record {
          well = record { scenario_keys = tt; account_keys = tt; no_sysvars = λ k h. refl };
          same_features = refl;
          same_budget = refl;
        })

  new_with_config-IsSound : (config : Config) → IsSound sdk (new_with_config sdk config).1
  unfolding new_with_config
  new_with_config-IsSound config =
      continue_rule {P = IsSound sdk} (new sdk).0
        (λ _. modify (λ (t : Seashell sdk). record t { config = config }))
        (λ _. record {
          at = λ s h. record {
            well = h.well;
            same_features = h.same_features;
            same_budget = h.same_budget;
          };
        })
        (new sdk).1 new-IsSound

  Step-IsSound : (w w' : World sdk) → Step sdk w w' → IsSound sdk w.0 → IsSound sdk w'.0
  Step-IsSound w w' (local_step st e) h =
      LocalStep-Whole sdk (IsWellFormed-Closed sdk) sdk.all_enabled sdk.default_budget w.0 w'.0 st h
  Step-IsSound w w' (load_scenario env name e) h = rw e (load_scenario-IsSound env name w h)
  Step-IsSound w w' (load_temporary env e) h = rw e (load_temporary-IsSound env w h)

  -- Whatever methods are called after `new_with_config`, and also if some of them panic: the
  -- database is well formed (no key stands twice in the scenario or among the accounts, and no
  -- sysvar among the accounts), and the features and the budget are those of `new`.
  pub Reach-IsSound :
      (config : Config) (fs : Files) (w : World sdk)
      → Reach sdk ((new_with_config sdk config).1, fs) w
      → IsSound sdk w.0
  Reach-IsSound config fs w here = new_with_config-IsSound config
  Reach-IsSound config fs w (next {u} {v} r st) = Step-IsSound u v st (Reach-IsSound config fs u r)
