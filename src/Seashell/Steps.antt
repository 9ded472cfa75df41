-- ===== src/Seashell/Steps.antt =====
-- The methods of `Seashell` as steps, with the files beside it, since replacing a scenario writes
-- one; and what a step that replaces no scenario keeps.
use Prim.Native.String.{String}
use seashell.Prelude.{ℕ, ◌≡◌, Bool, Option, none, some, List, [], ◌∷◌}
use seashell.Prelude.Int.{as_i64}
use seashell.Outcome.Keeps.{Keeps, Keeps-lift, Keeps-pure, Keeps-if, Keeps-option, Keeps-bind}
use seashell.Instruction.{Pubkey, Bytes, Instruction}
use seashell.Sdk.{Sdk, Account}
use seashell.AccountsDb.{AccountsDb}
use seashell.AccountsDb.Closed.{Closed}
use seashell.Seashell
use seashell.Seashell.{Seashell, Config, default_seashell, new, new_with_config}
use seashell.Seashell.Process.{process_instruction}
use seashell.Seashell.Environment
use seashell.Seashell.Environment.{
  load_entries, program_directory, DirEntry, Outcome, is_program, try_find_workspace_root,
  Environment, World, replace_scenario, read_scenario, scenario_path, load_temporary_scenario,
  load_program_from_environment,
}
use seashell.Seashell.Invariant.{
  Whole, set_account-KeepsWhole, set_shared-KeepsWhole, account-KeepsWhole, airdrop-KeepsWhole,
  load_program-KeepsWhole, load_spl-KeepsWhole, use_p_token-KeepsWhole, load_precompiles-KeepsWhole,
  process_instruction-KeepsWhole,
}

module _ (sdk : Sdk) where
  -- A call of a method of the seashell alone leads from one state to another; it may have panicked.
  pub data LocalStep (s s' : Seashell sdk) : Type 0 where
    set_account :
        (k : Pubkey) (a : Account) → s' ≡ (Seashell.set_account sdk k a s).1 → LocalStep s s'
    set_shared :
        (k : Pubkey) (x : sdk.Shared)
        → s' ≡ (Seashell.set_account_from_account_shared_data sdk k x s).1
        → LocalStep s s'
    account : (k : Pubkey) → s' ≡ (Seashell.account sdk k s).1 → LocalStep s s'
    airdrop :
        (checks : Bool) (k : Pubkey) (amount : ℕ)
        → s' ≡ (Seashell.airdrop sdk checks k amount s).1
        → LocalStep s s'
    process : (ixn : Instruction) → s' ≡ (process_instruction sdk ixn s).1 → LocalStep s s'
    clear : s' ≡ Seashell.clear_non_program_accounts sdk s → LocalStep s s'
    warp : (slot timestamp : ℕ) → s' ≡ Seashell.warp sdk slot timestamp s → LocalStep s s'
    collect_logs : s' ≡ Seashell.enable_log_collector sdk s → LocalStep s s'
    load_program :
        (program_id : Pubkey) (bytes : Bytes)
        → s' ≡ (Seashell.load_program_from_bytes sdk program_id bytes s).1
        → LocalStep s s'
    load_spl : s' ≡ (Seashell.load_spl sdk s).1 → LocalStep s s'
    use_p_token : s' ≡ (Seashell.use_p_token sdk s).1 → LocalStep s s'
    load_precompiles : s' ≡ (Seashell.load_precompiles sdk s).1 → LocalStep s s'
    load_deployed :
        (env : Environment) (name : String) (program_id : Pubkey)
        → s' ≡ (load_program_from_environment sdk env name program_id s).1
        → LocalStep s s'

  -- A call leads from one world to another: only the loading of a scenario writes files.
  pub data Step (w w' : World sdk) : Type 0 where
    local_step : LocalStep w.0 w'.0 → w'.1 ≡ w.1 → Step w w'
    load_scenario :
        (env : Environment) (name : String)
        → w' ≡ (Environment.load_scenario sdk env name w).1
        → Step w w'
    load_temporary : (env : Environment) → w' ≡ (load_temporary_scenario sdk env w).1 → Step w w'

  pub data Reach (w : World sdk) : World sdk → Type 0 where
    here : Reach w w
    next : {u v : World sdk} → Reach w u → Step u v → Reach w v

module _ (sdk : Sdk) {P : AccountsDb sdk → Type 0} (closed : Closed sdk P)
    (features : sdk.FeatureSet) (budget : sdk.ComputeBudget) where
  load_entries-KeepsWhole :
      (name : String) (program_id : Pubkey) (entries : List (Option DirEntry))
      → Keeps (Whole sdk P features budget) (load_entries sdk name program_id entries)
  unfolding load_entries
  load_entries-KeepsWhole name program_id [] = Keeps-pure none
  load_entries-KeepsWhole name program_id (none ∷ entries) = Keeps-pure _
  load_entries-KeepsWhole name program_id (some entry ∷ entries) =
      Keeps-if (is_program name entry) _ _
        (Keeps-option entry.contents _ _ (Keeps-pure _) (λ bytes.
          Keeps-bind _ _ (load_program-KeepsWhole sdk closed features budget program_id bytes)
            (λ _. load_entries-KeepsWhole name program_id entries)))
        (load_entries-KeepsWhole name program_id entries)

  load_deployed-KeepsWhole :
      (env : Environment) (name : String) (program_id : Pubkey)
      → Keeps (Whole sdk P features budget) (load_program_from_environment sdk env name program_id)
  unfolding load_program_from_environment
  load_deployed-KeepsWhole env name program_id =
      Keeps-bind _ _ (Keeps-lift (program_directory env)) (λ found.
        Keeps-option found _ _ (Keeps-pure _) (λ directory.
          Keeps-option (env.read_dir directory) _ _ (Keeps-pure _)
            (load_entries-KeepsWhole name program_id)))

  pub LocalStep-Whole :
      (s s' : Seashell sdk)
      → LocalStep sdk s s'
      → Whole sdk P features budget s
      → Whole sdk P features budget s'
  unfolding Seashell.clear_non_program_accounts Seashell.warp Seashell.enable_log_collector
  LocalStep-Whole s s' (LocalStep.set_account k a e) h =
      rw e ((set_account-KeepsWhole sdk closed features budget k a).at s h)
  LocalStep-Whole s s' (LocalStep.set_shared k x e) h =
      rw e ((set_shared-KeepsWhole sdk closed features budget k x).at s h)
  LocalStep-Whole s s' (LocalStep.account k e) h =
      rw e ((account-KeepsWhole sdk closed features budget k).at s h)
  LocalStep-Whole s s' (LocalStep.airdrop checks k amount e) h =
      rw e ((airdrop-KeepsWhole sdk closed features budget checks k amount).at s h)
  LocalStep-Whole s s' (LocalStep.process ixn e) h =
      rw e ((process_instruction-KeepsWhole sdk closed features budget ixn).at s h)
  LocalStep-Whole s s' (LocalStep.clear e) h = rw e (record {
    well = closed.cleared s.accounts_db h.well;
    same_features = h.same_features;
    same_budget = h.same_budget;
  })
  LocalStep-Whole s s' (LocalStep.warp slot timestamp e) h = rw e (record {
    well = closed.warped slot (as_i64 timestamp) s.accounts_db h.well;
    same_features = h.same_features;
    same_budget = h.same_budget;
  })
  LocalStep-Whole s s' (LocalStep.collect_logs e) h =
      rw e (record { well = h.well; same_features = h.same_features; same_budget = h.same_budget })
  LocalStep-Whole s s' (LocalStep.load_program program_id bytes e) h =
      rw e ((load_program-KeepsWhole sdk closed features budget program_id bytes).at s h)
  LocalStep-Whole s s' (LocalStep.load_spl e) h =
      rw e ((load_spl-KeepsWhole sdk closed features budget).at s h)
  LocalStep-Whole s s' (LocalStep.use_p_token e) h =
      rw e ((use_p_token-KeepsWhole sdk closed features budget).at s h)
  LocalStep-Whole s s' (LocalStep.load_precompiles e) h =
      rw e ((load_precompiles-KeepsWhole sdk closed features budget).at s h)
  LocalStep-Whole s s' (LocalStep.load_deployed env name program_id e) h =
      rw e ((load_deployed-KeepsWhole env name program_id).at s h)
