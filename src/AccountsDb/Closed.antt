-- ===== src/AccountsDb/Closed.antt =====
-- Properties of the database that its primitive changes keep: every method keeps them, also one
-- that panics.
use seashell.Prelude.{ℕ, Bool, List, [], ◌∷◌, length}
use seashell.Prelude.Int.{ℤ}
use seashell.Outcome.{◌>>◌, pure}
use seashell.Outcome.Keeps.{Keeps, Keeps-pure, Keeps-if, Keeps-bind, continue_rule}
use seashell.Instruction.{Pubkey, Bytes, Instruction}
use seashell.Sdk.{Sdk, Builtin}
use seashell.AccountsDb.LoadKeeps
use seashell.AccountsDb.{
  AccountsDb, fetch, account_must, accounts_for_instruction, clear_non_program_accounts, warp,
  set_account, set_accounts, replenish_programs, native_account, enabled, load_builtin,
  load_each_builtin, load_builtins, build_program, load_program_from_bytes_with_loader,
}

pub record Closed (sdk : Sdk) (P : AccountsDb sdk → Type 0) : Type 0 where
  pub fetched : (k : Pubkey) → Keeps P (fetch sdk k)
  pub written : (k : Pubkey) (x : sdk.Shared) → Keeps P (set_account sdk k x)
  pub replenished : (k : Pubkey) (e : sdk.ProgramEntry) → Keeps P (replenish_programs sdk k e)
  pub cleared : (db : AccountsDb sdk) → P db → P (clear_non_program_accounts sdk db)
  pub warped :
      (slot : ℕ) (timestamp : ℤ) (db : AccountsDb sdk) → P db → P (warp sdk slot timestamp db)

module _ (sdk : Sdk) {P : AccountsDb sdk → Type 0} (closed : Closed sdk P) where
  open sdk use {Shared, FeatureSet, ComputeBudget, Entrypoint, builtins, new_builtin}

  pub account_must-Closed : (k : Pubkey) → Keeps P (account_must sdk k)
  account_must-Closed = LoadKeeps.account_must-KeepsP sdk P closed.fetched

  pub accounts_for_instruction-Closed :
      (allow : Bool) (ixn : Instruction) → Keeps P (accounts_for_instruction sdk allow ixn)
  accounts_for_instruction-Closed = LoadKeeps.accounts_for_instruction-Keeps sdk P closed.fetched

  pub set_accounts-Closed : (updates : List (Pubkey × Shared)) → Keeps P (set_accounts sdk updates)
  unfolding set_accounts
  set_accounts-Closed [] = Keeps-pure tt
  set_accounts-Closed ((k, x) ∷ updates) =
      Keeps-bind _ _ (closed.written k x) (λ _. set_accounts-Closed updates)

  load_builtin-Closed :
      (features : FeatureSet) (b : Builtin Entrypoint) → Keeps P (load_builtin sdk features b)
  unfolding load_builtin
  load_builtin-Closed features b =
      let entry = new_builtin 0 (length b.name) b.entrypoint in
      Keeps-if (enabled sdk features b.enable_feature_id)
        (replenish_programs sdk b.program_id entry
          >> set_account sdk b.program_id (native_account sdk))
        (pure tt)
        (Keeps-bind _ _ (closed.replenished b.program_id entry)
          (λ _. closed.written b.program_id (native_account sdk)))
        (Keeps-pure tt)

  load_each_builtin-Closed :
      (features : FeatureSet) (bs : List (Builtin Entrypoint))
      → Keeps P (load_each_builtin sdk features bs)
  unfolding load_each_builtin
  load_each_builtin-Closed features [] = Keeps-pure tt
  load_each_builtin-Closed features (b ∷ bs) =
      Keeps-bind _ _ (load_builtin-Closed features b) (λ _. load_each_builtin-Closed features bs)

  pub load_builtins-Closed : (features : FeatureSet) → Keeps P (load_builtins sdk features)
  unfolding load_builtins
  load_builtins-Closed features = load_each_builtin-Closed features builtins

  pub load_program-Closed :
      (program_id : Pubkey) (bytes : Bytes) (loader : Pubkey) (features : FeatureSet)
      (budget : ComputeBudget)
      → Keeps P (load_program_from_bytes_with_loader sdk program_id bytes loader features budget)
  unfolding load_program_from_bytes_with_loader
  load_program-Closed program_id bytes loader features budget = record {
    at = λ db.
        continue_rule (build_program sdk program_id bytes loader features budget db) _
          (λ built.
            Keeps-bind _ _ (closed.written program_id built.0)
              (λ _. closed.replenished program_id built.1))
          db;
  }
