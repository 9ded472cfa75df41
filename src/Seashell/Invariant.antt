-- ===== src/Seashell/Invariant.antt =====
-- What every method of `Seashell` keeps, also one that panics.
use seashell.Prelude.{ℕ, ◌≡◌, Bool, Option, none, some, List, [], ◌∷◌, Bool-cases, inl, inr}
use seashell.Outcome.{Result, ok, Exec, pure, lift, expect, failed_to_borrow}
use seashell.Outcome.Keeps.{Keeps, Keeps-lift, Keeps-pure, Keeps-if, Keeps-bind, continue_rule}
use seashell.Instruction.{Pubkey, Bytes, Instruction}
use seashell.Sdk.{Sdk, Account, Precompile}
use seashell.AccountsDb
use seashell.AccountsDb.{
  AccountsDb, account_maybe, account_must, accounts_for_instruction, sysvars_for_instruction,
  enabled, native_account,
}
use seashell.AccountsDb.Invariant.{IsWellFormed}
use seashell.AccountsDb.Closed.{
  Closed, account_must-Closed, accounts_for_instruction-Closed, load_builtins-Closed,
  load_program-Closed,
}
use seashell.Seashell.{
  Seashell, on_db, set_account, set_account_from_account_shared_data, account, airdrop,
  load_program_from_bytes, load_spl, use_p_token, load_each_precompile, load_precompiles,
  callback_is_precompile,
}
use seashell.Seashell.Process.{
  Invocation, configure, invoke, memoized, write_back, post_account, post_accounts, conclude,
  finish, process_instruction,
}

-- The database has the property, and the features and the budget are these.
pub record Whole (sdk : Sdk) (P : AccountsDb sdk → Type 0) (features : sdk.FeatureSet)
    (budget : sdk.ComputeBudget) (s : Seashell sdk) : Type 0 where
  pub well : P s.accounts_db
  pub same_features : s.feature_set ≡ features
  pub same_budget : s.compute_budget ≡ budget

-- The database is well formed, and no method but `new` has chosen the features or the budget.
abbrev pub IsSound : (sdk : Sdk) → Seashell sdk → Type 0
IsSound sdk = Whole sdk (IsWellFormed sdk) sdk.all_enabled sdk.default_budget

module _ (sdk : Sdk) {P : AccountsDb sdk → Type 0} (closed : Closed sdk P)
    (features : sdk.FeatureSet) (budget : sdk.ComputeBudget) where
  open sdk use {
    Shared, TransactionContext, SysvarCache, InstructionError, lamports_of, set_lamports,
    find_index_of_account, try_borrow,
  }

  abbrev pub KeepsWhole : {A : Type 0} → Exec (Seashell sdk) A → Type 0
  KeepsWhole m = Keeps (Whole sdk P features budget) m

  -- What a method of the database keeps well formed, it keeps whole.
  on_db-KeepsWhole :
      {A : Type 0} (m : Exec (AccountsDb sdk) A) → Keeps P m → KeepsWhole (on_db sdk m)
  on_db-KeepsWhole m k = record {
    at = λ s h. record {
      well = k.at s.accounts_db h.well;
      same_features = h.same_features;
      same_budget = h.same_budget;
    };
  }

  pub set_shared-KeepsWhole :
      (k : Pubkey) (x : Shared) → KeepsWhole (set_account_from_account_shared_data sdk k x)
  unfolding set_account_from_account_shared_data
  set_shared-KeepsWhole k x = on_db-KeepsWhole (AccountsDb.set_account sdk k x) (closed.written k x)

  pub set_account-KeepsWhole : (k : Pubkey) (a : Account) → KeepsWhole (set_account sdk k a)
  unfolding set_account
  set_account-KeepsWhole k a = on_db-KeepsWhole _ (closed.written k (sdk.from_account a))

  pub account-KeepsWhole : (k : Pubkey) → KeepsWhole (account sdk k)
  unfolding account
  account-KeepsWhole k =
      Keeps-bind _ _ (on_db-KeepsWhole (account_must sdk k) (account_must-Closed sdk closed k))
        (λ x. Keeps-pure _)

  pub airdrop-KeepsWhole :
      (checks : Bool) (k : Pubkey) (amount : ℕ) → KeepsWhole (airdrop sdk checks k amount)
  unfolding airdrop
  airdrop-KeepsWhole checks k amount = record {
    at = λ s.
        continue_rule (account_maybe sdk s.accounts_db k) _
          (λ found. Keeps-bind _ _ (Keeps-lift _) (λ total. set_shared-KeepsWhole k _)) s;
  }

  pub load_program-KeepsWhole :
      (program_id : Pubkey) (bytes : Bytes)
      → KeepsWhole (load_program_from_bytes sdk program_id bytes)
  unfolding load_program_from_bytes
  load_program-KeepsWhole program_id bytes = record {
    at = λ s.
        (on_db-KeepsWhole
            (AccountsDb.load_program_from_bytes_with_loader sdk program_id bytes sdk.bpf_loader_id
              s.feature_set s.compute_budget)
            (load_program-Closed sdk closed program_id bytes sdk.bpf_loader_id s.feature_set
              s.compute_budget)).at
          s;
  }

  pub load_spl-KeepsWhole : KeepsWhole (load_spl sdk)
  unfolding load_spl
  load_spl-KeepsWhole =
      Keeps-bind _ _
        (Keeps-bind _ _ (load_program-KeepsWhole _ _) (λ _. load_program-KeepsWhole _ _))
        (λ _. load_program-KeepsWhole _ _)

  pub use_p_token-KeepsWhole : KeepsWhole (use_p_token sdk)
  unfolding use_p_token
  use_p_token-KeepsWhole = load_program-KeepsWhole _ _

  load_each_precompile-KeepsWhole : (l : List Precompile) → KeepsWhole (load_each_precompile sdk l)
  unfolding load_each_precompile
  load_each_precompile-KeepsWhole [] = Keeps-pure tt
  load_each_precompile-KeepsWhole (p ∷ l) =
      Keeps-bind _ _
        (record {
          at = λ s.
              (Keeps-if (enabled sdk s.feature_set p.feature)
                  (on_db sdk (AccountsDb.set_account sdk p.program_id (native_account sdk)))
                  (pure tt) (on_db-KeepsWhole _ (closed.written p.program_id (native_account sdk)))
                  (Keeps-pure tt)).at
                s;
        })
        (λ _. load_each_precompile-KeepsWhole l)

  pub load_precompiles-KeepsWhole : KeepsWhole (load_precompiles sdk)
  unfolding load_precompiles
  load_precompiles-KeepsWhole = load_each_precompile-KeepsWhole sdk.precompiles

  pub load_builtins-KeepsWhole :
      KeepsWhole (λ (s : Seashell sdk). on_db sdk (AccountsDb.load_builtins sdk s.feature_set) s)
  load_builtins-KeepsWhole = record {
    at = λ s.
        (on_db-KeepsWhole (AccountsDb.load_builtins sdk s.feature_set)
            (load_builtins-Closed sdk closed s.feature_set)).at
          s;
  }

  -- a function of the state that may panic
  read-KeepsWhole : {A : Type 0} (f : Seashell sdk → Result A) → KeepsWhole (λ s. lift (f s) s)
  read-KeepsWhole f = record { at = λ s h. h }

  memoized-KeepsWhole : (k : Pubkey) (x : Shared) → KeepsWhole (memoized sdk k x)
  memoized-KeepsWhole k x = record {
    at = λ s.
        (Keeps-if s.config.memoize (set_account_from_account_shared_data sdk k x) (pure tt)
            (set_shared-KeepsWhole k x) (Keeps-pure tt)).at
          s;
  }

  module _ (context : TransactionContext) where
    write_back-KeepsWhole :
        (k : Pubkey) (before : Shared) (o : Option ℕ)
        → KeepsWhole (write_back sdk context k before o)
    unfolding write_back
    write_back-KeepsWhole k before none = Keeps-pure _
    write_back-KeepsWhole k before (some i) =
        Keeps-bind _ _ (Keeps-lift (expect failed_to_borrow (try_borrow context i)))
          (λ x. Keeps-bind _ _ (memoized-KeepsWhole k x) (λ _. Keeps-pure _))

    post_accounts-KeepsWhole :
        (l : List (Pubkey × Shared)) → KeepsWhole (post_accounts sdk context l)
    unfolding post_accounts post_account
    post_accounts-KeepsWhole [] = Keeps-pure []
    post_accounts-KeepsWhole ((k, before) ∷ l) =
        Keeps-bind _ _ (write_back-KeepsWhole k before (find_index_of_account context k))
          (λ a. Keeps-bind _ _ (post_accounts-KeepsWhole l) (λ rest. Keeps-pure _))

  conclude-KeepsWhole :
      (l : List (Pubkey × Shared)) (v : Invocation sdk) (failure : Option InstructionError)
      → KeepsWhole (conclude sdk l v failure)
  unfolding conclude
  conclude-KeepsWhole l v none =
      Keeps-bind _ _ (post_accounts-KeepsWhole v.context l) (λ after. Keeps-pure _)
  conclude-KeepsWhole l v (some e) = Keeps-pure _

  logged :
      (s : Seashell sdk) (logs : Option sdk.LogCollector)
      → Whole sdk P features budget s
      → Whole sdk P features budget (record s { log_collector = logs })
  logged s logs h = record {
    well = h.well;
    same_features = h.same_features;
    same_budget = h.same_budget;
  }

  invoke-KeepsWhole :
      (ixn : Instruction) (cache : SysvarCache) (c : TransactionContext)
      → KeepsWhole (invoke sdk ixn cache c)
  unfolding invoke
  invoke-KeepsWhole ixn cache c = record {
    at = λ s h. elim (Bool-cases (callback_is_precompile sdk s ixn.program_id)) [
      | inl precompile ↦ rw precompile (logged s _ h)
      | inr program ↦ rw program (logged s _ h)
    ];
  }

  pub process_instruction-KeepsWhole :
      (ixn : Instruction) → KeepsWhole (process_instruction sdk ixn)
  unfolding process_instruction finish
  process_instruction-KeepsWhole ixn =
      Keeps-bind _ _ (read-KeepsWhole (λ s. ok s.config.allow_uninitialized_accounts_local))
        (λ allow.
          Keeps-bind _ _
            (on_db-KeepsWhole (accounts_for_instruction sdk allow ixn)
              (accounts_for_instruction-Closed sdk closed allow ixn))
            (λ l.
              Keeps-bind _ _ (read-KeepsWhole (λ s. sysvars_for_instruction sdk s.accounts_db l))
                (λ cache. Keeps-bind _ _ (read-KeepsWhole (configure sdk ixn l)) (λ context.
                  Keeps-bind _ _ (invoke-KeepsWhole ixn cache context)
                    (λ v. conclude-KeepsWhole l v v.failure)))))
