-- ===== src/AccountsDb/Reachable.antt =====
-- The databases that calls of the methods of `AccountsDb` lead to.
use seashell.Prelude.{ℕ, refl, Bool, List, [], ◌∷◌}
use seashell.Prelude.Int.{ℤ}
use seashell.Prelude.Map.{HasDistinctKeys}
use seashell.Instruction.{Pubkey, Bytes, Instruction}
use seashell.Sdk.{Sdk}
use seashell.Scenario.{Scenario}
use seashell.AccountsDb
use seashell.AccountsDb.{AccountsDb, default_accounts_db, load_program_from_bytes_with_loader}
use seashell.AccountsDb.Invariant.{IsWellFormed, IsWellFormed-Closed}
use seashell.AccountsDb.Closed.{
  account_must-Closed, accounts_for_instruction-Closed, set_accounts-Closed, load_builtins-Closed,
  load_program-Closed,
}

-- A call of a method that changes the database.
pub data Operation (sdk : Sdk) : Type 0 where
  clear : Operation sdk
  warp : ℕ → ℤ → Operation sdk
  account_must : Pubkey → Operation sdk
  accounts_for_instruction : Bool → Instruction → Operation sdk
  set_account : Pubkey → sdk.Shared → Operation sdk
  set_accounts : List (Pubkey × sdk.Shared) → Operation sdk
  load_builtins : sdk.FeatureSet → Operation sdk
  load_program : Pubkey → Bytes → Pubkey → sdk.FeatureSet → sdk.ComputeBudget → Operation sdk

module _ (sdk : Sdk) where
  -- The database after the call, which may have panicked.
  unfoldable pub run_one : Operation sdk → AccountsDb sdk → AccountsDb sdk
  run_one Operation.clear db = AccountsDb.clear_non_program_accounts sdk db
  run_one (Operation.warp slot timestamp) db = AccountsDb.warp sdk slot timestamp db
  run_one (Operation.account_must k) db = (AccountsDb.account_must sdk k db).1
  run_one (Operation.accounts_for_instruction allow ixn) db =
      (AccountsDb.accounts_for_instruction sdk allow ixn db).1
  run_one (Operation.set_account k x) db = (AccountsDb.set_account sdk k x db).1
  run_one (Operation.set_accounts updates) db = (AccountsDb.set_accounts sdk updates db).1
  run_one (Operation.load_builtins features) db = (AccountsDb.load_builtins sdk features db).1
  run_one (Operation.load_program k bytes loader features budget) db =
      (load_program_from_bytes_with_loader sdk k bytes loader features budget db).1

  unfoldable pub run_all : List (Operation sdk) → AccountsDb sdk → AccountsDb sdk
  run_all [] db = db
  run_all (operation ∷ rest) db = run_all rest (run_one operation db)

  -- a database that nothing has been written to, with the given scenario
  abbrev pub new_database : Scenario sdk → AccountsDb sdk
  new_database scenario = record (default_accounts_db sdk) { scenario = scenario }

  run_one-IsWellFormed :
      (operation : Operation sdk) (db : AccountsDb sdk)
      → IsWellFormed sdk db
      → IsWellFormed sdk (run_one operation db)
  unfolding run_one
  run_one-IsWellFormed Operation.clear db h = (IsWellFormed-Closed sdk).cleared db h
  run_one-IsWellFormed (Operation.warp slot timestamp) db h =
      (IsWellFormed-Closed sdk).warped slot timestamp db h
  run_one-IsWellFormed (Operation.account_must k) db h =
      (account_must-Closed sdk (IsWellFormed-Closed sdk) k).at db h
  run_one-IsWellFormed (Operation.accounts_for_instruction allow ixn) db h =
      (accounts_for_instruction-Closed sdk (IsWellFormed-Closed sdk) allow ixn).at db h
  run_one-IsWellFormed (Operation.set_account k x) db h =
      ((IsWellFormed-Closed sdk).written k x).at db h
  run_one-IsWellFormed (Operation.set_accounts updates) db h =
      (set_accounts-Closed sdk (IsWellFormed-Closed sdk) updates).at db h
  run_one-IsWellFormed (Operation.load_builtins features) db h =
      (load_builtins-Closed sdk (IsWellFormed-Closed sdk) features).at db h
  run_one-IsWellFormed (Operation.load_program k bytes loader features budget) db h =
      (load_program-Closed sdk (IsWellFormed-Closed sdk) k bytes loader features budget).at db h

  run_all-IsWellFormed :
      (operations : List (Operation sdk)) (db : AccountsDb sdk)
      → IsWellFormed sdk db
      → IsWellFormed sdk (run_all operations db)
  unfolding run_all
  run_all-IsWellFormed [] db h = h
  run_all-IsWellFormed (operation ∷ rest) db h =
      run_all-IsWellFormed rest (run_one operation db) (run_one-IsWellFormed operation db h)

  -- Whatever methods are called on a new database, and also if some of them panic: no key stands
  -- twice among the accounts or in the scenario, and no sysvar's key stands among the accounts.
  pub reachable-IsWellFormed :
      (operations : List (Operation sdk)) (scenario : Scenario sdk)
      → HasDistinctKeys scenario.entries
      → IsWellFormed sdk (run_all operations (new_database scenario))
  reachable-IsWellFormed operations scenario distinct =
      run_all-IsWellFormed operations (new_database scenario)
        (record { scenario_keys = distinct; account_keys = tt; no_sysvars = λ k h. refl })
