-- ===== src/AccountsDb/Programs.antt =====
-- Programs that have been loaded into the database.
use mathlib.Core.Path.{subst}
use seashell.Prelude.{
  ◌≡◌, ◌∙◌, Bool, true, false, none, some, arith, inl, inr, length, Option-cases,
}
use seashell.Prelude.Map.{lookup-insert}
use seashell.Outcome.{Panic, ok, panic, Exec, Result-cases}
use seashell.Instruction.{Pubkey, Bytes}
use seashell.Sdk.{Sdk}
use seashell.Scenario
use seashell.Sysvars.{is_sysvar}
use seashell.AccountsDb.{
  AccountsDb, account_maybe, set_account, replenish_programs, build_program,
  clear_non_program_accounts, load_program_from_bytes_with_loader,
}
use seashell.AccountsDb.Invariant.{IsWellFormed, IsWellFormed-Closed}
use seashell.AccountsDb.Closed.{load_program-Closed}
use seashell.AccountsDb.Reads.{account_maybe-clear}

-- What is documented of the executable flag: it is what it was set to.
pub record HasExecutable (sdk : Sdk) : Type 0 where
  pub executable-set : (x : sdk.Shared) (b : Bool) → sdk.is_executable (sdk.set_executable x b) ≡ b

module _ (sdk : Sdk) (laws : HasExecutable sdk) (k : Pubkey) (bytes : Bytes) (loader : Pubkey)
    (features : sdk.FeatureSet) (budget : sdk.ComputeBudget) (db : AccountsDb sdk) where
  open sdk use {
    Shared, ProgramEntry, is_executable, new_shared, set_executable, minimum_balance,
    create_environment, new_entry,
  }

  abbrev load : Exec (AccountsDb sdk) (Unit {0})
  load = load_program_from_bytes_with_loader sdk k bytes loader features budget

  pub build_program-executable :
      (built : Shared × ProgramEntry)
      → build_program sdk k bytes loader features budget db ≡ ok built
      → is_executable built.0 ≡ true
  unfolding build_program
  build_program-executable built e = elim (Option-cases (create_environment features budget)) [
    | inl missing ↦ absurd (ground arith)
    | inr (environment, found) ↦
        elim (Option-cases (
          new_entry loader environment db.sysvars.clock.slot db.sysvars.clock.slot bytes
            (length bytes))) [
              | inl missing ↦ absurd (ground arith)
              | inr (entry, made) ↦ ground (
                arith,
                laws.executable-set
                    (new_shared (minimum_balance db.sysvars.rent (length bytes)) (length bytes)
                      loader)
                    true,
              )
            ]
  ]

  -- The database afterwards.
  abbrev after : Shared × ProgramEntry → AccountsDb sdk
  after built = (replenish_programs sdk k built.1 (set_account sdk k built.0 db).1).1

  load_program-after :
      (built : Shared × ProgramEntry)
      → is_sysvar sdk k ≡ false
      → build_program sdk k bytes loader features budget db ≡ ok built
      → load db ≡ (ok tt, after built)
  unfolding load_program_from_bytes_with_loader set_account
  load_program-after built plain made = rw (made, plain)

  after-reads :
      (built : Shared × ProgramEntry)
      → is_sysvar sdk k ≡ false
      → Scenario.get sdk db.scenario k ≡ none
      → account_maybe sdk (after built) k ≡ ok (some built.0)
  unfolding account_maybe set_account
  after-reads built plain absent = ground (arith, lookup-insert k k built.0 db.accounts)

  after-cleared :
      (built : Shared × ProgramEntry)
      → IsWellFormed sdk (after built)
      → is_sysvar sdk k ≡ false
      → Scenario.get sdk db.scenario k ≡ none
      → is_executable built.0 ≡ true
      → account_maybe sdk (clear_non_program_accounts sdk (after built)) k ≡ ok (some built.0)
  unfolding set_account
  after-cleared built well plain absent executable =
      account_maybe-clear sdk (after built) k well.account_keys
      ∙ ground (arith, lookup-insert k k built.0 db.accounts)

  load_program-panics :
      (p : Panic)
      → build_program sdk k bytes loader features budget db ≡ panic p
      → (load db).0 ≡ panic p
  unfolding load_program_from_bytes_with_loader
  load_program-panics p failed = rw failed

  -- In a well-formed database, a program of a key that is no sysvar and that the scenario does
  -- not have: once loading it has returned, the key reads an executable account, and still does
  -- after the accounts of no program have been cleared.
  pub load_program_survives :
      IsWellFormed sdk db
      → is_sysvar sdk k ≡ false
      → Scenario.get sdk db.scenario k ≡ none
      → (load db).0 ≡ ok tt
      → (x : Shared) × (is_executable x ≡ true)
        × (account_maybe sdk (load db).1 k ≡ ok (some x))
        × (account_maybe sdk (clear_non_program_accounts sdk (load db).1) k ≡ ok (some x))
  load_program_survives well plain absent returned =
      elim (Result-cases (build_program sdk k bytes loader features budget db)) [
        | inl (built, made) ↦
            let e = load_program-after built plain made in
            let executable = build_program-executable built made in
            let well' =
              (load_program-Closed sdk (IsWellFormed-Closed sdk) k bytes loader features budget).at
                db well in
            (
              built.0,
              executable,
              rw e (after-reads built plain absent),
              rw e (
                  after-cleared built (subst (λ t. IsWellFormed sdk t.1) e well') plain absent
                    executable),
            )
        | inr (p, failed) ↦ absurd (cc (load_program-panics p failed))
      ]
