-- ===== src/AccountsDb/OnlyPrograms.antt =====
-- crates/seashell-core/src/accounts_db.rs: databases in which all accounts are programs, as the
-- loaders make them.
use seashell.Prelude.{
  ◌≡◌, refl, ◌∙◌, true, false, Option, none, some, List, [], ◌∷◌, All, arith, ◌==◌, if◌then◌else◌,
  Bool-cases, inl, inr,
}
use seashell.Prelude.Map.{lookup, insert, kept, HasDistinctKeys, lookup-insert}
use seashell.Outcome.{ok, pure, Result-cases}
use seashell.Outcome.Keeps.{Keeps, Keeps-pure, Keeps-if, Keeps-bind}
use seashell.Outcome.Triple.{Triple, Triple-bind, Triple-keeps}
use seashell.Instruction.{Pubkey, Bytes}
use seashell.Sdk.{Sdk, Builtin}
use seashell.Scenario
use seashell.Scenario.{default_scenario}
use seashell.Sysvars.{is_sysvar}
use seashell.AccountsDb.{
  AccountsDb, account_maybe, set_account, replenish_programs, native_account, enabled, load_builtin,
  load_each_builtin, load_builtins, build_program, load_program_from_bytes_with_loader,
  clear_non_program_accounts,
}
use seashell.AccountsDb.Reads.{account_maybe-clear}
use seashell.AccountsDb.Programs.{HasExecutable, build_program-executable}

module _ (sdk : Sdk) (laws : HasExecutable sdk) where
  open sdk use {
    Shared, ProgramEntry, Entrypoint, FeatureSet, ComputeBudget, is_executable, new_shared,
    native_loader_id,
  }

  -- Nothing is in the scenario, all accounts are programs, and each key has one.
  pub record OnlyPrograms (ks : List Pubkey) (db : AccountsDb sdk) : Type 0 where
    pub scenario : db.scenario ≡ default_scenario sdk
    pub programs :
        (k : Pubkey) (x : Shared) → lookup k db.accounts ≡ some x → is_executable x ≡ true
    pub present : All (λ k. (x : Shared) × (lookup k db.accounts ≡ some x)) ks

  present-insert :
      (ks : List Pubkey) (k : Pubkey) (x : Shared) (db : AccountsDb sdk)
      → All (λ j. (y : Shared) × (lookup j db.accounts ≡ some y)) ks
      → All (λ j. (y : Shared) × (lookup j (insert k x db.accounts) ≡ some y)) ks
  present-insert [] k x db h = tt
  present-insert (j ∷ ks) k x db ((y, here), rest) = (
    (if j == k then x else y, ground (arith, lookup-insert j k x db.accounts)),
    present-insert ks k x db rest,
  )

  inserted :
      (ks : List Pubkey) (k : Pubkey) (x : Shared) (db : AccountsDb sdk)
      → is_executable x ≡ true
      → OnlyPrograms ks db
      → OnlyPrograms (k ∷ ks) (record db { accounts = insert k x db.accounts })
  inserted ks k x db program h = record {
    scenario = h.scenario;
    programs = λ j y found. ground (arith, lookup-insert j k x db.accounts, h.programs j y);
    present =
        ((x, ground (arith, lookup-insert k k x db.accounts)), present-insert ks k x db h.present);
  }

  fewer :
      (ks : List Pubkey) (k : Pubkey) (db : AccountsDb sdk)
      → OnlyPrograms (k ∷ ks) db
      → OnlyPrograms ks db
  fewer ks k db h = record { scenario = h.scenario; programs = h.programs; present = h.present.1 }

  -- A program is written to a sysvar or to the accounts.
  pub set_account-Keeps :
      (ks : List Pubkey) (k : Pubkey) (x : Shared)
      → is_executable x ≡ true
      → Keeps (OnlyPrograms ks) (set_account sdk k x)
  unfolding set_account
  set_account-Keeps ks k x program = record {
    at = λ db h. elim (Bool-cases (is_sysvar sdk k)) [
      | inl sysvar ↦
          rw sysvar (record { scenario = h.scenario; programs = h.programs; present = h.present })
      | inr other ↦ rw other (fewer ks k _ (inserted ks k x db program h))
    ];
  }

  set_account-adds :
      (ks : List Pubkey) (k : Pubkey) (x : Shared)
      → is_executable x ≡ true
      → is_sysvar sdk k ≡ false
      → Triple (OnlyPrograms ks) (set_account sdk k x) (λ _. OnlyPrograms (k ∷ ks))
  unfolding set_account
  set_account-adds ks k x program other = record {
    by = λ db h. rw other (inserted ks k x db program h);
  }

  replenish-Keeps :
      (ks : List Pubkey) (k : Pubkey) (e : ProgramEntry)
      → Keeps (OnlyPrograms ks) (replenish_programs sdk k e)
  replenish-Keeps ks k e = record {
    at = λ db h. record { scenario = h.scenario; programs = h.programs; present = h.present };
  }

  pub native-executable : is_executable (native_account sdk) ≡ true
  native-executable = laws.executable-set (new_shared 1 0 native_loader_id) true

  load_builtin-Keeps :
      (ks : List Pubkey) (features : FeatureSet) (b : Builtin Entrypoint)
      → Keeps (OnlyPrograms ks) (load_builtin sdk features b)
  unfolding load_builtin
  load_builtin-Keeps ks features b =
      Keeps-if (enabled sdk features b.enable_feature_id) _ (pure tt)
        (Keeps-bind _ _ (replenish-Keeps ks b.program_id _)
          (λ _. set_account-Keeps ks b.program_id (native_account sdk) native-executable))
        (Keeps-pure tt)

  load_each_builtin-Keeps :
      (ks : List Pubkey) (features : FeatureSet) (bs : List (Builtin Entrypoint))
      → Keeps (OnlyPrograms ks) (load_each_builtin sdk features bs)
  unfolding load_each_builtin
  load_each_builtin-Keeps ks features [] = Keeps-pure tt
  load_each_builtin-Keeps ks features (b ∷ bs) =
      Keeps-bind _ _ (load_builtin-Keeps ks features b)
        (λ _. load_each_builtin-Keeps ks features bs)

  pub load_builtins-Keeps :
      (ks : List Pubkey) (features : FeatureSet)
      → Keeps (OnlyPrograms ks) (load_builtins sdk features)
  unfolding load_builtins
  load_builtins-Keeps ks features = load_each_builtin-Keeps ks features sdk.builtins

  -- The program that is loaded is there.
  pub load_program-adds :
      (ks : List Pubkey) (k : Pubkey) (bytes : Bytes) (loader : Pubkey) (features : FeatureSet)
      (budget : ComputeBudget)
      → is_sysvar sdk k ≡ false
      → Triple
          (OnlyPrograms ks)
          (load_program_from_bytes_with_loader sdk k bytes loader features budget)
          (λ _. OnlyPrograms (k ∷ ks))
  unfolding load_program_from_bytes_with_loader
  load_program-adds ks k bytes loader features budget other = record {
    by = λ db h. elim (Result-cases (build_program sdk k bytes loader features budget db)) [
      | inl (built, made) ↦
          let program =
            build_program-executable sdk laws k bytes loader features budget db built made in
          let written =
            Triple-bind _ _ (set_account-adds ks k built.0 program other)
              (λ _. Triple-keeps _ (replenish-Keeps (k ∷ ks) k built.1)) in
          rw made (written.by db h)
      | inr (p, failed) ↦ rw failed tt
    ];
  }

  -- The key reads a program.
  abbrev pub Runs : Pubkey → AccountsDb sdk → Type 0
  Runs k db = (x : Shared) × (is_executable x ≡ true) × (account_maybe sdk db k ≡ ok (some x))

  pub runs :
      (ks : List Pubkey) (k : Pubkey) (db : AccountsDb sdk)
      → is_sysvar sdk k ≡ false
      → OnlyPrograms ks db
      → (x : Shared) × (lookup k db.accounts ≡ some x)
      → Runs k db
  unfolding account_maybe Scenario.get
  runs ks k db other h (x, found) = (x, h.programs k x found, rw (other, h.scenario, found) refl)

  kept-programs :
      (o : Option Shared)
      → ((x : Shared) → o ≡ some x → is_executable x ≡ true)
      → kept is_executable o ≡ o
  kept-programs none h = refl
  kept-programs (some x) h = rw (h x refl) refl

  pub clear-reads :
      (ks : List Pubkey) (k : Pubkey) (db : AccountsDb sdk)
      → HasDistinctKeys db.accounts
      → OnlyPrograms ks db
      → account_maybe sdk (clear_non_program_accounts sdk db) k ≡ account_maybe sdk db k
  unfolding account_maybe
  clear-reads ks k db distinct h =
      account_maybe-clear sdk db k distinct
      ∙ ground (arith, kept-programs (lookup k db.accounts) (h.programs k))
