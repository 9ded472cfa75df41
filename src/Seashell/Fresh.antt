-- ===== src/Seashell/Fresh.antt =====
-- crates/seashell-core/src/seashell.rs: what `Seashell::new` leaves in the database.
use seashell.Prelude.{◌≡◌, refl, ap, false, List, [], ◌∷◌}
use seashell.Outcome.{Result, Exec, ok, pure}
use seashell.Outcome.Triple.{Ends-lift, Triple, Triple-ok, Triple-if, Triple-bind, Triple-keeps}
use seashell.Instruction.{Pubkey, Bytes}
use seashell.Sdk.{Sdk, Precompile}
use seashell.Sysvars.{is_sysvar}
use seashell.AccountsDb
use seashell.AccountsDb.{AccountsDb, account_maybe, enabled, native_account}
use seashell.AccountsDb.Programs.{HasExecutable}
use seashell.AccountsDb.OnlyPrograms.{
  OnlyPrograms, Runs, set_account-Keeps, native-executable, load_builtins-Keeps, load_program-adds,
  runs, clear-reads,
}
use seashell.Seashell.{
  Seashell, on_db, load_program_from_bytes, load_spl, load_each_precompile, load_precompiles,
  token_program_id, associated_token_program_id, token_2022_program_id, default_seashell, new,
}
use seashell.Seashell.Reachable.{new-IsSound}

module _ (sdk : Sdk) (laws : HasExecutable sdk) where
  -- the same of the whole
  abbrev Holds : List Pubkey → Seashell sdk → Type 0
  Holds ks s = OnlyPrograms sdk laws ks s.accounts_db

  on_db-Holds :
      (ks ks' : List Pubkey) (m : Exec (AccountsDb sdk) (Unit {0}))
      → Triple (OnlyPrograms sdk laws ks) m (λ _. OnlyPrograms sdk laws ks')
      → Triple (Holds ks) (on_db sdk m) (λ _. Holds ks')
  on_db-Holds ks ks' m t = record {
    by = λ s h.
        let (r, db) = m s.accounts_db in
        Ends-lift (Holds ks') (λ (d : AccountsDb sdk). record s { accounts_db = d }) r db
          (t.by s.accounts_db h);
  }

  load_program-Holds :
      (ks : List Pubkey) (k : Pubkey) (bytes : Bytes)
      → is_sysvar sdk k ≡ false
      → Triple (Holds ks) (load_program_from_bytes sdk k bytes) (λ _. Holds (k ∷ ks))
  unfolding load_program_from_bytes
  load_program-Holds ks k bytes other = record {
    by = λ s.
        (on_db-Holds ks (k ∷ ks) _ (
            load_program-adds sdk laws ks k bytes sdk.bpf_loader_id s.feature_set s.compute_budget
              other)).by
          s;
  }

  load_builtins-Holds :
      Triple
        (Holds [])
        (λ s. on_db sdk (AccountsDb.load_builtins sdk s.feature_set) s)
        (λ _. Holds [])
  load_builtins-Holds = record {
    by = λ s.
        (on_db-Holds [] [] _ (Triple-keeps _ (load_builtins-Keeps sdk laws [] s.feature_set))).by s;
  }

  load_each_precompile-Holds :
      (ks : List Pubkey) (l : List Precompile)
      → Triple (Holds ks) (load_each_precompile sdk l) (λ _. Holds ks)
  unfolding load_each_precompile
  load_each_precompile-Holds ks [] = record { by = λ s h. h }
  load_each_precompile-Holds ks (p ∷ l) =
      Triple-bind _ _
        (record {
          by = λ s.
              (Triple-if (enabled sdk s.feature_set p.feature)
                  (on_db sdk (AccountsDb.set_account sdk p.program_id (native_account sdk)))
                  (pure tt)
                  (λ _. on_db-Holds ks ks _ (
                    Triple-keeps _ (
                      set_account-Keeps sdk laws ks p.program_id (native_account sdk)
                        (native-executable sdk laws))))
                  (λ _. record { by = λ t h. h })).by
                s;
        })
        (λ _. load_each_precompile-Holds ks l)

  abbrev loaded : List Pubkey
  loaded = token_2022_program_id sdk ∷ associated_token_program_id sdk ∷ token_program_id sdk ∷ []

  default-OnlyPrograms : OnlyPrograms sdk laws [] (default_seashell sdk).accounts_db
  default-OnlyPrograms = record { scenario = refl; programs = λ k x found. cc; present = tt }

  module _ (token : is_sysvar sdk (token_program_id sdk) ≡ false)
      (associated : is_sysvar sdk (associated_token_program_id sdk) ≡ false)
      (token_2022 : is_sysvar sdk (token_2022_program_id sdk) ≡ false) where
    load_spl-Holds : Triple (Holds []) (load_spl sdk) (λ _. Holds loaded)
    unfolding load_spl
    load_spl-Holds =
        Triple-bind _ _
          (Triple-bind _ _ (load_program-Holds [] _ _ token)
            (λ _. load_program-Holds _ _ _ associated))
          (λ _. load_program-Holds _ _ _ token_2022)

    load_precompiles-Holds : Triple (Holds loaded) (load_precompiles sdk) (λ _. Holds loaded)
    unfolding load_precompiles
    load_precompiles-Holds = load_each_precompile-Holds loaded sdk.precompiles

    new-Holds : (new sdk).0 ≡ ok tt → Holds loaded (new sdk).1
    unfolding new
    new-Holds returned =
        Triple-ok {s = default_seashell sdk} {t = (new sdk).1}
          (Triple-bind _ _ (Triple-bind _ _ load_builtins-Holds (λ _. load_spl-Holds))
            (λ _. load_precompiles-Holds))
          default-OnlyPrograms (ap (λ (r : Result (Unit {0})). (r, (new sdk).1)) returned)

  -- Where the executable flag is what it was set to and the ids of the three token programs are no
  -- sysvars: once `new` has returned, they read executable accounts, and clearing the accounts of
  -- no program changes no read.
  pub new_loads :
      is_sysvar sdk (token_program_id sdk) ≡ false
      → is_sysvar sdk (associated_token_program_id sdk) ≡ false
      → is_sysvar sdk (token_2022_program_id sdk) ≡ false
      → (new sdk).0 ≡ ok tt
      → let db = (new sdk).1.accounts_db in
        Runs sdk laws (token_program_id sdk) db
        × Runs sdk laws (associated_token_program_id sdk) db
        × Runs sdk laws (token_2022_program_id sdk) db
        × ((k : Pubkey)
            → account_maybe sdk (AccountsDb.clear_non_program_accounts sdk db) k
              ≡ account_maybe sdk db k)
  new_loads token associated token_2022 returned =
      let h = new-Holds token associated token_2022 returned in
      let db = (new sdk).1.accounts_db in
      (
        runs sdk laws loaded _ db token h h.present.1.1.0,
        runs sdk laws loaded _ db associated h h.present.1.0,
        runs sdk laws loaded _ db token_2022 h h.present.0,
        λ k. clear-reads sdk laws loaded k db (new-IsSound sdk).well.account_keys h,
      )
