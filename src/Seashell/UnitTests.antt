-- ===== src/Seashell/UnitTests.antt =====
-- crates/seashell-core/src/seashell.rs, the module `tests`: the unit tests that run no program, as
-- functions of the crates, the environment and the files. The temporary directories that they make,
-- and the variable CARGO_MANIFEST_DIR, which the code does not read, are left out.
pub mod Transfers
pub mod Precompiles
pub mod Logs
pub mod Integration
use Prim.Native.String.{String}
use seashell.Prelude.{Option, Bool, true, false, ◌&&◌, ◌==◌, none, some}
use seashell.Prelude.Map.{lookup}
use seashell.Outcome.{
  Panic, Result, ok, panic, unwrap_none, unwrap_err, expect, then_ok, Exec, continue, ◌>>=◌, ◌>>◌,
  pure, lift, modify,
}
use seashell.Instruction.{Pubkey, AccountMeta}
use seashell.Sdk.{Sdk}
use seashell.Files.{Files}
use seashell.Scenario.{insert_account}
use seashell.Scenario.Persist
use seashell.Seashell.{Seashell, default_config, new, new_with_config, airdrop, account}
use seashell.Seashell.Environment.{
  Environment, World, Outcome, join, load_scenario, load_program_from_environment,
  try_find_workspace_root,
}

abbrev pub is_none {ℓ} : {A : Type ℓ} → Option A → Bool
is_none none = true
is_none (some a) = false

abbrev pub meta : Pubkey → Bool → Bool → AccountMeta
meta k signer writable = record { pubkey = k; is_signer = signer; is_writable = writable }

module _ (sdk : Sdk) where
  abbrev pub on_seashell {ℓ} : {A : Type ℓ} → Exec (Seashell sdk) A → Exec (World sdk) A
  on_seashell m w = let (r, s) = m w.0 in (r, (s, w.1))

  -- what follows `Seashell::new`
  abbrev pub from_new {ℓ} : {A : Type ℓ} → Files → Exec (World sdk) A → Result A
  from_new fs m = (continue (new sdk).0 ((new sdk).1, fs) (λ _. m)).0

  -- `unwrap`
  abbrev pub unwrapped : Outcome sdk → Result (Unit {0})
  unwrapped none = ok tt
  unwrapped (some e) = panic unwrap_err

  unfoldable pub test_account_lookup_order : Bool → Pubkey → Environment → Files → Result Bool
  test_account_lookup_order checks pubkey env fs = from_new fs (
      on_seashell (airdrop sdk checks pubkey 1000) >> on_seashell (account sdk pubkey) >>= λ first.
      load_scenario sdk env "test_override"
      >> modify (λ w. (
        record (w.0) {
          accounts_db = record (w.0.accounts_db) {
            scenario =
                insert_account sdk pubkey (sdk.new_shared 2000 0 sdk.system_program_id)
                  w.0.accounts_db.scenario;
          };
        },
        w.1,
      ))
      >> on_seashell (account sdk pubkey)
      >>= λ second. pure ((first.lamports == 1000) && (second.lamports == 2000)))

  -- the messages that contain "Account not found"
  abbrev is_expected : Panic → Bool
  is_expected Panic.account_not_found = true
  is_expected (Panic.account_not_found_for k) = true
  is_expected Panic.rpc_not_configured = true
  is_expected _ = false

  abbrev panicked {ℓ} : {A : Type ℓ} → Result A → Bool
  panicked (ok a) = false
  panicked (panic p) = is_expected p

  unfoldable pub test_missing_account_without_rpc : Environment → Files → Bool
  test_missing_account_without_rpc env fs = panicked (
      from_new fs (
        load_scenario sdk (record env { rpc_url = none }) "test_no_rpc"
        >> on_seashell (account sdk (sdk.pubkey "NoShot1111111111111111111111111111111111111"))))

  abbrev holds_key : Pubkey → Seashell sdk → Bool
  holds_key k s = elim (lookup k s.accounts_db.accounts) [ none ↦ false | some _ ↦ true ]

  abbrev pub load_unwrapped : Environment → String → Pubkey → Exec (World sdk) (Unit {0})
  load_unwrapped env name program_id =
      on_seashell (load_program_from_environment sdk env name program_id) >>= λ outcome.
      lift (unwrapped outcome)

  unfoldable pub test_load_from_environment :
      Pubkey → Pubkey → Pubkey → Environment → Files → Result Bool
  test_load_from_environment tokenkeg token22 associated_token env fs = from_new fs (
      lift (then_ok (try_find_workspace_root env) λ found. expect unwrap_none found) >>= λ root.
      (λ w.
        let env' = record env {
          sbf_out_dir = some (join root "crates/seashell-core/src/spl/elfs");
        } in
        (load_unwrapped env' "tokenkeg" tokenkeg
            >> load_unwrapped env' "token22" token22
            >> load_unwrapped env' "associated_token" associated_token
            >>= λ _. (λ v. (
              ok (
                  holds_key tokenkeg v.0
                  && holds_key token22 v.0
                  && holds_key associated_token v.0),
              v,
            )))
          w))

  abbrev pubkey1 : Pubkey
  pubkey1 = sdk.pubkey "B91piBSfCBRs5rUxCMRdJEGv7tNEnFxweWcdQJHJoFpi"

  abbrev pubkey2 : Pubkey
  pubkey2 = sdk.pubkey "6gAnjderE13TGGFeqdPVQ438jp2FPVeyXAszxKu9y338"

  -- a seashell that loads the scenario and reads the two accounts
  abbrev visit_scenario : Environment → Exec (World sdk) (Unit {0})
  visit_scenario env =
      load_scenario sdk env "test_scenario" >> on_seashell (account sdk pubkey1) >>= λ _.
      on_seashell (account sdk pubkey2) >>= λ _. pure tt

  -- The first seashell is dropped, and with it its scenario.
  unfoldable pub test_scenario_loading : Environment → Files → Result (Unit {0})
  test_scenario_loading env fs =
      let env' = record env { rpc_url = some "https://api.mainnet-beta.solana.com" } in
      let (made, s) = new_with_config sdk default_config in
      let (r, w) = continue made (s, fs) (λ _. visit_scenario env') in
      then_ok r λ _. from_new (Persist.drop sdk w.0.accounts_db.scenario w.1) (visit_scenario env')
