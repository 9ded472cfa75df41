-- ===== src/AccountsDb.antt =====
-- crates/seashell-core/src/accounts_db.rs: `AccountsDb`. Its locks are held for one access each, so
-- `accounts` is a field; what a method changes stays changed if it panics afterwards.
pub mod Reads
pub mod LoadKeeps
pub mod Closed
pub mod Invariant
pub mod Loading
pub mod Totality
pub mod Online
pub mod Programs
pub mod OnlyPrograms
pub mod Reachable
pub mod Replay
pub mod Store
pub mod Refinement
pub mod Offline
pub mod Stable
pub mod Order
use seashell.Prelude.{
  ℕ, Bool, true, Option, none, some, List, [], ◌∷◌, map, ◌==◌, if◌then◌else◌, length,
}
use seashell.Prelude.Int.{ℤ}
use seashell.Prelude.Map.{Map, lookup, insert, retain}
use seashell.Outcome.{
  Result, then_ok, ok, panic, Exec, account_not_found, account_not_found_for,
  no_runtime_environment, failed_to_load, expect, map_result, continue, ◌>>=◌, ◌>>◌, pure, lift,
}
use seashell.Instruction.{Pubkey, Bytes, AccountMeta, Instruction}
use seashell.Sdk.{Sdk, Builtin}
use seashell.Scenario
use seashell.Scenario.{Scenario, default_scenario, try_fetch_from_rpc, rpc_enabled}
use seashell.Sysvars
use seashell.Sysvars.{
  Sysvars, default_sysvars, is_sysvar, set_sysvar, get_sysvar, construct_instructions_account,
  read_clock, read_rent,
}

pub record AccountsDb (sdk : Sdk) : Type 0 where
  pub scenario : Scenario sdk
  pub accounts : Map sdk.Shared
  pub programs : sdk.Programs
  pub sysvars : Sysvars sdk

module _ (sdk : Sdk) where
  open sdk use {
    Shared, Programs, ProgramEntry, Entrypoint, FeatureSet, ComputeBudget, SysvarCache, new_shared,
    default_shared, data_of, is_executable, set_executable, instructions_id, native_loader_id,
    minimum_balance, default_programs, replenish, new_builtin, is_active, builtins,
    create_environment, new_entry, cached_ids, cache_of,
  }

  abbrev pub default_accounts_db : AccountsDb sdk
  default_accounts_db = record {
    scenario = default_scenario sdk;
    accounts = [];
    programs = default_programs;
    sysvars = default_sysvars sdk;
  }

  unfoldable pub mock_account_shared_data : Pubkey → Shared
  mock_account_shared_data k = new_shared 0 0 k

  unfoldable pub clear_non_program_accounts : AccountsDb sdk → AccountsDb sdk
  clear_non_program_accounts db = record db { accounts = retain is_executable db.accounts }

  unfoldable pub warp : ℕ → ℤ → AccountsDb sdk → AccountsDb sdk
  warp slot timestamp db = record db { sysvars = Sysvars.warp sdk slot timestamp db.sysvars }

  -- the scenario's account, if it has one, else the one of the accounts
  abbrev pub or_account : Option Shared → Pubkey → AccountsDb sdk → Option Shared
  or_account (some account) k db = some account
  or_account none k db = lookup k db.accounts

  unfoldable pub account_maybe : AccountsDb sdk → Pubkey → Result (Option Shared)
  account_maybe db k =
      if is_sysvar sdk k
      then then_ok (get_sysvar sdk db.sysvars k) (λ account. ok (some account))
      else ok (or_account (Scenario.get sdk db.scenario k) k db)

  -- `self.scenario.try_fetch_from_rpc(pubkey)`
  abbrev pub fetch : Pubkey → Exec (AccountsDb sdk) (Option Shared)
  fetch k db =
      let (r, scenario') = try_fetch_from_rpc sdk k db.scenario in
      (r, record db { scenario = scenario' })

  -- the closure that `account_must` hands to `unwrap_or_else`
  unfoldable pub fetch_must : Pubkey → Exec (AccountsDb sdk) Shared
  fetch_must k = fetch k >>= λ found. lift (expect account_not_found found)

  -- the account that was found, else what the fallback gives
  abbrev pub found_else :
      Exec (AccountsDb sdk) Shared → Option Shared → Exec (AccountsDb sdk) Shared
  found_else fallback none = fallback
  found_else fallback (some account) = pure account

  -- the account in the local cache, else what the fallback gives
  unfoldable pub account_or : Exec (AccountsDb sdk) Shared → Pubkey → Exec (AccountsDb sdk) Shared
  account_or fallback k db = continue (account_maybe db k) db (found_else fallback)

  unfoldable pub account_must : Pubkey → Exec (AccountsDb sdk) Shared
  unfolding account_or fetch_must
  account_must k = account_or (fetch_must k) k

  -- the end of the closure in `accounts_for_instruction`
  abbrev pub uninitialized : Bool → Pubkey → Exec (AccountsDb sdk) Shared
  uninitialized allow k =
      lift (if allow then ok default_shared else panic (account_not_found_for k))

  -- the account is not in the local cache: the RPC node, if there is one, comes next
  unfoldable pub load_missing : Bool → Pubkey → Exec (AccountsDb sdk) Shared
  load_missing allow k db =
      (if rpc_enabled sdk db.scenario
          then fetch k >>= found_else (uninitialized allow k)
          else uninitialized allow k)
        db

  -- the closure in `accounts_for_instruction`, up to the push
  unfoldable pub load_meta : Bool → Instruction → AccountMeta → Exec (AccountsDb sdk) Shared
  unfolding account_or load_missing
  load_meta allow ixn meta =
      if meta.pubkey == instructions_id
      then pure (construct_instructions_account sdk ixn)
      else account_or (load_missing allow meta.pubkey) meta.pubkey

  -- `for_each`, which pushes one account for each mention
  unfoldable pub load_metas :
      Bool → Instruction → List AccountMeta → Exec (AccountsDb sdk) (List (Pubkey × Shared))
  unfolding load_meta
  load_metas allow ixn [] = pure []
  load_metas allow ixn (meta ∷ metas) = load_meta allow ixn meta >>= λ account.
      load_metas allow ixn metas >>= λ rest. pure ((meta.pubkey, account) ∷ rest)

  unfoldable pub accounts_for_instruction :
      Bool → Instruction → Exec (AccountsDb sdk) (List (Pubkey × Shared))
  unfolding account_must load_metas
  accounts_for_instruction allow ixn = account_must ixn.program_id >>= λ program.
      load_metas allow ixn ixn.accounts >>= λ rest. pure ((ixn.program_id, program) ∷ rest)

  -- the data for one entry of the cache: of the instruction's account, else of the database's
  unfoldable pub sysvar_data : AccountsDb sdk → List (Pubkey × Shared) → Pubkey → Result Bytes
  sysvar_data db accounts k = elim (lookup k accounts) [
    | some account ↦ ok (data_of account)
    | none ↦
        then_ok (account_maybe db k)
          λ found. elim found [ none ↦ ok [] | some account ↦ ok (data_of account) ]
  ]

  unfoldable pub sysvars_for_instruction :
      AccountsDb sdk → List (Pubkey × Shared) → Result SysvarCache
  unfolding sysvar_data
  sysvars_for_instruction db accounts =
      then_ok
        (map_result (λ k. then_ok (sysvar_data db accounts k) λ bytes. ok (k, bytes)) cached_ids)
        (λ entries. ok (cache_of entries))

  unfoldable pub set_account : Pubkey → Shared → Exec (AccountsDb sdk) (Unit {0})
  set_account k account db =
      if is_sysvar sdk k
      then (let (r, sysvars') = set_sysvar sdk k account db.sysvars in
          (r, record db { sysvars = sysvars' }))
      else (ok tt, record db { accounts = insert k account db.accounts })

  unfoldable pub set_accounts : List (Pubkey × Shared) → Exec (AccountsDb sdk) (Unit {0})
  unfolding set_account
  set_accounts [] = pure tt
  set_accounts ((k, account) ∷ updates) = set_account k account >> set_accounts updates

  unfoldable pub set_account_mock : Pubkey → Exec (AccountsDb sdk) (Unit {0})
  unfolding set_account mock_account_shared_data
  set_account_mock k = set_account k (mock_account_shared_data k)

  -- `feature.is_none_or(|id| feature_set.is_active(&id))`
  abbrev pub enabled : FeatureSet → Option Pubkey → Bool
  enabled features none = true
  enabled features (some id) = is_active features id

  -- the account of a builtin program or of a precompile
  abbrev pub native_account : Shared
  native_account = set_executable (new_shared 1 0 native_loader_id) true

  abbrev pub replenish_programs : Pubkey → ProgramEntry → Exec (AccountsDb sdk) (Unit {0})
  replenish_programs k entry db = (ok tt, record db { programs = replenish db.programs k entry })

  -- the body of the loop in `load_builtins`
  unfoldable pub load_builtin : FeatureSet → Builtin Entrypoint → Exec (AccountsDb sdk) (Unit {0})
  unfolding set_account
  load_builtin features builtin =
      if enabled features builtin.enable_feature_id
      then replenish_programs builtin.program_id
          (new_builtin 0 (length builtin.name) builtin.entrypoint)
        >> set_account builtin.program_id native_account
      else pure tt

  unfoldable pub load_each_builtin :
      FeatureSet → List (Builtin Entrypoint) → Exec (AccountsDb sdk) (Unit {0})
  unfolding load_builtin
  load_each_builtin features [] = pure tt
  load_each_builtin features (builtin ∷ rest) =
      load_builtin features builtin >> load_each_builtin features rest

  unfoldable pub load_builtins : FeatureSet → Exec (AccountsDb sdk) (Unit {0})
  unfolding load_each_builtin
  load_builtins features = load_each_builtin features builtins

  -- the part that can panic before anything is written: the account and the cache entry
  unfoldable pub build_program :
      Pubkey
      → Bytes
      → Pubkey
      → FeatureSet
      → ComputeBudget
      → AccountsDb sdk
      → Result (Shared × ProgramEntry)
  build_program program_id bytes loader features budget db =
      let slot = (read_clock sdk db.sysvars).slot in
      let size = length bytes in
      let balance = minimum_balance (read_rent sdk db.sysvars) size in
      let account = set_executable (new_shared balance size loader) true in
      then_ok (expect no_runtime_environment (create_environment features budget)) λ environment.
        then_ok
          (expect (failed_to_load program_id) (new_entry loader environment slot slot bytes size))
          λ entry. ok (account, entry)

  unfoldable pub load_program_from_bytes_with_loader :
      Pubkey → Bytes → Pubkey → FeatureSet → ComputeBudget → Exec (AccountsDb sdk) (Unit {0})
  unfolding set_account
  load_program_from_bytes_with_loader program_id bytes loader features budget db =
      continue (build_program program_id bytes loader features budget db) db
        λ built. set_account program_id built.0 >> replenish_programs program_id built.1
