-- ===== src/Seashell.antt =====
-- crates/seashell-core/src/seashell.rs: `Config`, `Seashell` and its short methods, with the loaders
-- of crates/seashell-core/src/spl/mod.rs and precompiles.rs that `Seashell::new` calls.

pub mod Process
pub mod Accounts
pub mod Processing
pub mod Environment
pub mod Invariant
pub mod Steps
pub mod Reachable
pub mod Offline
pub mod Fresh
pub mod UnitTests
use Prim.Native.String.{String}
use mathlib.Core.Option
use mathlib.Core.Option.{get_or}
use seashell.Prelude.{ℕ, Bool, true, false, Option, none, some, List, [], ◌∷◌, if◌then◌else◌}
use seashell.Prelude.Int.{as_i64}
use seashell.Outcome.{
  Result, then_ok, ok, panic, Exec, continue, ◌>>=◌, ◌>>◌, pure, lift, modify, add_u64,
}
use seashell.Instruction.{Pubkey, Bytes}
use seashell.Sdk.{Sdk, Account, Precompile}
use seashell.AccountsDb
use seashell.AccountsDb.{
  AccountsDb, account_maybe, account_must, default_accounts_db, enabled, native_account,
}

pub record Config : Type 0 where
  pub memoize : Bool
  pub allow_uninitialized_accounts_local : Bool
  pub allow_uninitialized_accounts_fetched : Bool

abbrev pub default_config : Config
default_config = record {
  memoize = false;
  allow_uninitialized_accounts_local = false;
  allow_uninitialized_accounts_fetched = false;
}

pub record Seashell (sdk : Sdk) : Type 0 where
  pub config : Config
  pub accounts_db : AccountsDb sdk
  pub compute_budget : sdk.ComputeBudget
  pub feature_set : sdk.FeatureSet
  pub log_collector : Option sdk.LogCollector

module _ (sdk : Sdk) where
  open sdk use {
    Shared, LogCollector, PrecompileError, from_account, to_account, new_shared, lamports_of,
    set_lamports, system_program_id, bpf_loader_id, all_enabled, default_budget,
    default_log_collector, recorded, precompiles, is_active, is_precompile, get_precompile, verify,
    invalid_public_key, pubkey, include_bytes,
  }

  abbrev pub default_seashell : Seashell sdk
  default_seashell = record {
    config = default_config;
    accounts_db = default_accounts_db sdk;
    compute_budget = default_budget;
    feature_set = all_enabled;
    log_collector = none;
  }

  -- a method of `accounts_db`, called on the whole
  abbrev pub on_db {ℓ} : {A : Type ℓ} → Exec (AccountsDb sdk) A → Exec (Seashell sdk) A
  on_db m s = let (r, db) = m s.accounts_db in (r, record s { accounts_db = db })

  -- `SeashellInvokeContextCallback`
  abbrev pub callback_is_precompile : Seashell sdk → Pubkey → Bool
  callback_is_precompile s k = is_precompile k (is_active s.feature_set)

  unfoldable pub callback_process_precompile :
      Seashell sdk → Pubkey → Bytes → List Bytes → Option PrecompileError
  callback_process_precompile s k bytes datas = elim (get_precompile k (is_active s.feature_set)) [
    | none ↦ some invalid_public_key
    | some precompile ↦ verify precompile bytes datas s.feature_set
  ]

  unfoldable pub enable_log_collector : Seashell sdk → Seashell sdk
  enable_log_collector s = record s { log_collector = some default_log_collector }

  unfoldable pub logs : Seashell sdk → Option (List String)
  logs s = Option.map recorded s.log_collector

  unfoldable pub set_account : Pubkey → Account → Exec (Seashell sdk) (Unit {0})
  set_account k account = on_db (AccountsDb.set_account sdk k (from_account account))

  unfoldable pub set_account_from_account_shared_data :
      Pubkey → Shared → Exec (Seashell sdk) (Unit {0})
  set_account_from_account_shared_data k account = on_db (AccountsDb.set_account sdk k account)

  unfoldable pub account : Pubkey → Exec (Seashell sdk) Account
  account k = on_db (account_must sdk k) >>= λ x. pure (to_account x)

  unfoldable pub clear_non_program_accounts : Seashell sdk → Seashell sdk
  clear_non_program_accounts s = record s {
    accounts_db = AccountsDb.clear_non_program_accounts sdk s.accounts_db;
  }

  -- the timestamp is cast to `i64`
  unfoldable pub warp : ℕ → ℕ → Seashell sdk → Seashell sdk
  warp slot timestamp s = record s {
    accounts_db = AccountsDb.warp sdk slot (as_i64 timestamp) s.accounts_db;
  }

  -- the account that an airdrop goes to
  abbrev pub airdropped : Option Shared → Shared
  airdropped found = get_or found (new_shared 0 0 system_program_id)

  -- `checks` says whether the build checks for overflow
  unfoldable pub airdrop : Bool → Pubkey → ℕ → Exec (Seashell sdk) (Unit {0})
  unfolding set_account_from_account_shared_data
  airdrop checks k amount s = continue (account_maybe sdk s.accounts_db k) s λ found.
      lift (add_u64 checks (lamports_of (airdropped found)) amount) >>= λ total.
      set_account_from_account_shared_data k (set_lamports (airdropped found) total)

  unfoldable pub load_program_from_bytes : Pubkey → Bytes → Exec (Seashell sdk) (Unit {0})
  load_program_from_bytes program_id bytes s =
      on_db
        (AccountsDb.load_program_from_bytes_with_loader sdk program_id bytes bpf_loader_id
          s.feature_set s.compute_budget)
        s

  abbrev pub token_program_id : Pubkey
  token_program_id = pubkey "TokenkegQfeZyiNwAJbNbGKPFXCWuBvf9Ss623VQ5DA"

  abbrev pub associated_token_program_id : Pubkey
  associated_token_program_id = pubkey "ATokenGPvbdGVxr1b2hvZbsiqW5xWH25efTNsLJA8knL"

  abbrev pub token_2022_program_id : Pubkey
  token_2022_program_id = pubkey "TokenzQdBNbLqP5VEhdkAS6EPFLC1PHnBqCXEpPxuEb"

  -- `spl::load`
  abbrev pub load_token_programs : Exec (Seashell sdk) (Unit {0})
  load_token_programs =
      load_program_from_bytes token_program_id (include_bytes "elfs/tokenkeg.so")
      >> load_program_from_bytes associated_token_program_id
          (include_bytes "elfs/associated_token.so")
      >> load_program_from_bytes token_2022_program_id (include_bytes "elfs/token22.so")

  -- `spl::load_p_token`
  abbrev pub load_p_token : Exec (Seashell sdk) (Unit {0})
  load_p_token = load_program_from_bytes token_program_id (include_bytes "elfs/ptoken.so")

  unfoldable pub load_spl : Exec (Seashell sdk) (Unit {0})
  load_spl = load_token_programs

  unfoldable pub use_p_token : Exec (Seashell sdk) (Unit {0})
  use_p_token = load_p_token

  -- the loop of `precompiles::load`
  unfoldable pub load_each_precompile : List Precompile → Exec (Seashell sdk) (Unit {0})
  load_each_precompile [] = pure tt
  load_each_precompile (precompile ∷ rest) =
      (λ s.
        (if enabled sdk s.feature_set precompile.feature
            then on_db (AccountsDb.set_account sdk precompile.program_id (native_account sdk))
            else pure tt)
          s)
      >> load_each_precompile rest

  unfoldable pub load_precompiles : Exec (Seashell sdk) (Unit {0})
  unfolding load_each_precompile
  load_precompiles = load_each_precompile precompiles

  -- `Seashell::new`, less the set-up of the logger
  unfoldable pub new : Result (Unit {0}) × Seashell sdk
  unfolding load_spl load_precompiles
  new =
      ((λ s. on_db (AccountsDb.load_builtins sdk s.feature_set) s) >> load_spl >> load_precompiles)
        default_seashell

  unfoldable pub new_with_config : Config → Result (Unit {0}) × Seashell sdk
  unfolding new
  new_with_config config =
      let (r, s) = new in continue r s λ _. modify (λ t. record t { config = config })
