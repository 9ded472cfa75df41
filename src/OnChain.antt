-- ===== src/OnChain.antt =====
-- programs/account-loader/src/lib.rs, programs/create-account/src/lib.rs, programs/sysvar/src/lib.rs
-- and programs/sysvar_ixns/src/lib.rs: the programs that the integration tests run. The pinocchio
-- crates, which they call, are a parameter.
pub mod Logs
pub mod Clocks
pub mod Introspection
pub mod Addresses
use Prim.Native.String.{String}
use seashell.Prelude.{ℕ, Option, none, some, List, [], ◌∷◌, ◌⊎◌, inl, inr}
use seashell.Prelude.Int.{ℤ, pos}
use seashell.Outcome.{
  Result, ok, panic, Exec, ◌>>=◌, ◌>>◌, pure, lift, modify, unwrap_err, out_of_bounds, unreachable,
}
use seashell.Instruction.{Pubkey, Bytes}
use seashell.Sdk.{Clock}

-- `pinocchio_system::instructions::CreateAccount`
pub record CreateAccount (AccountInfo : Type 0) : Type 0 where
  pub from : AccountInfo
  pub to : AccountInfo
  pub lamports : ℕ
  pub space : ℕ
  pub owner : Pubkey

-- The crates: `Vm` is what the calls of a program can read and change, and a `Result` of theirs is
-- a value or a `ProgramError`.
pub record Pinocchio : Type 1 where
  pub Vm : Type 0
  pub ProgramError : Type 0
  pub AccountInfo : Type 0
  pub Rent : Type 0
  pub IntrospectedInstruction : Type 0
  pub key : AccountInfo → Pubkey
  pub borrow_data_unchecked : AccountInfo → Bytes
  -- `pubkey::log`, and `log!` of a text with one number in it
  pub log_key : Pubkey → Vm → Vm
  pub log_number : String → ℤ → Vm → Vm
  pub clock_get : Vm → Clock ⊎ ProgramError
  pub rent_get : Vm → Rent ⊎ ProgramError
  pub minimum_balance : Rent → ℕ → ℕ
  pub as_ref : Pubkey → Bytes
  pub pubkey : String → Pubkey
  pub find_program_address : List Bytes → Pubkey → Result (Pubkey × ℕ)
  pub invoke_signed :
      CreateAccount AccountInfo → List (List Bytes) → Vm → Result (Option ProgramError) × Vm
  pub get_instruction_relative : Bytes → ℤ → IntrospectedInstruction ⊎ ProgramError
  pub get_program_id : IntrospectedInstruction → Pubkey

module _ (p : Pinocchio) where
  open p use {
    Vm, ProgramError, AccountInfo, key, borrow_data_unchecked, log_key, log_number, clock_get,
    rent_get, minimum_balance, as_ref, pubkey, find_program_address, invoke_signed,
    get_instruction_relative, get_program_id,
  }

  -- `ProgramResult`: the error, if there is one
  abbrev pub ProgramResult : Type 0
  ProgramResult = Option ProgramError

  -- the operator `?`
  abbrev pub try_value {ℓ} :
      {A : Type ℓ} → A ⊎ ProgramError → (A → Exec Vm ProgramResult) → Exec Vm ProgramResult
  try_value (inl a) f = f a
  try_value (inr e) f = pure (some e)

  -- the program account-loader
  unfoldable pub account_loader : Pubkey → List AccountInfo → Bytes → Exec Vm ProgramResult
  account_loader program_id [] bytes = pure none
  account_loader program_id (account ∷ accounts) bytes =
      modify (log_key (key account)) >> account_loader program_id accounts bytes

  abbrev pub log_clock : Clock → Exec Vm (Unit {0})
  log_clock clock =
      modify (log_number "Slot: {}" (pos clock.slot))
      >> modify (log_number "Epoch: {}" (pos clock.epoch))
      >> modify (log_number "Epoch Start Timestamp: {}" clock.epoch_start_timestamp)
      >> modify (log_number "Leader Schedule Epoch: {}" (pos clock.leader_schedule_epoch))
      >> modify (log_number "Timestamp: {}" clock.unix_timestamp)

  -- the program sysvar
  unfoldable pub sysvar : Pubkey → List AccountInfo → Bytes → Exec Vm ProgramResult
  sysvar program_id accounts bytes vm = elim (clock_get vm) [
    | inr e ↦ (panic unwrap_err, vm)
    | inl clock ↦ (log_clock clock >>= λ _. pure none) vm
  ]

  -- the program sysvar_ixns
  unfoldable pub sysvar_ixns : Pubkey → List AccountInfo → Bytes → Exec Vm ProgramResult
  sysvar_ixns program_id [] bytes = lift (panic out_of_bounds)
  sysvar_ixns program_id (account ∷ accounts) bytes =
      try_value (get_instruction_relative (borrow_data_unchecked account) (pos 0))
        λ ixn. modify (log_key (get_program_id ixn)) >>= λ _. pure none

  abbrev pub create_account_id : Pubkey
  create_account_id = pubkey "create1111111111111111111111111111111111111"

  -- `b"test"` and the key of the signer
  abbrev pub test_seeds : AccountInfo → List Bytes
  test_seeds signer = (116 ∷ 101 ∷ 115 ∷ 116 ∷ []) ∷ as_ref (key signer) ∷ []

  abbrev pub signer_seeds : AccountInfo → ℕ → List Bytes
  signer_seeds signer bump = (116 ∷ 101 ∷ 115 ∷ 116 ∷ []) ∷ as_ref (key signer) ∷ (bump ∷ []) ∷ []

  -- the program create-account; the last two steps are `?` and `Ok(())`
  unfoldable pub create_account : Pubkey → List AccountInfo → Bytes → Exec Vm ProgramResult
  create_account program_id [] bytes = lift (panic unreachable)
  create_account program_id (signer ∷ []) bytes = lift (panic unreachable)
  create_account program_id (signer ∷ new_account ∷ accounts) bytes =
      lift (find_program_address (test_seeds signer) create_account_id) >>= λ found. (λ vm.
        try_value (rent_get vm)
          (λ rent.
            invoke_signed
              (record {
                from = signer;
                to = new_account;
                lamports = minimum_balance rent 1000;
                space = 1000;
                owner = create_account_id;
              })
              (signer_seeds signer found.1 ∷ []))
          vm)
