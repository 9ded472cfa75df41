-- ===== src/Seashell/UnitTests/Transfers.antt =====
-- crates/seashell-core/src/seashell.rs, the module `tests`: the tests that transfer lamports and
-- tokens. The keys that `Pubkey::new_unique` makes are arguments.
use seashell.Prelude.{
  ℕ, Bool, true, false, ◌&&◌, ◌==◌, List, [], ◌∷◌, ◌++◌, ltb, if◌then◌else◌, length, replicate, set,
}
use seashell.Prelude.Slices.{to_le_bytes, from_le_bytes, slice, copy_from_slice}
use seashell.Prelude.Map.{lookup}
use seashell.Outcome.{
  Result, ok, panic, then_ok, expect, unwrap_none, out_of_bounds, Exec, continue, ◌>>=◌, ◌>>◌, pure,
  lift,
}
use seashell.Instruction.{Pubkey, Bytes, Instruction}
use seashell.Sdk.{Sdk, Account}
use seashell.AccountsDb
use seashell.Seashell.{
  Seashell, on_db, new, new_with_config, airdrop, account, use_p_token, token_program_id,
}
use seashell.Seashell.UnitTests.{is_none, meta}
use seashell.Seashell.Process.{InstructionProcessingResult, process_instruction}

abbrev is_empty {ℓ} : {A : Type ℓ} → List A → Bool
is_empty [] = true
is_empty (x ∷ l) = false

abbrev copied : ℕ → ℕ → Bytes → Bytes → Result Bytes
copied first last source bytes = expect out_of_bounds (copy_from_slice first last source bytes)

-- the data of the token account: mint, owner, amount, and `AccountState::Initialized`
unfoldable pub token_data : Bytes → Bytes → ℕ → Result Bytes
token_data mint owner amount = then_ok (copied 0 32 mint (replicate 165 0)) λ with_mint.
    then_ok (copied 32 64 owner with_mint) λ with_owner.
      then_ok (copied 64 72 (to_le_bytes 8 amount) with_owner)
        λ bytes. if ltb 108 (length bytes) then ok (set bytes 108 1) else panic out_of_bounds

-- `u64::from_le_bytes(account.data[64..72].try_into().unwrap())`
abbrev token_balance : Account → Result ℕ
token_balance a =
    then_ok (expect out_of_bounds (slice 64 72 a.bytes)) λ amount. ok (from_le_bytes amount)

module _ (sdk : Sdk) where
  open sdk use {
    Shared, new_shared, set_owner, set_data_from_slice, set_lamports, system_program_id, to_bytes,
  }

  abbrev run_from {ℓ} :
      {A : Type ℓ} → Result (Unit {0}) × Seashell sdk → Exec (Seashell sdk) A → Result A
  run_from (r, s) m = (continue r s (λ _. m)).0

  unfoldable pub create_mint_account : Pubkey → ℕ → Exec (Seashell sdk) (Unit {0})
  create_mint_account pubkey amount =
      let owned = set_owner (new_shared 1461600 82 system_program_id) (token_program_id sdk) in
      lift (copied 36 44 (to_le_bytes 8 amount) (replicate 82 0)) >>= λ bytes.
      on_db sdk
        (AccountsDb.set_account sdk pubkey (set_lamports (set_data_from_slice owned bytes) 1000))

  unfoldable pub create_token_account :
      Pubkey → Pubkey → Pubkey → ℕ → Exec (Seashell sdk) (Unit {0})
  unfolding token_data
  create_token_account pubkey mint owner amount =
      let owned = set_owner (new_shared 2039000 165 system_program_id) (token_program_id sdk) in
      lift (token_data (to_bytes mint) (to_bytes owner) amount) >>= λ bytes.
      let funded = set_lamports (set_data_from_slice owned bytes) 1000 in
      on_db sdk (AccountsDb.set_account sdk pubkey (set_owner funded (token_program_id sdk)))

  -- a transfer of 500 lamports by the system program
  abbrev pub native_transfer : Pubkey → Pubkey → Instruction
  native_transfer from to = record {
    program_id = system_program_id;
    accounts = meta from true true ∷ meta to false true ∷ [];
    bytes = to_le_bytes 4 2 ++ to_le_bytes 8 500;
  }

  -- the accounts before the transfer
  abbrev fund : Bool → Pubkey → Pubkey → Exec (Seashell sdk) (Unit {0})
  fund checks from to =
      airdrop sdk checks from 1000 >> on_db sdk (AccountsDb.set_account_mock sdk to)

  -- `iter().find(..).expect(..)`
  abbrev post_account_of : Pubkey → InstructionProcessingResult sdk → Result Account
  post_account_of k result = expect unwrap_none (lookup k result.post_execution_accounts)

  unfoldable pub test_native_transfer : Bool → Pubkey → Pubkey → Result Bool
  unfolding AccountsDb.set_account_mock
  test_native_transfer checks from to = run_from (new sdk) (
      fund checks from to >> process_instruction sdk (native_transfer from to) >>= λ result.
      lift (post_account_of from result) >>= λ post_from.
      lift (post_account_of to result) >>= λ post_to. pure (
        is_none result.error
        && (result.compute_units_consumed == 150)
        && (post_from.lamports == 500)
        && (post_to.lamports == 500)
        && is_empty result.return_data))

  unfoldable pub test_memoize : Bool → Pubkey → Pubkey → Result Bool
  unfolding AccountsDb.set_account_mock
  test_memoize checks from to =
      run_from
        (new_with_config sdk (record {
          memoize = true;
          allow_uninitialized_accounts_local = false;
          allow_uninitialized_accounts_fetched = false;
        }))
        (fund checks from to >> process_instruction sdk (native_transfer from to) >>= λ result.
          account sdk from >>= λ post_from. account sdk to >>= λ post_to. pure (
            is_none result.error
            && (result.compute_units_consumed == 150)
            && (post_from.lamports == 500)
            && (post_to.lamports == 500)))

  -- a transfer of 500 tokens: the tag 3 and the amount, copied into nine zeroes
  abbrev token_transfer : Pubkey → Pubkey → Pubkey → Bytes → Instruction
  token_transfer from to from_authority bytes = record {
    program_id = token_program_id sdk;
    accounts = meta from true true ∷ meta to false true ∷ meta from_authority true false ∷ [];
    bytes = bytes;
  }

  -- what both tests of the token programs do, once the program is there
  abbrev spl_transfer :
      ℕ → Bool → Pubkey → Pubkey → Pubkey → Pubkey → Pubkey → Exec (Seashell sdk) Bool
  spl_transfer units checks from to from_authority mint other =
      create_mint_account mint 1000
      >> create_token_account from mint from_authority 1000
      >> create_token_account to mint other 0
      >> airdrop sdk checks from_authority 1000
      >> lift (copied 1 9 (to_le_bytes 8 500) (set (replicate 9 0) 0 3))
      >>= λ bytes.
          process_instruction sdk (token_transfer from to from_authority bytes) >>= λ result.
          lift (then_ok (post_account_of from result) token_balance) >>= λ post_from_balance.
          lift (then_ok (post_account_of to result) token_balance) >>= λ post_to_balance. pure (
            is_none result.error
            && (result.compute_units_consumed == units)
            && (post_from_balance == 500)
            && (post_to_balance == 500)
            && is_empty result.return_data)

  unfoldable pub test_spl_transfer : Bool → Pubkey → Pubkey → Pubkey → Pubkey → Pubkey → Result Bool
  unfolding create_mint_account create_token_account
  test_spl_transfer checks from to from_authority mint other =
      run_from (new sdk) (spl_transfer 4644 checks from to from_authority mint other)

  unfoldable pub test_spl_transfer_p_token :
      Bool → Pubkey → Pubkey → Pubkey → Pubkey → Pubkey → Result Bool
  unfolding create_mint_account create_token_account
  test_spl_transfer_p_token checks from to from_authority mint other =
      run_from (new sdk)
        (use_p_token sdk >> spl_transfer 82 checks from to from_authority mint other)
