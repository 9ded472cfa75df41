-- ===== src/Seashell/Process.antt =====
-- crates/seashell-core/src/seashell.rs: `process_instruction`. The virtual machine is a parameter;
-- loading, compiling, configuring and writing back are the code's.
use seashell.Prelude.{ℕ, Option, none, some, List, [], ◌∷◌, if◌then◌else◌}
use seashell.Outcome.{
  Result, then_ok, ok, Exec, ◌>>=◌, pure, lift, gets, expect, failed_to_configure, failed_to_borrow,
}
use seashell.Instruction.{Pubkey, Bytes, Instruction}
use seashell.Compile.{instruction_program_id_index, compile_accounts_for_instruction}
use seashell.Dedup.{dedup_map}
use seashell.Sdk.{Sdk, Account}
use seashell.Sysvars.{read_rent}
use seashell.AccountsDb.{accounts_for_instruction, sysvars_for_instruction}
use seashell.Seashell.{
  Seashell, on_db, callback_is_precompile, callback_process_precompile,
  set_account_from_account_shared_data,
}

pub data InstructionProcessingError (sdk : Sdk) : Type 0 where
  instruction_error : sdk.InstructionError → InstructionProcessingError sdk
  program_error : InstructionProcessingError sdk

pub record InstructionProcessingResult (sdk : Sdk) : Type 0 where
  pub compute_units_consumed : ℕ
  pub return_data : Bytes
  pub error : Option (InstructionProcessingError sdk)
  pub post_execution_accounts : List (Pubkey × Account)

-- What an invocation leaves behind.
pub record Invocation (sdk : Sdk) : Type 0 where
  pub failure : Option sdk.InstructionError
  pub units : ℕ
  pub context : sdk.TransactionContext

module _ (sdk : Sdk) where
  open sdk use {
    Shared, TransactionContext, SysvarCache, InstructionError, LogCollector, to_account,
    new_context, configure_next_instruction, max_instruction_stack_depth,
    max_instruction_trace_length, max_accounts_per_transaction, find_index_of_account, try_borrow,
    return_data_of, run_program, run_precompile,
  }

  -- from the accounts to the configured transaction context
  unfoldable pub configure :
      Instruction → List (Pubkey × Shared) → Seashell sdk → Result TransactionContext
  configure ixn accounts s =
      let context =
        new_context accounts (read_rent sdk s.accounts_db.sysvars)
          (max_instruction_stack_depth s.compute_budget)
          (max_instruction_trace_length s.compute_budget) in
      then_ok (compile_accounts_for_instruction ixn) λ instruction_accounts.
        then_ok (dedup_map max_accounts_per_transaction instruction_accounts) λ slots.
          expect failed_to_configure (
            configure_next_instruction context instruction_program_id_index instruction_accounts
              slots ixn.bytes)

  -- A precompile consumes no compute units. The log collector is shared with the virtual machine.
  unfoldable pub invoke :
      Instruction → SysvarCache → TransactionContext → Exec (Seashell sdk) (Invocation sdk)
  invoke ixn cache context s =
      if callback_is_precompile sdk s ixn.program_id
      then (let (failure, context', logs) =
            run_precompile (callback_process_precompile sdk s) context s.log_collector
              ixn.program_id ixn.bytes (ixn.bytes ∷ []) in
          (
            ok (record { failure = failure; units = 0; context = context' }),
            record s { log_collector = logs },
          ))
      else (let (failure, units, context', logs) =
            run_program context s.accounts_db.programs s.feature_set cache s.log_collector
              s.compute_budget in
          (
            ok (record { failure = failure; units = units; context = context' }),
            record s { log_collector = logs },
          ))

  abbrev pub memoized : Pubkey → Shared → Exec (Seashell sdk) (Unit {0})
  memoized k account s =
      (if s.config.memoize then set_account_from_account_shared_data sdk k account else pure tt) s

  -- the closure over `transaction_accounts`, at the index that the context has for the key: the
  -- account as the invocation left it, written to the database if results are memoized
  unfoldable pub write_back :
      TransactionContext → Pubkey → Shared → Option ℕ → Exec (Seashell sdk) (Pubkey × Account)
  unfolding set_account_from_account_shared_data
  write_back context k before none = pure (k, to_account before)
  write_back context k before (some idx) =
      lift (expect failed_to_borrow (try_borrow context idx)) >>= λ account.
      memoized k account >>= λ _. pure (k, to_account account)

  unfoldable pub post_account :
      TransactionContext → Pubkey → Shared → Exec (Seashell sdk) (Pubkey × Account)
  unfolding write_back
  post_account context k before = write_back context k before (find_index_of_account context k)

  unfoldable pub post_accounts :
      TransactionContext → List (Pubkey × Shared) → Exec (Seashell sdk) (List (Pubkey × Account))
  unfolding post_account
  post_accounts context [] = pure []
  post_accounts context ((k, before) ∷ accounts) = post_account context k before >>= λ after.
      post_accounts context accounts >>= λ rest. pure (after ∷ rest)

  -- the `match result` at the end
  unfoldable pub conclude :
      List (Pubkey × Shared)
      → Invocation sdk
      → Option InstructionError
      → Exec (Seashell sdk) (InstructionProcessingResult sdk)
  unfolding post_accounts
  conclude accounts i none = post_accounts i.context accounts >>= λ after. pure (record {
    compute_units_consumed = i.units;
    return_data = return_data_of i.context;
    error = none;
    post_execution_accounts = after;
  })
  conclude accounts i (some e) = pure (record {
    compute_units_consumed = i.units;
    return_data = return_data_of i.context;
    error = some (instruction_error e);
    post_execution_accounts = [];
  })

  unfoldable pub finish :
      List (Pubkey × Shared)
      → Invocation sdk
      → Exec (Seashell sdk) (InstructionProcessingResult sdk)
  unfolding conclude
  finish accounts i = conclude accounts i i.failure

  unfoldable pub process_instruction :
      Instruction → Exec (Seashell sdk) (InstructionProcessingResult sdk)
  unfolding configure invoke finish
  process_instruction ixn = gets (λ s. s.config.allow_uninitialized_accounts_local) >>= λ allow.
      on_db sdk (accounts_for_instruction sdk allow ixn) >>= λ accounts.
      (λ s. lift (sysvars_for_instruction sdk s.accounts_db accounts) s) >>= λ cache.
      (λ s. lift (configure ixn accounts s) s) >>= λ context.
      invoke ixn cache context >>= λ i. finish accounts i
