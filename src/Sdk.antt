-- ===== src/Sdk.antt =====
-- The crates that crates/seashell-core calls and does not contain (solana_account, solana_sdk_ids,
-- bincode, solana_rpc_client, serde_json, the SVM), as one record of types and operations. Every
-- component takes it as a parameter, and a theorem names the documented laws that it relies on.
use Prim.Native.String.{String}
use seashell.Prelude.{ℕ, ◌≡◌, Bool, Option, some, List, ◌⊎◌}
use seashell.Prelude.Int.{ℤ}
use seashell.Instruction.{Pubkey, Bytes, Instruction, InstructionAccount}

-- `solana_account::Account`, with the fields that crates/seashell-core/src/scenario.rs copies.
pub record Account : Type 0 where
  pub lamports : ℕ
  pub bytes : Bytes
  pub owner : Pubkey
  pub executable : Bool
  pub rent_epoch : ℕ

-- `solana_clock::Clock`; two fields are signed.
pub record Clock : Type 0 where
  pub slot : ℕ
  pub epoch_start_timestamp : ℤ
  pub epoch : ℕ
  pub leader_schedule_epoch : ℕ
  pub unix_timestamp : ℤ

-- `bincode` at one type
pub record Codec (A : Type 0) : Type 0 where
  pub serialize : A → Option Bytes
  pub deserialize : Bytes → Option A

-- What is documented of it: every value is encoded, and decoded again.
pub record IsCodec {A : Type 0} (c : Codec A) : Type 0 where
  pub total : (a : A) → (b : Bytes) × (c.serialize a ≡ some b)
  pub inverse : (a : A) (b : Bytes) → c.serialize a ≡ some b → c.deserialize b ≡ some a

-- A JSON object with the keys of `JsonAccount`; a key may be missing.
pub record JsonObject : Type 0 where
  pub lamports : Option ℕ
  pub bytes : Option String
  pub owner : Option String
  pub executable : Option Bool
  pub rent_epoch : Option ℕ

-- an entry of `solana_builtins::BUILTINS`
pub record Builtin (Entrypoint : Type 0) : Type 0 where
  pub enable_feature_id : Option Pubkey
  pub program_id : Pubkey
  pub name : Bytes
  pub entrypoint : Entrypoint

-- an entry of `agave_precompiles::get_precompiles()`
pub record Precompile : Type 0 where
  pub feature : Option Pubkey
  pub program_id : Pubkey

pub record Sdk : Type 1 where
  -- `AccountSharedData` and its traits
  pub Shared : Type 0
  pub from_account : Account → Shared
  pub to_account : Shared → Account
  pub new_shared : ℕ → ℕ → Pubkey → Shared
  pub default_shared : Shared
  pub default_account : Account
  pub new_data : (T : Type 0) → Codec T → ℕ → T → Pubkey → Option Shared
  pub data_of : Shared → Bytes
  pub lamports_of : Shared → ℕ
  pub set_lamports : Shared → ℕ → Shared
  pub set_owner : Shared → Pubkey → Shared
  pub set_data_from_slice : Shared → Bytes → Shared
  pub is_executable : Shared → Bool
  pub set_executable : Shared → Bool → Shared
  -- the sysvars: their types, encodings and identifiers
  pub EpochSchedule : Type 0
  pub EpochRewards : Type 0
  pub Rent : Type 0
  pub SlotHashes : Type 0
  pub StakeHistory : Type 0
  pub LastRestartSlot : Type 0
  pub Hash : Type 0
  pub StakeHistoryEntry : Type 0
  pub default_clock : Clock
  pub default_epoch_rewards : EpochRewards
  pub epoch_schedule_without_warmup : EpochSchedule
  pub default_last_restart_slot : LastRestartSlot
  pub default_rent : Rent
  pub default_hash : Hash
  pub max_entries : ℕ
  pub new_slot_hashes : List (ℕ × Hash) → SlotHashes
  pub entries_of : SlotHashes → List (ℕ × Hash)
  pub default_stake_history : StakeHistory
  pub default_stake_history_entry : StakeHistoryEntry
  pub add_stake_history : StakeHistory → ℕ → StakeHistoryEntry → StakeHistory
  pub clock_codec : Codec Clock
  pub epoch_schedule_codec : Codec EpochSchedule
  pub epoch_rewards_codec : Codec EpochRewards
  pub rent_codec : Codec Rent
  pub slot_hashes_codec : Codec SlotHashes
  pub stake_history_codec : Codec StakeHistory
  pub last_restart_slot_codec : Codec LastRestartSlot
  pub bytes_codec : Codec Bytes
  pub clock_id : Pubkey
  pub epoch_schedule_id : Pubkey
  pub epoch_rewards_id : Pubkey
  pub rent_id : Pubkey
  pub slot_hashes_id : Pubkey
  pub stake_history_id : Pubkey
  pub last_restart_slot_id : Pubkey
  pub sysvar_owner : Pubkey
  pub instructions_id : Pubkey
  pub construct_instructions_data : List Instruction → Bytes
  pub minimum_balance : Rent → ℕ → ℕ
  -- the RPC client, with the far end: a request gives the reply and the client afterwards
  pub RpcClient : Type 0
  pub RpcError : Type 0
  pub new_client : String → RpcClient
  pub get_account : RpcClient → Pubkey → (Account ⊎ RpcError) × RpcClient
  pub error_text : RpcError → String
  -- text forms, and a gzipped JSON document
  pub to_bytes : Pubkey → Bytes
  pub display : Pubkey → String
  pub from_str : String → Option Pubkey
  pub hex_encode : Bytes → String
  pub hex_decode : String → Option Bytes
  pub to_json_gz : List (String × JsonObject) → Bytes
  pub from_json_gz : Bytes → Option (List (String × JsonObject))
  -- program identifiers
  pub native_loader_id : Pubkey
  pub bpf_loader_id : Pubkey
  pub system_program_id : Pubkey
  -- the program cache and what it is filled with
  pub Programs : Type 0
  pub ProgramEntry : Type 0
  pub Entrypoint : Type 0
  pub FeatureSet : Type 0
  pub ComputeBudget : Type 0
  pub Environment : Type 0
  pub default_programs : Programs
  pub replenish : Programs → Pubkey → ProgramEntry → Programs
  pub new_builtin : ℕ → ℕ → Entrypoint → ProgramEntry
  pub is_active : FeatureSet → Pubkey → Bool
  pub builtins : List (Builtin Entrypoint)
  pub precompiles : List Precompile
  pub create_environment : FeatureSet → ComputeBudget → Option Environment
  pub new_entry : Pubkey → Environment → ℕ → ℕ → Bytes → ℕ → Option ProgramEntry
  -- the sysvar cache: the identifiers that `fill_missing_entries` asks for, and the cache that it
  -- makes of the data it is given for each
  pub SysvarCache : Type 0
  pub cached_ids : List Pubkey
  pub cache_of : List (Pubkey × Bytes) → SysvarCache
  -- features, budgets, logs
  pub all_enabled : FeatureSet
  pub default_budget : ComputeBudget
  pub max_instruction_stack_depth : ComputeBudget → ℕ
  pub max_instruction_trace_length : ComputeBudget → ℕ
  pub LogCollector : Type 0
  pub default_log_collector : LogCollector
  pub recorded : LogCollector → List String
  -- the transaction context
  pub TransactionContext : Type 0
  pub max_accounts_per_transaction : ℕ
  pub new_context : List (Pubkey × Shared) → Rent → ℕ → ℕ → TransactionContext
  pub configure_next_instruction :
      TransactionContext → ℕ → List InstructionAccount → List ℕ → Bytes → Option TransactionContext
  pub find_index_of_account : TransactionContext → Pubkey → Option ℕ
  pub try_borrow : TransactionContext → ℕ → Option Shared
  pub return_data_of : TransactionContext → Bytes
  -- the precompiles
  pub Verifier : Type 0
  pub PrecompileError : Type 0
  pub invalid_public_key : PrecompileError
  pub is_precompile : Pubkey → (Pubkey → Bool) → Bool
  pub get_precompile : Pubkey → (Pubkey → Bool) → Option Verifier
  pub verify : Verifier → Bytes → List Bytes → FeatureSet → Option PrecompileError
  -- the virtual machine: an invocation gives the error, if there is one, the compute units, and the
  -- transaction context and the logs afterwards; its copy of the programs is dropped
  pub InstructionError : Type 0
  pub run_program :
      TransactionContext
      → Programs
      → FeatureSet
      → SysvarCache
      → Option LogCollector
      → ComputeBudget
      → Option InstructionError × ℕ × TransactionContext × Option LogCollector
  pub run_precompile :
      (Pubkey → Bytes → List Bytes → Option PrecompileError)
      → TransactionContext
      → Option LogCollector
      → Pubkey
      → Bytes
      → List Bytes
      → Option InstructionError × TransactionContext × Option LogCollector
  -- the `pubkey!` macro, and the files that `include_bytes!` names
  pub pubkey : String → Pubkey
  pub include_bytes : String → Bytes
