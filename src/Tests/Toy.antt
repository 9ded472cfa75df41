-- ===== src/Tests/Toy.antt =====
-- A small instance of the crates: a shared account is an account, a value is encoded as the list of
-- its numbers, and a program adds one lamport to each account of its
-- transaction, and fails if its budget is zero.
use Prim.Native.String.{String}
use mathlib.Core.Option
use seashell.Prelude.{
  ℕ, suc, ◌+◌, ◌*◌, Bool, true, none, some, List, [], ◌∷◌, map, ◌⊎◌, inl, inr, replicate, ◌==◌,
  if◌then◌else◌,
}
use seashell.Prelude.Int.{pos}
use seashell.Prelude.Map.{Map, lookup}
use seashell.Instruction.{Pubkey, Bytes, Instruction}
use seashell.Sdk.{Sdk, Account}
use seashell.Tests.Text.{key_text, key_of, bytes_text, bytes_of, sum_of}
use seashell.Tests.Encodings.{
  an_account, nat_codec, clock_codec, vector_codec, account_with, newest, write_document,
  read_document,
}

abbrev pub bump : List (Pubkey × Account) → List (Pubkey × Account)
bump [] = []
bump ((k, a) ∷ l) = (k, record a { lamports = suc a.lamports }) ∷ bump l

abbrev reply : Map Account → Pubkey → Account ⊎ ℕ
reply m k = elim (lookup k m) [ none ↦ inr 0 | some a ↦ inl a ]

abbrev pub toy : Sdk
toy = record {
  Shared = Account;
  from_account = λ a. a;
  to_account = λ a. a;
  new_shared = λ lamports size owner. an_account lamports (replicate size 0) owner;
  default_shared = an_account 0 [] 0;
  default_account = an_account 0 [] 0;
  new_data = λ T c lamports v owner. account_with (c.serialize v) lamports owner;
  data_of = λ a. a.bytes;
  lamports_of = λ a. a.lamports;
  set_lamports = λ a n. record a { lamports = n };
  set_owner = λ a k. record a { owner = k };
  set_data_from_slice = λ a b. record a { bytes = b };
  is_executable = λ a. a.executable;
  set_executable = λ a b. record a { executable = b };
  EpochSchedule = ℕ;
  EpochRewards = ℕ;
  Rent = ℕ;
  SlotHashes = ℕ;
  StakeHistory = ℕ;
  LastRestartSlot = ℕ;
  Hash = ℕ;
  StakeHistoryEntry = ℕ;
  default_clock = record {
    slot = 0;
    epoch_start_timestamp = pos 0;
    epoch = 0;
    leader_schedule_epoch = 0;
    unix_timestamp = pos 0;
  };
  default_epoch_rewards = 0;
  epoch_schedule_without_warmup = 432000;
  default_last_restart_slot = 0;
  default_rent = 3;
  default_hash = 0;
  max_entries = 4;
  new_slot_hashes = newest;
  entries_of = λ n. (n, 0) ∷ [];
  default_stake_history = 0;
  default_stake_history_entry = 0;
  add_stake_history = λ h n e. suc h;
  clock_codec = clock_codec;
  epoch_schedule_codec = nat_codec;
  epoch_rewards_codec = nat_codec;
  rent_codec = nat_codec;
  slot_hashes_codec = nat_codec;
  stake_history_codec = nat_codec;
  last_restart_slot_codec = nat_codec;
  bytes_codec = vector_codec;
  clock_id = 1;
  epoch_schedule_id = 2;
  epoch_rewards_id = 3;
  rent_id = 4;
  slot_hashes_id = 5;
  stake_history_id = 6;
  last_restart_slot_id = 7;
  sysvar_owner = 8;
  instructions_id = 9;
  construct_instructions_data = map (λ (i : Instruction). i.program_id);
  minimum_balance = λ rent size. rent * (128 + size);
  RpcClient = Map Account;
  RpcError = ℕ;
  new_client = λ url. (42, an_account 7 [] 0) ∷ [];
  get_account = λ m k. (reply m k, m);
  error_text = λ e. "AccountNotFound: pubkey";
  to_bytes = λ k. k ∷ replicate 31 0;
  display = key_text;
  from_str = λ t. some (key_of t);
  hex_encode = bytes_text;
  hex_decode = λ t. some (bytes_of t);
  to_json_gz = write_document;
  from_json_gz = λ b. some (read_document b).1;
  native_loader_id = 10;
  bpf_loader_id = 11;
  system_program_id = 0;
  Programs = List (Pubkey × ℕ);
  ProgramEntry = ℕ;
  Entrypoint = ℕ;
  FeatureSet = Pubkey → Bool;
  ComputeBudget = ℕ;
  Environment = Unit {0};
  default_programs = [];
  replenish = λ l k e. (k, e) ∷ l;
  new_builtin = λ a b e. e;
  is_active = λ f k. f k;
  builtins =
      record { enable_feature_id = none; program_id = 0; name = 115 ∷ []; entrypoint = 5 } ∷ [];
  precompiles = record { feature = none; program_id = 90 } ∷ [];
  create_environment = λ f b. some tt;
  new_entry = λ loader e a b bytes size. some size;
  SysvarCache = List (Pubkey × Bytes);
  cached_ids = 1 ∷ 4 ∷ [];
  cache_of = λ l. l;
  all_enabled = λ k. true;
  default_budget = 200000;
  max_instruction_stack_depth = λ b. 5;
  max_instruction_trace_length = λ b. 64;
  LogCollector = List String;
  default_log_collector = [];
  recorded = λ l. l;
  TransactionContext = List (Pubkey × Account);
  max_accounts_per_transaction = 256;
  new_context = λ l rent depth trace. l;
  configure_next_instruction = λ c n accounts slots bytes. some c;
  find_index_of_account = λ c k. Option.map (λ a. k) (lookup k c);
  try_borrow = λ c i. lookup i c;
  return_data_of = λ c. [];
  Verifier = Unit {0};
  PrecompileError = ℕ;
  invalid_public_key = 0;
  is_precompile = λ k enabled. k == 90;
  get_precompile = λ k enabled. if k == 90 then some tt else none;
  verify = λ v bytes datas f. none;
  InstructionError = ℕ;
  run_program = λ c p f v l b. (if b == 0 then some 7 else none, 150, bump c, l);
  run_precompile = λ callback c l p b bs. (none, c, l);
  pubkey = sum_of;
  include_bytes = λ t. 127 ∷ [];
}
