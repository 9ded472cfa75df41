-- ===== src/Seashell/UnitTests/Integration.antt =====
-- crates/seashell-core/tests: the integration tests, each of which loads one of the on-chain
-- programs and runs it. The keys that `Pubkey::new_unique` makes are arguments, and so are what the
-- tests call of solana_pubkey.
use Prim.Native.String.{String, ◌∷◌ as ◌then◌}
use seashell.Prelude.{
  ℕ, ◌+◌, ◌%◌, Bool, true, false, ◌&&◌, ◌==◌, some, List, [], ◌∷◌, map, if◌then◌else◌, length,
}
use seashell.Prelude.Int.{pos}
use seashell.Outcome.{
  Result, then_ok, expect, unwrap_none, unwrap_err, Exec, continue, ◌>>=◌, ◌>>◌, pure, lift, modify,
}
use seashell.Instruction.{Pubkey, Bytes, AccountMeta}
use seashell.Sdk.{Sdk, Account, Clock}
use seashell.Files.{Files}
use seashell.Seashell.{new_with_config, set_account, account, enable_log_collector, logs}
use seashell.Seashell.Process.{process_instruction}
use seashell.Seashell.Environment.{Environment, World, join, try_find_workspace_root}
use seashell.Seashell.UnitTests.Logs.{in_order, skip_1, parse_logs, are_expected}
use seashell.Seashell.UnitTests.{is_none, meta, on_seashell, from_new, load_unwrapped}

abbrev expected_clock : Clock
expected_clock = record {
  slot = 1;
  epoch_start_timestamp = pos 2;
  epoch = 3;
  leader_schedule_epoch = 4;
  unix_timestamp = pos 5;
}

module _ (sdk : Sdk) where
  open sdk use {display, default_account, clock_codec, clock_id, sysvar_owner, instructions_id}

  -- the program is loaded from the directory that its build writes to
  abbrev load_built : Environment → String → String → Pubkey → Exec (World sdk) (Unit {0})
  load_built env directory name program_id =
      lift (then_ok (try_find_workspace_root env) λ found. expect unwrap_none found) >>= λ root.
      load_unwrapped sdk (record env { sbf_out_dir = some (join root directory) }) name program_id

  abbrev collect_logs : Exec (World sdk) (Unit {0})
  collect_logs = modify (λ w. (enable_log_collector sdk w.0, w.1))

  -- `seashell.logs().expect(..)`
  abbrev read_logs : Exec (World sdk) (List String)
  read_logs w = (expect unwrap_none (logs sdk w.0), w)

  abbrev put : Pubkey → Account → Exec (World sdk) (Unit {0})
  put k a = on_seashell sdk (set_account sdk k a)

  -- the instruction is processed, and the logs are compared with the keys
  abbrev logs_in_order : Pubkey → List AccountMeta → Exec (World sdk) Bool
  logs_in_order program_id metas =
      on_seashell sdk
        (process_instruction sdk (record { program_id = program_id; accounts = metas; bytes = [] }))
      >>= λ _. read_logs >>= λ lines.
          pure (in_order display (skip_1 lines) (map (λ (m : AccountMeta). m.pubkey) metas))

  -- an account for each key, with an owner of its own
  abbrev set_each : List (Pubkey × Pubkey) → Exec (World sdk) (Unit {0})
  set_each [] = pure tt
  set_each ((k, owner) ∷ keys) =
      put k
        (record { lamports = 1000; bytes = []; owner = owner; executable = false; rent_epoch = 0 })
      >> set_each keys

  -- The test makes fifty keys, each with an owner.
  unfoldable pub test_account_loader :
      Pubkey → List (Pubkey × Pubkey) → Environment → Files → Result Bool
  test_account_loader program_id keys env fs = from_new sdk fs (
      load_built env "programs/account-loader/target/deploy" "account_loader" program_id
      >> collect_logs
      >> set_each keys
      >> logs_in_order program_id (map (λ (e : Pubkey × Pubkey). meta e.0 false true) keys))

  -- the closure of `from_fn`, at the positions from `position` on; each random key is set
  abbrev with_duplicates : Pubkey → Pubkey → ℕ → List Pubkey → Exec (World sdk) (List AccountMeta)
  with_duplicates duplicate duplicate_2 position [] = pure []
  with_duplicates duplicate duplicate_2 position (k ∷ keys) =
      (if position % 5 == 0
        then pure (meta duplicate false false)
        else if position % 2 == 0
        then pure (meta duplicate_2 false false)
        else put k default_account >> pure (meta k false true))
      >>= λ m.
          with_duplicates duplicate duplicate_2 (position + 1) keys >>= λ metas. pure (m ∷ metas)

  -- The test makes ten metas; a key stands by for each position.
  unfoldable pub test_account_loader_duplicate_accounts :
      Pubkey → Pubkey → Pubkey → List Pubkey → Environment → Files → Result Bool
  test_account_loader_duplicate_accounts program_id duplicate duplicate_2 keys env fs =
      from_new sdk fs (
        load_built env "programs/account-loader/target/deploy" "account_loader" program_id
        >> collect_logs
        >> put duplicate default_account
        >> put duplicate_2 default_account
        >> with_duplicates duplicate duplicate_2 0 keys
        >>= λ metas. logs_in_order program_id metas)

  unfoldable pub test_sysvar_ixns : Pubkey → Environment → Files → Result Bool
  test_sysvar_ixns program_id env fs = from_new sdk fs (
      load_built env "programs/sysvar_ixns/target/deploy" "sysvar_ixns" program_id
      >> collect_logs
      >> on_seashell sdk (
          process_instruction sdk (record {
            program_id = program_id;
            accounts = meta instructions_id false false ∷ [];
            bytes = [];
          }))
      >>= λ result. pure (is_none result.error))

  abbrev create_program : Pubkey
  create_program = sdk.pubkey "create1111111111111111111111111111111111111"

  -- `default_key` is `Pubkey::default()`, `find` is `Pubkey::find_program_address`
  unfoldable pub test_create_account :
      Pubkey → (List Bytes → Pubkey → Pubkey × ℕ) → Pubkey → Environment → Files → Result Bool
  test_create_account default_key find signer env fs =
      let (made, s) = new_with_config sdk (record {
        memoize = true;
        allow_uninitialized_accounts_local = true;
        allow_uninitialized_accounts_fetched = true;
      }) in
      let new_account =
        (find ((116 ∷ 101 ∷ 115 ∷ 116 ∷ []) ∷ sdk.to_bytes signer ∷ []) create_program).0 in
      (continue made (s, fs)
        λ _.
          load_built env "programs/create-account/target/deploy" "create_account" create_program
          >> collect_logs
          >> put signer (record {
            lamports = 10000000;
            bytes = [];
            owner = default_key;
            executable = false;
            rent_epoch = 0;
          })
          >> on_seashell sdk (
              process_instruction sdk (record {
                program_id = create_program;
                accounts =
                    meta signer true true
                    ∷ meta new_account false true
                    ∷ meta default_key false false
                    ∷ [];
                bytes = [];
              }))
          >>= λ result. on_seashell sdk (account sdk new_account) >>= λ a.
              pure (is_none result.error && (a.lamports == 7850880) && (length a.bytes == 1000))).0

  unfoldable pub test_sysvar_override : Pubkey → Environment → Files → Result Bool
  unfolding parse_logs
  test_sysvar_override program_id env fs = from_new sdk fs (
      load_built env "programs/sysvar/target/deploy" "sysvar" program_id
      >> collect_logs
      >> lift (expect unwrap_err (clock_codec.serialize expected_clock))
      >>= λ bytes.
          put clock_id (record {
            lamports = 1000;
            bytes = bytes;
            owner = sysvar_owner;
            executable = false;
            rent_epoch = 0;
          })
          >> on_seashell sdk (
              process_instruction sdk
                (record { program_id = program_id; accounts = []; bytes = [] }))
          >>= λ result. read_logs >>= λ lines.
              pure (is_none result.error && are_expected (parse_logs lines) expected_clock))
