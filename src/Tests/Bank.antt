-- ===== src/Tests/Bank.antt =====
-- The unit tests that transfer, on a small instance whose programs move lamports and tokens.
use mathlib.Core.Option
use mathlib.Core.Option.{get_or}
use seashell.Prelude.{
  ℕ, ◌+◌, ◌-◌, ◌%◌, ◌≡◌, refl, true, none, some, List, [], ◌∷◌, replicate, ◌++◌, ◌==◌,
  if◌then◌else◌,
}
use seashell.Prelude.Slices.{to_le_bytes, from_le_bytes, take, drop}
use seashell.Prelude.Map.{lookup}
use seashell.Outcome.{ok, add_u64}
use seashell.Instruction.{Pubkey, Bytes, Instruction}
use seashell.Sdk.{Sdk, Account}
use seashell.Sysvars.{is_sysvar, get_sysvar}
use seashell.Scenario
use seashell.Compile.{compile_accounts_for_instruction}
use seashell.Dedup.{dedup_map}
use seashell.AccountsDb.{
  account_maybe, account_must, load_builtins, build_program, load_program_from_bytes_with_loader,
  accounts_for_instruction, sysvars_for_instruction,
}
use seashell.Seashell.{new, new_with_config, airdrop, account, load_program_from_bytes, use_p_token}
use seashell.Seashell.Process.{process_instruction}
use seashell.Seashell.UnitTests.Transfers.{
  test_native_transfer, test_memoize, test_spl_transfer, test_spl_transfer_p_token, token_data,
}
use seashell.Seashell.UnitTests.Precompiles.{Signers, test_precompiles}
use seashell.Tests.Text.{sum_of}
use seashell.Tests.Toy.{toy}

-- the accounts of a transaction, and the data of its instruction
abbrev Context : Type 0
Context = List (Pubkey × Account) × Bytes

-- the first account, after the program's, pays the second
abbrev between : (Account → Account) → (Account → Account) → Context → Context
between f g (p ∷ (j, a) ∷ (k, b) ∷ l, bytes) = (p ∷ (j, f a) ∷ (k, g b) ∷ l, bytes)
between f g (l, bytes) = (l, bytes)

abbrev with_tokens : (ℕ → ℕ) → Account → Account
with_tokens f a = record a {
  bytes =
      take 64 a.bytes
      ++ to_le_bytes 8 (f (from_le_bytes (take 8 (drop 64 a.bytes))))
      ++ drop 72 a.bytes;
}

abbrev pay_lamports : Context → Context
pay_lamports c =
    let n = from_le_bytes (drop 4 c.1) in
    between (λ a. record a { lamports = a.lamports - n })
      (λ a. record a { lamports = a.lamports + n }) c

abbrev pay_tokens : Context → Context
pay_tokens c =
    let n = from_le_bytes (drop 1 c.1) in
    between (with_tokens (λ m. m - n)) (with_tokens (λ m. m + n)) c

abbrev called : Context → Pubkey
called ((k, a) ∷ l, bytes) = k
called ([], bytes) = 0

-- The program 0 moves lamports; of the others, one of two bytes is the cheap token program.
abbrev bank : Sdk
bank = record toy {
  TransactionContext = Context;
  new_context = λ l rent depth trace. (l, []);
  configure_next_instruction = λ c n accounts slots bytes. some (c.0, bytes);
  find_index_of_account = λ c k. Option.map (λ a. k) (lookup k c.0);
  try_borrow = λ c i. lookup i c.0;
  return_data_of = λ c. [];
  run_program = λ c p f v l b.
      if called c == 0
      then (none, 150, pay_lamports c, l)
      else (none, if get_or (lookup (called c) p) 0 == 2 then 82 else 4644, pay_tokens c, l);
  run_precompile = λ callback c l p b bs. (none, c, l);
  include_bytes = λ t. if sum_of t == sum_of "elfs/ptoken.so" then 1 ∷ 2 ∷ [] else 1 ∷ [];
}

native_transfer_passes : test_native_transfer bank true 70 71 ≡ ok true
unfolding test_native_transfer new load_builtins is_sysvar load_program_from_bytes
    load_program_from_bytes_with_loader build_program airdrop account_maybe add_u64 Scenario.get
    process_instruction accounts_for_instruction sysvars_for_instruction get_sysvar
    compile_accounts_for_instruction dedup_map
native_transfer_passes = refl

memoize_passes : test_memoize bank true 70 71 ≡ ok true
unfolding test_memoize new load_builtins is_sysvar load_program_from_bytes
    load_program_from_bytes_with_loader build_program airdrop account_maybe add_u64 Scenario.get
    process_instruction accounts_for_instruction sysvars_for_instruction get_sysvar
    compile_accounts_for_instruction dedup_map new_with_config account account_must
memoize_passes = refl

spl_transfer_passes : test_spl_transfer bank true 70 71 72 73 74 ≡ ok true
unfolding test_spl_transfer new load_builtins is_sysvar load_program_from_bytes
    load_program_from_bytes_with_loader build_program airdrop account_maybe add_u64 Scenario.get
    process_instruction accounts_for_instruction sysvars_for_instruction get_sysvar
    compile_accounts_for_instruction dedup_map token_data
spl_transfer_passes = refl

spl_transfer_p_token_passes : test_spl_transfer_p_token bank true 70 71 72 73 74 ≡ ok true
unfolding test_spl_transfer_p_token new load_builtins is_sysvar load_program_from_bytes
    load_program_from_bytes_with_loader build_program airdrop account_maybe add_u64 Scenario.get
    process_instruction accounts_for_instruction sysvars_for_instruction get_sysvar
    compile_accounts_for_instruction dedup_map token_data use_p_token
spl_transfer_p_token_passes = refl

-- an instruction of the one precompile of the small instance, over what was signed
abbrev verified : Bytes → Instruction
verified bytes = record { program_id = 90; accounts = []; bytes = bytes }

abbrev counters : Signers
counters = record {
  Rng = ℕ;
  gen_range = λ rng low high. (low + rng % high, rng + 1);
  Keypair = ℕ;
  generate_keypair = λ rng. (rng, rng + 1);
  sign = λ key text. key ∷ text;
  public_bytes = λ key. key ∷ [];
  new_ed25519_instruction_with_signature = λ text signature public. verified signature;
  SecretKey = ℕ;
  random_key = λ rng. (rng, rng + 1);
  serialize_secret = λ key. key ∷ [];
  serialize_public_of = λ key. replicate 65 key;
  eth_address_from_pubkey = λ public. take 20 public;
  sign_secp256k1 = λ key text. some (key ++ text, 0);
  new_secp256k1_instruction_with_signature = λ text signature id address. verified signature;
  EcGroup = Unit {0};
  EcKey = ℕ;
  prime256v1 = some tt;
  generate_ec_key = λ group. some 5;
  private_key_to_der = λ key. some (key ∷ []);
  sign_secp256r1 = λ text der. some (der ++ text);
  BigNumContext = Unit {0};
  new_big_num_context = some tt;
  compressed_public = λ group key context. some (replicate 33 key);
  new_secp256r1_instruction_with_signature = λ text signature public. verified signature;
}

precompiles_pass : test_precompiles counters bank 7 ≡ ok true
unfolding test_precompiles new load_builtins is_sysvar load_program_from_bytes
    load_program_from_bytes_with_loader build_program account_maybe add_u64 Scenario.get
    process_instruction accounts_for_instruction sysvars_for_instruction get_sysvar
    compile_accounts_for_instruction dedup_map
precompiles_pass = refl
