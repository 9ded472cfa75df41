-- ===== src/Tests/Compiling.antt =====
-- Instructions compiled: a short one that names a key twice, and one with 300 mentions.
use seashell.Prelude.{
  ℕ, zero, suc, ◌%◌, ◌≡◌, ◌≢◌, ◌↔◌, refl, Bool, true, false, some, List, [], ◌∷◌, arith, get_elem?,
}
use seashell.Outcome.{ok}
use seashell.Instruction.{Pubkey, AccountMeta, Instruction, InstructionAccount}
use seashell.Compile.{compile_accounts_for_instruction, transaction_keys}
use seashell.Compile.Merge.{first_index, compile-eq-merged}
use seashell.Compile.Indices.{index_resolves, index_wraps, same_index_iff}
use seashell.Dedup.{dedup_map}
use seashell.Dedup.Compiled.{compiled_slot}

abbrev pub meta : ℕ → Bool → Bool → AccountMeta
meta k signer writable = record { pubkey = k; is_signer = signer; is_writable = writable }

-- the program 100, and the keys 50, 60 and 50 again
abbrev pub transfer : Instruction
transfer = record {
  program_id = 100;
  accounts = meta 50 true false ∷ meta 60 false false ∷ meta 50 false true ∷ [];
  bytes = 2 ∷ 7 ∷ [];
}

abbrev numbered : ℕ → ℕ → List AccountMeta
numbered k zero = []
numbered k (suc n) = meta k false true ∷ numbered (suc k) n

-- the program 100, and the keys 1000 to 1299
abbrev long_instruction : Instruction
long_instruction = record { program_id = 100; accounts = numbered 1000 300; bytes = [] }

abbrev compiled : List InstructionAccount
compiled =
    record { index_in_transaction = 1; is_signer = true; is_writable = true }
    ∷ record { index_in_transaction = 2; is_signer = false; is_writable = false }
    ∷ record { index_in_transaction = 1; is_signer = true; is_writable = true }
    ∷ []

compile-eq-merged_example : compile_accounts_for_instruction transfer ≡ ok compiled
compile-eq-merged_example = compile-eq-merged transfer

index_resolves_example :
    (outs : List InstructionAccount) × (out : InstructionAccount)
    × (compile_accounts_for_instruction transfer ≡ ok outs)
    × (get_elem? outs 2 ≡ some out)
    × (get_elem? (transaction_keys transfer) out.index_in_transaction ≡ some 50)
    × (out.index_in_transaction ≡ 1)
index_resolves_example = index_resolves transfer 2 (meta 50 false true) refl (omega arith)

same_index_iff_example :
    (outs : List InstructionAccount) × (x : InstructionAccount) × (y : InstructionAccount)
    × (compile_accounts_for_instruction transfer ≡ ok outs)
    × (get_elem? outs 0 ≡ some x)
    × (get_elem? outs 2 ≡ some y)
    × ((x.index_in_transaction ≡ y.index_in_transaction) ↔ (◌≡◌ {A = ℕ} 50 50))
    × ((x ≡ y) ↔ (◌≡◌ {A = ℕ} 50 50))
same_index_iff_example =
    same_index_iff transfer 0 2 (meta 50 true false) (meta 50 false true) (omega arith) refl refl

index_wraps_example :
    (outs : List InstructionAccount) × (out : InstructionAccount)
    × (compile_accounts_for_instruction long_instruction ≡ ok outs)
    × (get_elem? outs 280 ≡ some out)
    × (out.index_in_transaction ≡ first_index 1280 (transaction_keys long_instruction) % 256)
    × (k : Pubkey) × (get_elem? (transaction_keys long_instruction) out.index_in_transaction
        ≡ some k)
    × (k ≢ 1280)
index_wraps_example = index_wraps long_instruction 280 (meta 1280 false true) refl (omega arith)

compiled_slot_example :
    (outs : List InstructionAccount) × (out : InstructionAccount) × (done : List ℕ)
    × (compile_accounts_for_instruction transfer ≡ ok outs)
    × (get_elem? outs 2 ≡ some out)
    × (dedup_map 256 outs ≡ ok done)
    × (get_elem? done out.index_in_transaction ≡ some 0)
compiled_slot_example =
    compiled_slot transfer 256 2 (meta 50 false true) (omega arith) (omega arith) refl
