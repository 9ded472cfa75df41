-- ===== src/Compile.antt =====
-- crates/seashell-core/src/compile.rs: `compile_accounts_for_instruction`, loop by loop. The two
-- `IndexMap`s are association lists, and `idx as u8` is a remainder.
pub mod Merge
pub mod Indices
pub mod UnitTests
use seashell.Prelude.{ℕ, suc, ◌%◌, Bool, false, ◌||◌, List, [], ◌∷◌, map}
use seashell.Prelude.Map.{Map, lookup, insert, upsert}
use seashell.Outcome.{Result, then_ok, ok, unwrap_none, expect, map_result}
use seashell.Instruction.{Pubkey, AccountMeta, Instruction, InstructionAccount}

abbrev pub instruction_program_id_index : ℕ
instruction_program_id_index = 0

-- the first loop: every mention of an account adds its privileges
unfoldable pub merge_privileges : Map (Bool × Bool) → List AccountMeta → Map (Bool × Bool)
merge_privileges m [] = m
merge_privileges m (a ∷ metas) =
    merge_privileges
      (upsert a.pubkey (λ e. (e.0 || a.is_signer, e.1 || a.is_writable))
        (a.is_signer, a.is_writable) m)
      metas

-- `transaction_accounts`
abbrev pub transaction_keys : Instruction → List Pubkey
transaction_keys ixn = ixn.program_id ∷ map (λ (a : AccountMeta). a.pubkey) ixn.accounts

-- the third loop: `entry(*pubkey).or_insert(idx as u8)`; `idx` is the counter of `enumerate`
unfoldable pub first_indices : ℕ → List Pubkey → Map ℕ → Map ℕ
first_indices idx [] m = m
first_indices idx (k ∷ keys) m = first_indices (suc idx) keys (upsert k (λ i. i) (idx % 256) m)

-- the closure of the last `map`
unfoldable pub compile_meta : Map (Bool × Bool) → Map ℕ → AccountMeta → Result InstructionAccount
compile_meta account_map first a = then_ok (expect unwrap_none (lookup a.pubkey first)) λ index.
    then_ok (expect unwrap_none (lookup a.pubkey account_map))
      λ e. ok (record { index_in_transaction = index; is_signer = e.0; is_writable = e.1 })

unfoldable pub compile_accounts_for_instruction : Instruction → Result (List InstructionAccount)
unfolding merge_privileges first_indices compile_meta
compile_accounts_for_instruction ixn =
    map_result
      (compile_meta (merge_privileges (insert ixn.program_id (false, false) []) ixn.accounts)
        (first_indices 0 (transaction_keys ixn) []))
      ixn.accounts
