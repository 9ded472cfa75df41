-- ===== src/Instruction.antt =====
-- The instruction that a test hands in: the structs `Instruction`, `AccountMeta` and
-- `InstructionAccount` of the Solana crates, with the fields that crates/seashell-core builds and
-- reads. Public keys are 32-byte values that the code only compares, so they are numbers.
use seashell.Prelude.{ℕ, Bool, List}

abbrev pub Pubkey : Type 0
Pubkey = ℕ

abbrev pub Bytes : Type 0
Bytes = List ℕ

pub record AccountMeta : Type 0 where
  pub pubkey : Pubkey
  pub is_signer : Bool
  pub is_writable : Bool

pub record Instruction : Type 0 where
  pub program_id : Pubkey
  pub accounts : List AccountMeta
  pub bytes : Bytes

pub record InstructionAccount : Type 0 where
  pub index_in_transaction : ℕ
  pub is_signer : Bool
  pub is_writable : Bool
