-- ===== src/Compile/Merge.antt =====
-- What the loops of `compile_accounts_for_instruction` compute, against a description that scans
-- the instruction once for each account.
use seashell.Prelude.{
  ℕ, suc, ◌+◌, ◌%◌, ◌≡◌, refl, Bool, true, false, ◌&&◌, ◌||◌, Option, none, some, List, [], ◌∷◌,
  map, arith, ◌==◌, if◌then◌else◌, All, any,
}
use seashell.Prelude.Map.{Map, lookup, insert, upsert, or_else, lookup-upsert}
use seashell.Outcome.{ok, map_result}
use seashell.Instruction.{Pubkey, AccountMeta, Instruction, InstructionAccount}
use seashell.Compile.{
  merge_privileges, transaction_keys, first_indices, compile_meta, compile_accounts_for_instruction,
}

-- Whether some mention of the account names it, signs for it, or may write to it.
abbrev pub mentions : Pubkey → List AccountMeta → Bool
mentions k = any (λ (a : AccountMeta). k == a.pubkey)

abbrev pub signs : Pubkey → List AccountMeta → Bool
signs k = any (λ (a : AccountMeta). k == a.pubkey && a.is_signer)

abbrev pub writes : Pubkey → List AccountMeta → Bool
writes k = any (λ (a : AccountMeta). k == a.pubkey && a.is_writable)

-- The position of the first key that equals `k`; the length where none does.
abbrev pub first_index : Pubkey → List Pubkey → ℕ
first_index k [] = 0
first_index k (j ∷ keys) = if k == j then 0 else suc (first_index k keys)

abbrev pub mem : Pubkey → List Pubkey → Bool
mem k = any (λ j. k == j)

-- The privileges that a map entry has after the loop.
abbrev joined : Option (Bool × Bool) → Pubkey → List AccountMeta → Option (Bool × Bool)
joined none k metas = if mentions k metas then some (signs k metas, writes k metas) else none
joined (some e) k metas = some (e.0 || signs k metas, e.1 || writes k metas)

lookup-merge_privileges :
    (k : Pubkey) (m : Map (Bool × Bool)) (metas : List AccountMeta)
    → lookup k (merge_privileges m metas) ≡ joined (lookup k m) k metas
unfolding merge_privileges
lookup-merge_privileges k m [] = ground arith
lookup-merge_privileges k m (a ∷ metas) =
    let bump : Bool × Bool → Bool × Bool = λ e. (e.0 || a.is_signer, e.1 || a.is_writable) in
    ground (
      arith,
      lookup-merge_privileges k (upsert a.pubkey bump (a.is_signer, a.is_writable) m) metas,
      lookup-upsert k a.pubkey bump (a.is_signer, a.is_writable) m,
    )

lookup-first_indices :
    (k : Pubkey) (idx : ℕ) (keys : List Pubkey) (m : Map ℕ)
    → lookup k (first_indices idx keys m)
      ≡ or_else (lookup k m) (if mem k keys then some ((idx + first_index k keys) % 256) else none)
unfolding first_indices
lookup-first_indices k idx [] m = ground arith
lookup-first_indices k idx (j ∷ keys) m = ground (
  arith,
  lookup-first_indices k (suc idx) keys (upsert j (λ i. i) (idx % 256) m),
  lookup-upsert k j (λ i. i) (idx % 256) m,
)

-- The account that a mention is compiled to, read off the instruction as a whole: it depends on
-- the key of the mention only.
abbrev pub merged_key : Instruction → Pubkey → InstructionAccount
merged_key ixn k = record {
  index_in_transaction = first_index k (transaction_keys ixn) % 256;
  is_signer = signs k ixn.accounts;
  is_writable = writes k ixn.accounts;
}

abbrev pub merged : Instruction → AccountMeta → InstructionAccount
merged ixn a = merged_key ixn a.pubkey

mem-map :
    (k : Pubkey) (metas : List AccountMeta)
    → mem k (map (λ (a : AccountMeta). a.pubkey) metas) ≡ mentions k metas
mem-map k [] = refl
mem-map k (a ∷ metas) = ground (arith, mem-map k metas)

module _ (ixn : Instruction) where
  compile_meta-merged :
      (a : AccountMeta)
      → mentions a.pubkey ixn.accounts ≡ true
      → compile_meta
          (merge_privileges (insert ixn.program_id (false, false) []) ixn.accounts)
          (first_indices 0 (transaction_keys ixn) [])
          a
        ≡ ok (merged ixn a)
  unfolding compile_meta
  compile_meta-merged a h = ground (
    arith,
    lookup-merge_privileges a.pubkey ((ixn.program_id, (false, false)) ∷ []) ixn.accounts,
    lookup-first_indices a.pubkey 0 (transaction_keys ixn) [],
    mem-map a.pubkey ixn.accounts,
  )

  map_result-merged :
      (metas : List AccountMeta)
      → All (λ (a : AccountMeta). mentions a.pubkey ixn.accounts ≡ true) metas
      → map_result
          (compile_meta
            (merge_privileges (insert ixn.program_id (false, false) []) ixn.accounts)
            (first_indices 0 (transaction_keys ixn) []))
          metas
        ≡ ok (map (merged ixn) metas)
  map_result-merged [] h = refl
  map_result-merged (a ∷ metas) h =
      ground (arith, compile_meta-merged a h.0, map_result-merged metas h.1)

All-mentions_cons :
    (a : AccountMeta) (metas ms : List AccountMeta)
    → All (λ (b : AccountMeta). mentions b.pubkey metas ≡ true) ms
    → All (λ (b : AccountMeta). mentions b.pubkey (a ∷ metas) ≡ true) ms
All-mentions_cons a metas [] h = tt
All-mentions_cons a metas (b ∷ ms) h = ground (arith, All-mentions_cons a metas ms h.1)

All-mentions_self :
    (metas : List AccountMeta) → All (λ (b : AccountMeta). mentions b.pubkey metas ≡ true) metas
All-mentions_self [] = tt
All-mentions_self (a ∷ metas) =
    (ground arith, All-mentions_cons a metas metas (All-mentions_self metas))

-- Compiling never panics: it yields one account for each mention, in order, at the first position
-- of its key among the program and the mentions (cut to a byte), a signer or writable exactly if
-- some mention of the same key is.
pub compile-eq-merged :
    (ixn : Instruction) → compile_accounts_for_instruction ixn ≡ ok (map (merged ixn) ixn.accounts)
unfolding compile_accounts_for_instruction
compile-eq-merged ixn = map_result-merged ixn ixn.accounts (All-mentions_self ixn.accounts)
