-- ===== src/Dedup/Compiled.antt =====
-- The deduplication map of a compiled instruction: crates/seashell-core/src/seashell.rs builds it
-- over the result of compile.rs.
use mathlib.Core.Option.{some-injective}
use seashell.Prelude.{
  ℕ, ◌≤◌, ◌≡◌, ◌↔◌, refl, ◌∙◌, true, some, suc, zero, List, [], ◌∷◌, map, arith, length, get_elem?,
  All, length-map, All-get_elem?, get_elem?-map,
}
use seashell.Outcome.{ok}
use seashell.Instruction.{Pubkey, AccountMeta, Instruction, InstructionAccount}
use seashell.Compile.{compile_accounts_for_instruction}
use seashell.Compile.Merge.{first_index, merged, compile-eq-merged}
use seashell.Compile.Indices.{merged_index_iff, index_lt}
use seashell.Dedup.{dedup_map, uses_index, first_use, IndicesBelow, dedup_map-first_use}

abbrev meta_keys : List AccountMeta → List Pubkey
meta_keys = map (λ (b : AccountMeta). b.pubkey)

module _ (ixn : Instruction) where
  pub merged-IndicesBelow :
      (n : ℕ) (metas : List AccountMeta) → 256 ≤ n → IndicesBelow n (map (merged ixn) metas)
  merged-IndicesBelow n [] h = tt
  merged-IndicesBelow n (a ∷ metas) h = (omega arith, merged-IndicesBelow n metas h)

  abbrev Separates : AccountMeta → AccountMeta → Type 0
  Separates a b =
      ((merged ixn a).index_in_transaction ≡ (merged ixn b).index_in_transaction)
      ↔ (a.pubkey ≡ b.pubkey)

  first_use-merged :
      (a : AccountMeta) (metas : List AccountMeta)
      → All (Separates a) metas
      → first_use (merged ixn a).index_in_transaction (map (merged ixn) metas)
        ≡ first_index a.pubkey (meta_keys metas)
  first_use-merged a [] h = refl
  first_use-merged a (b ∷ metas) h = ground (arith, first_use-merged a metas h.1, h.0.0, h.0.1)

  uses_index-merged :
      (a : AccountMeta) (metas : List AccountMeta) (i : ℕ)
      → get_elem? metas i ≡ some a
      → uses_index (merged ixn a).index_in_transaction (map (merged ixn) metas) ≡ true
  uses_index-merged a [] i h = cc
  uses_index-merged a (b ∷ metas) zero h = ground (arith, some-injective b a h)
  uses_index-merged a (b ∷ metas) (suc i) h = ground (arith, uses_index-merged a metas i h)

  -- For at most 255 mentions and a map of at least 256 slots neither step panics, and the slot at
  -- the compiled index of a mention holds the position of the first mention of the same key.
  pub compiled_slot :
      (max_accounts i : ℕ) (a : AccountMeta)
      → length ixn.accounts ≤ 255
      → 256 ≤ max_accounts
      → get_elem? ixn.accounts i ≡ some a
      → (outs : List InstructionAccount) × (out : InstructionAccount) × (done : List ℕ)
        × (compile_accounts_for_instruction ixn ≡ ok outs)
        × (get_elem? outs i ≡ some out)
        × (dedup_map max_accounts outs ≡ ok done)
        × (get_elem? done out.index_in_transaction
            ≡ some (first_index a.pubkey (meta_keys ixn.accounts)))
  compiled_slot n i a small room here =
      let outs = map (merged ixn) ixn.accounts in
      let (done, built, _, gets) =
        dedup_map-first_use n outs (rw length-map small)
          (merged-IndicesBelow n ixn.accounts room) in
      (
        outs,
        merged ixn a,
        done,
        compile-eq-merged ixn,
        get_elem?-map (merged ixn) ixn.accounts i a here,
        built,
        gets (merged ixn a).index_in_transaction (omega (arith, index_lt ixn i a here))
            ∙ ground (
              arith,
              uses_index-merged a ixn.accounts i here,
              first_use-merged a ixn.accounts (
                  All-get_elem? (Separates a) ixn.accounts
                    (λ j b hb. merged_index_iff ixn i j a b (omega arith) here hb)),
            ),
      )
