-- ===== src/Compile/Indices.antt =====
-- What the compiled indices mean: below 256 keys they resolve to the keys that they stand for, and
-- beyond that the cast `idx as u8` makes them stand for other keys.
use seashell.Prelude.{
  ℕ, zero, suc, ◌%◌, ◌≤◌, ◌<◌, ◌≡◌, ◌≢◌, ◌↔◌, refl, ap, ◌∙◌, some, List, [], ◌∷◌, map, arith,
  length, get_elem?, get_elem?-map, get_elem?-lt-length,
}
use seashell.Outcome.{ok}
use seashell.Instruction.{Pubkey, AccountMeta, Instruction, InstructionAccount}
use seashell.Compile.{transaction_keys, compile_accounts_for_instruction}
use seashell.Compile.Merge.{first_index, merged_key, merged, compile-eq-merged}

first_index-get :
    (k : Pubkey) (keys : List Pubkey) (i : ℕ)
    → get_elem? keys i ≡ some k
    → get_elem? keys (first_index k keys) ≡ some k
first_index-get k [] i h = cc
first_index-get k (j ∷ keys) zero h = ground arith
first_index-get k (j ∷ keys) (suc i) h = ground (arith, first_index-get k keys i h)

first_index-le :
    (k : Pubkey) (keys : List Pubkey) (i : ℕ) → get_elem? keys i ≡ some k → first_index k keys ≤ i
first_index-le k [] i h = cc
first_index-le k (j ∷ keys) zero h = ground arith
first_index-le k (j ∷ keys) (suc i) h = ground (arith, first_index-le k keys i h)

-- Below its length a list has an element.
get_elem?-lt : (l : List Pubkey) (i : ℕ) → i < length l → (k : Pubkey) × (get_elem? l i ≡ some k)
get_elem?-lt [] i h = absurd (omega arith)
get_elem?-lt (k ∷ l) zero h = (k, refl)
get_elem?-lt (k ∷ l) (suc i) h = get_elem?-lt l i (omega arith)

module _ (ixn : Instruction) (i : ℕ) (a : AccountMeta)
    (here : get_elem? ixn.accounts i ≡ some a) where
  -- The key of the mention at position `i` stands at position `i + 1` of the transaction.
  key_at : get_elem? (transaction_keys ixn) (suc i) ≡ some a.pubkey
  key_at = get_elem?-map (λ (b : AccountMeta). b.pubkey) ixn.accounts i a here

  first_index-lt : first_index a.pubkey (transaction_keys ixn) < length (transaction_keys ixn)
  first_index-lt =
      get_elem?-lt-length (transaction_keys ixn) (first_index a.pubkey (transaction_keys ixn))
        a.pubkey (first_index-get a.pubkey (transaction_keys ixn) (suc i) key_at)

  merged_index :
      length ixn.accounts < 256
      → (merged ixn a).index_in_transaction ≡ first_index a.pubkey (transaction_keys ixn)
  merged_index short = omega (
    arith,
    first_index-le a.pubkey (transaction_keys ixn) (suc i) key_at,
    get_elem?-lt-length ixn.accounts i a here,
  )

  pub index_lt : (merged ixn a).index_in_transaction < 256
  index_lt = omega arith

  -- With fewer than 256 mentions, the account compiled for the mention at position `i` has an index
  -- at which the transaction holds that mention's key: the first position of the key.
  pub index_resolves :
      length ixn.accounts < 256
      → (outs : List InstructionAccount) × (out : InstructionAccount)
        × (compile_accounts_for_instruction ixn ≡ ok outs)
        × (get_elem? outs i ≡ some out)
        × (get_elem? (transaction_keys ixn) out.index_in_transaction ≡ some a.pubkey)
        × (out.index_in_transaction ≡ first_index a.pubkey (transaction_keys ixn))
  index_resolves short = (
    map (merged ixn) ixn.accounts,
    merged ixn a,
    compile-eq-merged ixn,
    get_elem?-map (merged ixn) ixn.accounts i a here,
    rw (merged_index short) (first_index-get a.pubkey (transaction_keys ixn) (suc i) key_at),
    merged_index short,
  )

  -- If the first position of the key in the transaction is 256 or more, the compiled index is that
  -- position modulo 256, which is another position of the transaction, and it holds another key.
  pub index_wraps :
      256 ≤ first_index a.pubkey (transaction_keys ixn)
      → (outs : List InstructionAccount) × (out : InstructionAccount)
        × (compile_accounts_for_instruction ixn ≡ ok outs)
        × (get_elem? outs i ≡ some out)
        × (out.index_in_transaction ≡ first_index a.pubkey (transaction_keys ixn) % 256)
        × (k : Pubkey) × (get_elem? (transaction_keys ixn) out.index_in_transaction ≡ some k)
        × (k ≢ a.pubkey)
  index_wraps long =
      let (k, there) =
        get_elem?-lt (transaction_keys ixn) (first_index a.pubkey (transaction_keys ixn) % 256)
          (omega (arith, first_index-lt)) in
      (
        map (merged ixn) ixn.accounts,
        merged ixn a,
        compile-eq-merged ixn,
        get_elem?-map (merged ixn) ixn.accounts i a here,
        refl,
        k,
        there,
        λ same. absurd (
            omega (
              arith,
              first_index-le a.pubkey (transaction_keys ixn)
                  (first_index a.pubkey (transaction_keys ixn) % 256) (there ∙ ap some same),
            )),
      )

pub merged_index_iff :
    (ixn : Instruction) (i j : ℕ) (a b : AccountMeta)
    → length ixn.accounts < 256
    → get_elem? ixn.accounts i ≡ some a
    → get_elem? ixn.accounts j ≡ some b
    → ((merged ixn a).index_in_transaction ≡ (merged ixn b).index_in_transaction)
      ↔ (a.pubkey ≡ b.pubkey)
merged_index_iff ixn i j a b short ha hb = (
  (λ e. cc (
    e,
    merged_index ixn i a ha short,
    merged_index ixn j b hb short,
    first_index-get a.pubkey (transaction_keys ixn) (suc i) (key_at ixn i a ha),
    first_index-get b.pubkey (transaction_keys ixn) (suc j) (key_at ixn j b hb),
  )),
  (λ e. ap (λ k. (merged_key ixn k).index_in_transaction) e),
)

-- With fewer than 256 mentions, two mentions are compiled to the same index exactly if they name
-- the same key, and to the same account of the instruction exactly then too.
pub same_index_iff :
    (ixn : Instruction) (i j : ℕ) (a b : AccountMeta)
    → length ixn.accounts < 256
    → get_elem? ixn.accounts i ≡ some a
    → get_elem? ixn.accounts j ≡ some b
    → (outs : List InstructionAccount) × (x : InstructionAccount) × (y : InstructionAccount)
      × (compile_accounts_for_instruction ixn ≡ ok outs)
      × (get_elem? outs i ≡ some x)
      × (get_elem? outs j ≡ some y)
      × ((x.index_in_transaction ≡ y.index_in_transaction) ↔ (a.pubkey ≡ b.pubkey))
      × ((x ≡ y) ↔ (a.pubkey ≡ b.pubkey))
same_index_iff ixn i j a b short ha hb = (
  map (merged ixn) ixn.accounts,
  merged ixn a,
  merged ixn b,
  compile-eq-merged ixn,
  get_elem?-map (merged ixn) ixn.accounts i a ha,
  get_elem?-map (merged ixn) ixn.accounts j b hb,
  merged_index_iff ixn i j a b short ha hb,
  (
    λ e.
        (merged_index_iff ixn i j a b short ha hb).0
          (ap (λ (x : InstructionAccount). x.index_in_transaction) e),
    λ e. ap (merged_key ixn) e,
  ),
)
