-- ===== src/Dedup.antt =====
-- The map from transaction positions to instruction positions that `process_instruction` of
-- crates/seashell-core/src/seashell.rs builds between compiling the accounts and configuring the
-- transaction context.
pub mod Compiled
use seashell.Prelude.{
  ℕ, zero, suc, ◌+◌, ◌%◌, ◌≤◌, ◌<◌, ◌≡◌, refl, ap, ◌∙◌, Bool, some, none, Option, List, [], ◌∷◌,
  arith, ◌==◌, if◌then◌else◌, length, get_elem?, set, replicate, All, any, length-set,
  get_elem?-set_self, get_elem?-set_ne, get_elem?-replicate, get_elem?-in_range,
  get_elem?-lt-length, length-replicate, Bool-cases, inl, inr, ◌≢◌, Option-cases,
}
use seashell.Outcome.{Result, then_ok, ok, unwrap_none, expect}
use seashell.Instruction.{InstructionAccount}

abbrev pub u8_max : ℕ
u8_max = 255

-- the `for` loop; `idx` is the counter of `enumerate`
unfoldable pub fill_dedup : ℕ → List InstructionAccount → List ℕ → Result (List ℕ)
fill_dedup idx [] slots = ok slots
fill_dedup idx (a ∷ accounts) slots =
    then_ok (expect unwrap_none (get_elem? slots a.index_in_transaction)) λ index_in_instruction.
      fill_dedup (suc idx) accounts (
        if index_in_instruction == u8_max
        then set slots a.index_in_transaction (idx % 256)
        else slots)

-- `vec![u8::MAX; MAX_ACCOUNTS_PER_TRANSACTION]` and the loop over it
unfoldable pub dedup_map : ℕ → List InstructionAccount → Result (List ℕ)
unfolding fill_dedup
dedup_map max_accounts accounts = fill_dedup 0 accounts (replicate max_accounts u8_max)

-- Whether an account of the instruction has the transaction index `t`, and where the first stands.
abbrev pub uses_index : ℕ → List InstructionAccount → Bool
uses_index t = any (λ (a : InstructionAccount). t == a.index_in_transaction)

abbrev pub first_use : ℕ → List InstructionAccount → ℕ
first_use t [] = 0
first_use t (a ∷ accounts) = if t == a.index_in_transaction then 0 else suc (first_use t accounts)

-- What the loop leaves in a slot that held `v`.
abbrev settled : ℕ → ℕ → List InstructionAccount → ℕ → ℕ
settled idx t accounts v =
    if v == u8_max
    then (if uses_index t accounts then idx + first_use t accounts else u8_max)
    else v

abbrev pub IndicesBelow : ℕ → List InstructionAccount → Type 0
IndicesBelow n = All (λ (a : InstructionAccount). a.index_in_transaction < n)

-- One round: the slot of the account, once read, holds the first position.
abbrev round : ℕ → InstructionAccount → ℕ → List ℕ → List ℕ
round idx a v slots = if v == u8_max then set slots a.index_in_transaction (idx % 256) else slots

round-get :
    (idx : ℕ) (a : InstructionAccount) (accounts : List InstructionAccount) (w : ℕ) (slots : List ℕ)
    (t v : ℕ)
    → idx < 255
    → get_elem? slots a.index_in_transaction ≡ some w
    → get_elem? slots t ≡ some v
    → (u : ℕ) × (get_elem? (round idx a w slots) t ≡ some u)
      × (settled (suc idx) t accounts u ≡ settled idx t (a ∷ accounts) v)
round-get idx a accounts w slots t v small hw hv = elim (Bool-cases (t == a.index_in_transaction)) [
  | inl same ↦ (
    if w == u8_max then idx % 256 else w,
    ground (
      arith,
      get_elem?-set_self slots a.index_in_transaction (idx % 256)
          (get_elem?-lt-length slots a.index_in_transaction w hw),
    ),
    ground arith,
  )
  | inr other ↦ (
    v,
    ground (
      arith,
      get_elem?-set_ne slots {i = a.index_in_transaction} {j = t} (idx % 256) (λ e. ground arith),
    ),
    ground arith,
  )
]

length-round :
    (idx : ℕ) (a : InstructionAccount) (v : ℕ) (slots : List ℕ)
    → length (round idx a v slots) ≡ length slots
length-round idx a v slots = ground (arith, length-set slots a.index_in_transaction (idx % 256))

fill_dedup-settled :
    (idx : ℕ) (accounts : List InstructionAccount) (slots : List ℕ)
    → idx + length accounts ≤ 255
    → IndicesBelow (length slots) accounts
    → (done : List ℕ) × (fill_dedup idx accounts slots ≡ ok done)
      × (length done ≡ length slots)
      × ((t v : ℕ)
          → get_elem? slots t ≡ some v
          → get_elem? done t ≡ some (settled idx t accounts v))
unfolding fill_dedup
fill_dedup-settled idx [] slots small below = (slots, refl, refl, λ t v h. ground arith)
fill_dedup-settled idx (a ∷ accounts) slots small below =
    let (w, hw) = get_elem?-in_range slots a.index_in_transaction below.0 in
    let (done, filled, same, gets) =
      fill_dedup-settled (suc idx) accounts (round idx a w slots) (omega arith)
        (rw (length-round idx a w slots) below.1) in
    (
      done,
      rw (hw, then_ok, expect) filled,
      same ∙ length-round idx a w slots,
      λ t v h.
          let (u, hu, su) = round-get idx a accounts w slots t v (omega arith) hw h in
          gets t u hu ∙ ap some su,
    )

-- For at most 255 accounts whose indices are within the map, building it never panics; a slot
-- holds the position of the first account with that transaction index, and 255 if none has it.
pub dedup_map-first_use :
    (max_accounts : ℕ) (accounts : List InstructionAccount)
    → length accounts ≤ 255
    → IndicesBelow max_accounts accounts
    → (done : List ℕ) × (dedup_map max_accounts accounts ≡ ok done)
      × (length done ≡ max_accounts)
      × ((t : ℕ)
          → t < max_accounts
          → get_elem? done t
            ≡ some (if uses_index t accounts then first_use t accounts else u8_max))
unfolding dedup_map
dedup_map-first_use n accounts small below =
    let (done, filled, same, gets) =
      fill_dedup-settled 0 accounts (replicate n u8_max) (omega arith)
        (rw (length-replicate n u8_max) below) in
    (
      done,
      filled,
      same ∙ length-replicate n u8_max,
      λ t h. gets t u8_max (get_elem?-replicate n u8_max t h) ∙ ground arith,
    )

-- For at most 255 accounts whose indices are within the map, building it never panics, and a slot
-- of it holds the position of the first account with that transaction index, or 255 if none has it.
pub dedup_map_slot :
    (max_accounts t : ℕ) (accounts : List InstructionAccount)
    → length accounts ≤ 255
    → IndicesBelow max_accounts accounts
    → t < max_accounts
    → (done : List ℕ) × (dedup_map max_accounts accounts ≡ ok done)
      × (length done ≡ max_accounts)
      × (get_elem? done t ≡ some (if uses_index t accounts then first_use t accounts else u8_max))
dedup_map_slot n t accounts small below h =
    let (done, built, size, gets) = dedup_map-first_use n accounts small below in
    (done, built, size, gets t h)
