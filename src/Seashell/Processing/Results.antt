-- ===== src/Seashell/Processing/Results.antt =====
-- A memoized instruction, from the call to what is read afterwards.
use mathlib.Core.Option.{get_or}
use seashell.Prelude.{
  ℕ, Bool-cases, ◌≡◌, ap, ◌∙◌, true, false, inl, inr, Option, none, some, List, [], ◌∷◌, arith,
  ◌==◌,
}
use seashell.Prelude.Map.{lookup}
use seashell.Outcome.{ok, lift, then_ok-eq-ok, expect-eq-ok, failed_to_configure}
use seashell.Outcome.Triple.{
  Triple, Triple-ok, Triple-pure, Triple-lift, Triple-bind, Triple-gets, Triple-read, Triple-given,
}
use seashell.Instruction.{Pubkey, Bytes, Instruction, InstructionAccount}
use seashell.Compile.{
  transaction_keys, instruction_program_id_index, compile_accounts_for_instruction,
}
use seashell.Compile.Merge.{mem}
use seashell.Dedup.{dedup_map}
use seashell.Sdk.{Sdk, Account}
use seashell.Scenario
use seashell.Sysvars.{is_sysvar}
use seashell.AccountsDb.{account_maybe, sysvars_for_instruction}
use seashell.AccountsDb.Loading.{keys}
use seashell.Seashell.{Config, Seashell, callback_is_precompile}
use seashell.Seashell.Process.{
  InstructionProcessingResult, Invocation, configure, invoke, conclude, finish, process_instruction,
}
use seashell.Seashell.Processing.{Same, Same-refl, Loaded, load-Loaded, process_instruction_reports}
use seashell.Seashell.Processing.Memoize.{post_accounts-Kept}

-- What is documented of a transaction context: it finds each account that it was built with, and
-- neither configuring it nor an invocation changes at which index; an account that it finds can be
-- borrowed when nothing runs.
pub record HasContext (sdk : Sdk) : Type 0 where
  pub find-new :
      (l : List (Pubkey × sdk.Shared)) (rent : sdk.Rent) (d n : ℕ) (k : Pubkey) (x : sdk.Shared)
      → lookup k l ≡ some x
      → (i : ℕ) × (sdk.find_index_of_account (sdk.new_context l rent d n) k ≡ some i)
  pub find-configure :
      (c c' : sdk.TransactionContext) (n : ℕ) (accounts : List InstructionAccount) (slots : List ℕ)
      (b : Bytes) (k : Pubkey)
      → sdk.configure_next_instruction c n accounts slots b ≡ some c'
      → sdk.find_index_of_account c' k ≡ sdk.find_index_of_account c k
  pub find-run :
      (c : sdk.TransactionContext) (p : sdk.Programs) (f : sdk.FeatureSet) (v : sdk.SysvarCache)
      (l : Option sdk.LogCollector) (b : sdk.ComputeBudget) (k : Pubkey)
      → sdk.find_index_of_account (sdk.run_program c p f v l b).2 k ≡ sdk.find_index_of_account c k
  pub find-precompile :
      (callback : Pubkey → Bytes → List Bytes → Option sdk.PrecompileError)
      (c : sdk.TransactionContext) (l : Option sdk.LogCollector) (p : Pubkey) (b : Bytes)
      (bs : List Bytes) (k : Pubkey)
      → sdk.find_index_of_account (sdk.run_precompile callback c l p b bs).1 k
        ≡ sdk.find_index_of_account c k
  pub borrow-found :
      (c : sdk.TransactionContext) (k : Pubkey) (i : ℕ)
      → sdk.find_index_of_account c k ≡ some i
      → (x : sdk.Shared) × (sdk.try_borrow c i ≡ some x)

-- A key among the keys of a list is found in it.
pub lookup-mem {ℓ} :
    {V : Type ℓ} (k : Pubkey) (l : List (Pubkey × V))
    → mem k (keys l) ≡ true
    → (v : V) × (lookup k l ≡ some v)
lookup-mem k [] h = absurd (cc)
lookup-mem k ((j, v) ∷ l) h = elim (Bool-cases (k == j)) [
  | inl same ↦ (v, rw same)
  | inr other ↦ let (w, f) = lookup-mem k l (ground arith) in (w, rw other f)
]

module _ (sdk : Sdk) (laws : HasContext sdk) (ixn : Instruction) (k : Pubkey) where
  open sdk use {
    Shared, TransactionContext, SysvarCache, InstructionError, to_account, find_index_of_account,
    new_context, max_instruction_stack_depth, max_instruction_trace_length,
    max_accounts_per_transaction,
  }

  abbrev Memo : Seashell sdk → Type 0
  Memo t = t.config.memoize ≡ true

  -- The context finds the key.
  abbrev Finds : TransactionContext → Type 0
  Finds c = (i : ℕ) × (find_index_of_account c k ≡ some i)

  configure-Finds :
      (l : List (Pubkey × Shared)) (x : Shared) (t : Seashell sdk) (c : TransactionContext)
      → lookup k l ≡ some x
      → configure sdk ixn l t ≡ ok c
      → Finds c
  unfolding configure
  configure-Finds l x t c here e =
      let context =
        new_context l t.accounts_db.sysvars.rent (max_instruction_stack_depth t.compute_budget)
          (max_instruction_trace_length t.compute_budget) in
      let (accounts, compiled, e') = then_ok-eq-ok (compile_accounts_for_instruction ixn) _ e in
      let (slots, filled, e'') =
        then_ok-eq-ok (dedup_map max_accounts_per_transaction accounts) _ e' in
      let (i, found) = laws.find-new l _ _ _ k x here in
      (
        i,
        laws.find-configure context c instruction_program_id_index accounts slots ixn.bytes k
              (expect-eq-ok failed_to_configure _ e'')
            ∙ found,
      )

  invoke-Finds :
      (cache : SysvarCache) (c : TransactionContext)
      → Finds c
      → Triple Memo (invoke sdk ixn cache c) (λ v t. Memo t × Finds v.context)
  unfolding invoke
  invoke-Finds cache c (i, found) = record {
    by = λ t h. elim (Bool-cases (callback_is_precompile sdk t ixn.program_id)) [
      | inl precompile ↦ rw precompile (h, (i, laws.find-precompile _ c _ _ _ _ k ∙ found))
      | inr program ↦ rw program (h, (i, laws.find-run c _ _ _ _ _ k ∙ found))
    ];
  }

  module _ (plain : is_sysvar sdk k ≡ false) where
    -- The account reported for the key is among the accounts of the database.
    abbrev Memoized : InstructionProcessingResult sdk → Seashell sdk → Type 0
    Memoized r t =
        (a : Account)
        → lookup k r.post_execution_accounts ≡ some a
        → (x : Shared) × (a ≡ to_account x) × (lookup k t.accounts_db.accounts ≡ some x)

    conclude-Memoized :
        (accounts : List (Pubkey × Shared)) (v : Invocation sdk) (failure : Option InstructionError)
        → Finds v.context
        → Triple Memo (conclude sdk accounts v failure) Memoized
    unfolding conclude
    conclude-Memoized accounts v none (i, found) =
        let (x, borrowed) = laws.borrow-found v.context k i found in
        Triple-bind _ _ (post_accounts-Kept sdk v.context k i x plain found borrowed accounts)
          (λ after. Triple-pure _ (λ t h a here. (x, (h.1 a here).0, (h.1 a here).1)))
    conclude-Memoized accounts v (some e) finds = Triple-pure _ (λ t h a here. absurd (cc))

    module _ (s : Seashell sdk) (on : s.config.memoize ≡ true)
        (named : mem k (transaction_keys ixn) ≡ true) where
      configured-Finds :
          (l : List (Pubkey × Shared)) (cache : SysvarCache)
          → Triple
              (Loaded sdk ixn s l)
              (λ t. lift (configure sdk ixn l t) t)
              (λ c t. Memo t × Finds c)
      configured-Finds l cache = record {
        by = λ t h.
            let (x, here) = lookup-mem k l (ap (mem k) h.1 ∙ named) in
            (Triple-lift {P = Memo} {Q = λ c t. Memo t × Finds c} (configure sdk ixn l t)
                (λ c u e g. (g, configure-Finds l x t c here e))).by
              t (ap (λ (c : Config). c.memoize) h.0.config ∙ on);
      }

      process-Memoized : Triple (Same sdk s) (process_instruction sdk ixn) Memoized
      unfolding process_instruction finish
      process-Memoized = Triple-bind _ _ (Triple-gets _) (λ allow.
          Triple-bind _ _ (load-Loaded sdk ixn s allow) (λ l.
            Triple-bind _ _ (Triple-read (λ t. sysvars_for_instruction sdk t.accounts_db l))
              (λ cache. Triple-bind _ _ (configured-Finds l cache) (λ c. Triple-given λ finds.
                Triple-bind _ _ (invoke-Finds cache c finds)
                  (λ v. Triple-given λ finds'. conclude-Memoized l v v.failure finds')))))

      -- After an instruction that was processed without an error, with memoization on, every key
      -- that it names (the program's or a mention's) and that is no sysvar has a reported account,
      -- which stands among the accounts of the database. It is what the key reads from then on if
      -- the scenario does not have the key; if it does, the scenario's account is read.
      pub process_instruction_memoizes :
          (r : InstructionProcessingResult sdk) (t : Seashell sdk)
          → process_instruction sdk ixn s ≡ (ok r, t)
          → r.error ≡ none
          → (x : Shared) × (lookup k r.post_execution_accounts ≡ some (to_account x))
            × (lookup k t.accounts_db.accounts ≡ some x)
            × (account_maybe sdk t.accounts_db k
                ≡ ok (some (get_or (Scenario.get sdk t.accounts_db.scenario k) x)))
      unfolding account_maybe
      process_instruction_memoizes r t e fine =
          let reported = (process_instruction_reports sdk ixn s r t e).1 fine in
          let (a, here) = lookup-mem k r.post_execution_accounts (ap (mem k) reported ∙ named) in
          let (x, same, stored) = Triple-ok process-Memoized (Same-refl sdk s) e a here in
          (x, here ∙ ap some same, stored, ground arith)
