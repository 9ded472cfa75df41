-- ===== src/Seashell/Processing/Unmemoized.antt =====
-- `process_instruction` without memoization, as a function of what it reads.
use seashell.Prelude.{
  ℕ, ◌≡◌, refl, ap, ◌∙◌, false, Option, none, some, List, [], ◌∷◌, if◌then◌else◌, Bool-cases, inl,
  inr,
}
use seashell.Outcome.{
  Result, ok, panic, then_ok, Exec, continue, ◌>>=◌, pure, expect, map_result, failed_to_borrow,
}
use seashell.Instruction.{Pubkey, Instruction}
use seashell.Sdk.{Sdk, Account}
use seashell.Seashell.{Seashell, callback_is_precompile, callback_process_precompile}
use seashell.Seashell.Process.{
  InstructionProcessingResult, instruction_error, Invocation, invoke, memoized, write_back,
  post_account, post_accounts, conclude,
}

-- A step that cannot panic after one that can.
continue-pure {ℓ κ μ} :
    {S : Type ℓ} {A : Type κ} {B : Type μ} (r : Result A) (g : A → B) (s : S)
    → continue r s (λ a. pure (g a)) ≡ (then_ok r (λ a. ok (g a)), s)
continue-pure (ok a) g s = refl
continue-pure (panic p) g s = refl

module _ (sdk : Sdk) where
  open sdk use {
    Shared, TransactionContext, SysvarCache, InstructionError, LogCollector, to_account,
    find_index_of_account, try_borrow,
  }

  -- What is reported for a key.
  abbrev reported : TransactionContext → Pubkey → Shared → Option ℕ → Result (Pubkey × Account)
  reported context k before none = ok (k, to_account before)
  reported context k before (some i) =
      then_ok (expect failed_to_borrow (try_borrow context i)) λ x. ok (k, to_account x)

  abbrev report : TransactionContext → Pubkey × Shared → Result (Pubkey × Account)
  report context (k, before) = reported context k before (find_index_of_account context k)

  module _ (t : Seashell sdk) (off : t.config.memoize ≡ false) where
    after_borrow :
        (k : Pubkey) (r : Result Shared)
        → continue {B = Pubkey × Account} r t
            (λ x. memoized sdk k x >>= λ _. pure (k, to_account x))
          ≡ (then_ok r (λ x. ok (k, to_account x)), t)
    after_borrow k (ok x) = rw off refl
    after_borrow k (panic p) = refl

    write_back-reported :
        (context : TransactionContext) (k : Pubkey) (before : Shared) (o : Option ℕ)
        → write_back sdk context k before o t ≡ (reported context k before o, t)
    unfolding write_back
    write_back-reported context k before none = refl
    write_back-reported context k before (some i) =
        after_borrow k (expect failed_to_borrow (try_borrow context i))

    collected :
        {A : Type 0} (r : Result A) (rest : Exec (Seashell sdk) (List A)) (rs : Result (List A))
        → rest t ≡ (rs, t)
        → continue r t (λ a. rest >>= λ l. pure (a ∷ l))
          ≡ (then_ok r λ a. then_ok rs λ l. ok (a ∷ l), t)
    collected (panic p) rest rs e = refl
    collected {A} (ok a) rest rs e =
        ap (λ (p : Result (List A) × Seashell sdk). continue p.0 p.1 (λ l. pure (a ∷ l))) e
        ∙ continue-pure rs (λ l. a ∷ l) t

    post_accounts-reported :
        (context : TransactionContext) (l : List (Pubkey × Shared))
        → post_accounts sdk context l t ≡ (map_result (report context) l, t)
    unfolding post_accounts post_account
    post_accounts-reported context [] = refl
    post_accounts-reported context ((k, before) ∷ l) =
        ap
          (λ (p : Result (Pubkey × Account) × Seashell sdk).
            continue p.0 p.1 (λ after. post_accounts sdk context l >>= λ rest. pure (after ∷ rest)))
          (write_back-reported context k before (find_index_of_account context k))
        ∙ collected (report context (k, before)) (post_accounts sdk context l)
            (map_result (report context) l) (post_accounts-reported context l)

  abbrev success : Invocation sdk → List (Pubkey × Account) → InstructionProcessingResult sdk
  success v after = record {
    compute_units_consumed = v.units;
    return_data = sdk.return_data_of v.context;
    error = none;
    post_execution_accounts = after;
  }

  -- What is returned, once the invocation has ended.
  abbrev pub concluded :
      List (Pubkey × Shared)
      → Invocation sdk
      → Option InstructionError
      → Result (InstructionProcessingResult sdk)
  concluded l v none = then_ok (map_result (report v.context) l) λ after. ok (success v after)
  concluded l v (some e) = ok (record {
    compute_units_consumed = v.units;
    return_data = sdk.return_data_of v.context;
    error = some (instruction_error e);
    post_execution_accounts = [];
  })

  pub conclude-concluded :
      (l : List (Pubkey × Shared)) (v : Invocation sdk) (failure : Option InstructionError)
      (t : Seashell sdk)
      → t.config.memoize ≡ false
      → conclude sdk l v failure t ≡ (concluded l v failure, t)
  unfolding conclude
  conclude-concluded l v none t off =
      ap
        (λ (p : Result (List (Pubkey × Account)) × Seashell sdk).
          continue p.0 p.1 (λ after. pure (success v after)))
        (post_accounts-reported t off v.context l)
      ∙ continue-pure (map_result (report v.context) l) (success v) t
  conclude-concluded l v (some e) t off = refl

  module _ (ixn : Instruction) where
    -- What an invocation leaves behind, and the logs.
    abbrev pub invoked :
        SysvarCache → TransactionContext → Seashell sdk → Invocation sdk × Option LogCollector
    invoked cache context s =
        if callback_is_precompile sdk s ixn.program_id
        then (let (failure, context', logs) =
              sdk.run_precompile (callback_process_precompile sdk s) context s.log_collector
                ixn.program_id ixn.bytes (ixn.bytes ∷ []) in
            (record { failure = failure; units = 0; context = context' }, logs))
        else (let (failure, units, context', logs) =
              sdk.run_program context s.accounts_db.programs s.feature_set cache s.log_collector
                s.compute_budget in
            (record { failure = failure; units = units; context = context' }, logs))

    pub invoke-invoked :
        (cache : SysvarCache) (context : TransactionContext) (t : Seashell sdk)
        → invoke sdk ixn cache context t ≡ (
          ok (invoked cache context t).0,
          record t { log_collector = (invoked cache context t).1 },
        )
    unfolding invoke
    invoke-invoked cache context t =
        elim (Bool-cases (callback_is_precompile sdk t ixn.program_id)) [
          | inl precompile ↦ rw precompile refl
          | inr program ↦ rw program refl
        ]
