-- ===== src/Seashell/Processing/Independent.antt =====
-- A sequence of instructions, processed one after the other without memoization and without a node.
use seashell.Prelude.{
  ◌≡◌, refl, sym, ap, ◌∙◌, false, none, Option, List, [], ◌∷◌, map, Bool-cases, inl, inr,
}
use seashell.Outcome.{Result, ok, panic, Exec, continue, ◌>>=◌, >>=-step}
use seashell.Instruction.{Pubkey, Bytes, Instruction}
use seashell.Sdk.{Sdk}
use seashell.AccountsDb.{AccountsDb, accounts_for_instruction, sysvars_for_instruction}
use seashell.AccountsDb.Offline.{accounts_for_instruction_offline}
use seashell.Seashell.{Seashell, callback_is_precompile, callback_process_precompile}
use seashell.Seashell.Process.{
  InstructionProcessingResult, Invocation, configure, invoke, finish, process_instruction,
}
use seashell.Seashell.Processing.Unmemoized.{concluded, conclude-concluded, invoked, invoke-invoked}
use seashell.Seashell.Processing.Rest.{rest_of, from_cache}

-- What is documented of the logs: an invocation only adds to them, and does nothing because of them.
pub record IsLogBlind (sdk : Sdk) : Type 0 where
  pub program :
      (c : sdk.TransactionContext) (p : sdk.Programs) (f : sdk.FeatureSet) (v : sdk.SysvarCache)
      (l l' : Option sdk.LogCollector) (b : sdk.ComputeBudget)
      → let (e, u, x, _) = sdk.run_program c p f v l b in
        let (e', u', x', _) = sdk.run_program c p f v l' b in (e ≡ e') × (u ≡ u') × (x ≡ x')
  pub precompile :
      (callback : Pubkey → Bytes → List Bytes → Option sdk.PrecompileError)
      (c : sdk.TransactionContext) (l l' : Option sdk.LogCollector) (k : Pubkey) (b : Bytes)
      (bs : List Bytes)
      → let (e, x, _) = sdk.run_precompile callback c l k b bs in
        let (e', x', _) = sdk.run_precompile callback c l' k b bs in (e ≡ e') × (x ≡ x')

same_result :
    {S A B : Type 0} (r : Result A) (s t : S) (f : A → Exec S B)
    → ((a : A) → (f a s).0 ≡ (f a t).0)
    → (continue r s f).0 ≡ (continue r t f).0
same_result (ok a) s t f h = h a
same_result (panic p) s t f h = refl

module _ (sdk : Sdk) where
  open sdk use {Shared, TransactionContext, SysvarCache, LogCollector}

  abbrev pub with_logs : Option LogCollector → Seashell sdk → Seashell sdk
  with_logs logs s = record s { log_collector = logs }

  abbrev Ran : Type 0
  Ran = Result (InstructionProcessingResult sdk) × Seashell sdk

  -- The results of the instructions, one after the other, and what is left afterwards. A panic is a
  -- result here: what was kept before it stays.
  unfoldable pub process_all :
      List Instruction
      → Seashell sdk
      → List (Result (InstructionProcessingResult sdk)) × Seashell sdk
  process_all [] s = ([], s)
  process_all (ixn ∷ ixns) s =
      let (r, s') = process_instruction sdk ixn s in
      let (rs, end) = process_all ixns s' in (r ∷ rs, end)

  -- The state is the one before, up to the logs.
  abbrev Quiet : Seashell sdk → Ran → Type 0
  Quiet t p = (logs : Option LogCollector) × (p.1 ≡ with_logs logs t)

  module _ (ixn : Instruction) (t : Seashell sdk) (off : t.config.memoize ≡ false) where
    ended :
        (l : List (Pubkey × Shared)) (cache : SysvarCache) (c : TransactionContext)
        → let (v, logs) = invoked sdk ixn cache c t in
          (invoke sdk ixn cache c >>= λ i. finish sdk l i) t
          ≡ (concluded sdk l v v.failure, with_logs logs t)
    unfolding finish callback_process_precompile
    ended l cache c =
        let (v, logs) = invoked sdk ixn cache c t in
        >>=-step (invoke sdk ixn cache c) (λ i. finish sdk l i) t (invoke-invoked sdk ixn cache c t)
        ∙ conclude-concluded sdk l v v.failure (with_logs logs t) off

    continue-Quiet :
        {A : Type 0} (r : Result A) (f : A → Exec (Seashell sdk) (InstructionProcessingResult sdk))
        → ((a : A) → Quiet t (f a t))
        → Quiet t (continue r t f)
    continue-Quiet (ok a) f h = h a
    continue-Quiet (panic p) f h = (t.log_collector, refl)

    rest_of-Quiet : (l : List (Pubkey × Shared)) → Quiet t (rest_of sdk ixn l t)
    unfolding configure callback_process_precompile
    rest_of-Quiet l =
        continue-Quiet (sysvars_for_instruction sdk t.accounts_db l) (from_cache sdk ixn l)
          (λ cache.
            continue-Quiet (configure sdk ixn l t)
              (λ context. invoke sdk ixn cache context >>= λ i. finish sdk l i)
              (λ c. ((invoked sdk ixn cache c t).1, ap (λ (p : Ran). p.1) (ended l cache c))))

  module _ (blind : IsLogBlind sdk) (ixn : Instruction) (t : Seashell sdk)
      (off : t.config.memoize ≡ false) (logs : Option LogCollector) where
    same_invocation :
        (cache : SysvarCache) (c : TransactionContext)
        → (invoked sdk ixn cache c (with_logs logs t)).0 ≡ (invoked sdk ixn cache c t).0
    unfolding callback_process_precompile
    same_invocation cache c = elim (Bool-cases (callback_is_precompile sdk t ixn.program_id)) [
      | inl precompile ↦ rw precompile (
          let (e, x) =
            blind.precompile (callback_process_precompile sdk t) c logs t.log_collector
              ixn.program_id ixn.bytes (ixn.bytes ∷ []) in
          λ i. record { failure = e i; units = 0; context = x i })
      | inr program ↦ rw program (
          let (e, u, x) =
            blind.program c t.accounts_db.programs t.feature_set cache logs t.log_collector
              t.compute_budget in
          λ i. record { failure = e i; units = u i; context = x i })
    ]

    same_rest :
        (l : List (Pubkey × Shared))
        → (rest_of sdk ixn l (with_logs logs t)).0 ≡ (rest_of sdk ixn l t).0
    unfolding configure callback_process_precompile
    same_rest l =
        same_result (sysvars_for_instruction sdk t.accounts_db l) (with_logs logs t) t
          (from_cache sdk ixn l)
          (λ cache.
            same_result (configure sdk ixn l t) (with_logs logs t) t
              (λ context. invoke sdk ixn cache context >>= λ i. finish sdk l i)
              (λ c.
                ap (λ (p : Ran). p.0) (ended ixn (with_logs logs t) off l cache c)
                ∙ ap (λ (v : Invocation sdk). concluded sdk l v v.failure) (same_invocation cache c)
                ∙ sym (ap (λ (p : Ran). p.0) (ended ixn t off l cache c))))

  abbrev loading : Instruction → Seashell sdk → Result (List (Pubkey × Shared)) × AccountsDb sdk
  loading ixn s =
      accounts_for_instruction sdk s.config.allow_uninitialized_accounts_local ixn s.accounts_db

  pub same_processed :
      (blind : IsLogBlind sdk) (ixn : Instruction) (t : Seashell sdk)
      → t.config.memoize ≡ false
      → (logs : Option LogCollector)
      → (process_instruction sdk ixn (with_logs logs t)).0 ≡ (process_instruction sdk ixn t).0
  unfolding process_instruction
  same_processed blind ixn t off logs =
      let (r, db) = loading ixn t in
      let loaded : Seashell sdk = record t { accounts_db = db } in
      same_result r (with_logs logs loaded) loaded (rest_of sdk ixn)
        (same_rest blind ixn loaded off logs)

  pub processed-Quiet :
      (ixn : Instruction) (s : Seashell sdk)
      → s.accounts_db.scenario.rpc_client ≡ none
      → s.config.memoize ≡ false
      → Quiet s (process_instruction sdk ixn s)
  unfolding process_instruction
  processed-Quiet ixn s offline off =
      let (r, db) = loading ixn s in
      let loaded : Seashell sdk = record s { accounts_db = db } in
      let (logs, e) =
        continue-Quiet ixn loaded off r (rest_of sdk ixn) (rest_of-Quiet ixn loaded off) in
      (
        logs,
        e
            ∙ ap (λ (d : AccountsDb sdk). record s { accounts_db = d; log_collector = logs })
                (ap (λ (p : Result (List (Pubkey × Shared)) × AccountsDb sdk). p.1)
                  (accounts_for_instruction_offline sdk s.config.allow_uninitialized_accounts_local
                    ixn s.accounts_db offline)),
      )

  abbrev result_in : Seashell sdk → Instruction → Result (InstructionProcessingResult sdk)
  result_in s ixn = (process_instruction sdk ixn s).0

  abbrev Independent :
      Seashell sdk
      → List Instruction
      → List (Result (InstructionProcessingResult sdk)) × Seashell sdk
      → Type 0
  Independent s ixns (results, end) =
      (results ≡ map (result_in s) ixns) × (logs : Option LogCollector) × (end ≡ with_logs logs s)

  all_in :
      (blind : IsLogBlind sdk) (s : Seashell sdk)
      → s.accounts_db.scenario.rpc_client ≡ none
      → s.config.memoize ≡ false
      → (ixns : List Instruction) (logs : Option LogCollector) (t : Seashell sdk)
      → t ≡ with_logs logs s
      → Independent s ixns (process_all ixns t)
  unfolding process_all
  all_in blind s offline off [] logs t e = (refl, logs, e)
  all_in blind s offline off (ixn ∷ ixns) logs t e =
      let (logs', e') = processed-Quiet ixn (with_logs logs s) offline off in
      let (after, logs'', left) =
        all_in blind s offline off ixns logs' (process_instruction sdk ixn t).1
          (ap (λ (u : Seashell sdk). (process_instruction sdk ixn u).1) e ∙ e') in
      let first : (process_instruction sdk ixn t).0 ≡ result_in s ixn =
        ap (λ (u : Seashell sdk). result_in u ixn) e ∙ same_processed blind ixn s off logs in
      ((λ i. first i ∷ after i), logs'', left)

  -- Without a node, without memoization and where the virtual machine does not depend on the logs,
  -- a sequence of instructions gives the results that each of them gives alone, whatever stands
  -- before it and whether that failed or panicked, and leaves everything but the logs as it was.
  pub process_all_independent :
      (blind : IsLogBlind sdk) (s : Seashell sdk)
      → s.accounts_db.scenario.rpc_client ≡ none
      → s.config.memoize ≡ false
      → (ixns : List Instruction)
      → ((process_all ixns s).0 ≡ map (result_in s) ixns)
        × (logs : Option LogCollector) × ((process_all ixns s).1 ≡ with_logs logs s)
  process_all_independent blind s offline off ixns =
      all_in blind s offline off ixns s.log_collector s refl
