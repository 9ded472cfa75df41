-- ===== src/Seashell/Processing/Rest.antt =====
-- The part of `process_instruction` after the accounts have been loaded: with another scenario in
-- which every key reads the same, it ends in the same way.
use mathlib.Core.Path.{subst, fun_ext}
use seashell.Prelude.{◌≡◌, refl, sym, ap, ◌∙◌, false, Option, none, some, List, []}
use seashell.Prelude.Map.{lookup}
use seashell.Outcome.{Result, ok, panic, then_ok, Exec, continue, ◌>>=◌, >>=-step, lift, map_result}
use seashell.Instruction.{Pubkey, Bytes, Instruction}
use seashell.Sdk.{Sdk}
use seashell.Scenario.{Scenario}
use seashell.AccountsDb.{AccountsDb, account_maybe, sysvar_data, sysvars_for_instruction}
use seashell.Seashell.{Seashell, callback_process_precompile}
use seashell.Seashell.Process.{InstructionProcessingResult, configure, invoke, finish}
use seashell.Seashell.Processing.Unmemoized.{concluded, conclude-concluded, invoked, invoke-invoked}

module _ (sdk : Sdk) where
  open sdk use {Shared, TransactionContext, SysvarCache, LogCollector, data_of}

  abbrev pub with_scenario : Scenario sdk → Seashell sdk → Seashell sdk
  with_scenario scenario s = record s {
    accounts_db = record (s.accounts_db) { scenario = scenario };
  }

  -- Every key reads the same.
  abbrev pub Agrees : AccountsDb sdk → AccountsDb sdk → Type 0
  Agrees db db' = (k : Pubkey) → account_maybe sdk db' k ≡ account_maybe sdk db k

  -- from the sysvar cache on
  abbrev pub from_cache :
      Instruction
      → List (Pubkey × Shared)
      → SysvarCache
      → Exec (Seashell sdk) (InstructionProcessingResult sdk)
  from_cache ixn l cache = (λ t. lift (configure sdk ixn l t) t) >>= λ context.
      invoke sdk ixn cache context >>= λ i. finish sdk l i

  -- from the loaded accounts on
  abbrev pub rest_of :
      Instruction → List (Pubkey × Shared) → Exec (Seashell sdk) (InstructionProcessingResult sdk)
  rest_of ixn l = (λ t. lift (sysvars_for_instruction sdk t.accounts_db l) t) >>= from_cache ixn l

  sysvar_data-Agrees :
      (db db' : AccountsDb sdk) (l : List (Pubkey × Shared)) (k : Pubkey)
      → Agrees db db'
      → sysvar_data sdk db' l k ≡ sysvar_data sdk db l k
  unfolding sysvar_data
  sysvar_data-Agrees db db' l k agree =
      ap
        (λ (r : Result (Option Shared)). elim (lookup k l) [
          | some account ↦ ok (data_of account)
          | none ↦
              then_ok r λ found. elim found [ none ↦ ok [] | some account ↦ ok (data_of account) ]
        ])
        (agree k)

  pub sysvars_for_instruction-Agrees :
      (db db' : AccountsDb sdk) (l : List (Pubkey × Shared))
      → Agrees db db'
      → sysvars_for_instruction sdk db' l ≡ sysvars_for_instruction sdk db l
  unfolding sysvars_for_instruction
  sysvars_for_instruction-Agrees db db' l agree =
      ap
        (λ (f : Pubkey → Result (Pubkey × Bytes)).
          then_ok (map_result f sdk.cached_ids) (λ entries. ok (sdk.cache_of entries)))
        (fun_ext (λ k.
          ap (λ (r : Result Bytes). then_ok r λ bytes. ok (k, bytes))
            (sysvar_data-Agrees db db' l k agree)))

  module _ (ixn : Instruction) (l : List (Pubkey × Shared)) (t : Seashell sdk)
      (off : t.config.memoize ≡ false) (scenario : Scenario sdk) where
    -- Both calls end in the same way, and have only written logs, the same ones.
    abbrev pub Alike :
        Result (InstructionProcessingResult sdk) × Seashell sdk
        → Result (InstructionProcessingResult sdk) × Seashell sdk
        → Type 0
    Alike p q =
        (r : Result (InstructionProcessingResult sdk)) × (logs : Option LogCollector) × (p
          ≡ (r, record t { log_collector = logs }))
        × (q ≡ (r, record (with_scenario scenario t) { log_collector = logs }))

    invoke-Alike :
        (cache : SysvarCache) (c : TransactionContext)
        → Alike
            ((invoke sdk ixn cache c >>= λ i. finish sdk l i) t)
            ((invoke sdk ixn cache c >>= λ i. finish sdk l i) (with_scenario scenario t))
    unfolding finish callback_process_precompile
    invoke-Alike cache c =
        let (v, logs) = invoked sdk ixn cache c t in
        (
          concluded sdk l v v.failure,
          logs,
          >>=-step (invoke sdk ixn cache c) (λ i. finish sdk l i) t
                (invoke-invoked sdk ixn cache c t)
              ∙ conclude-concluded sdk l v v.failure (record t { log_collector = logs }) off,
          >>=-step (invoke sdk ixn cache c) (λ i. finish sdk l i) (with_scenario scenario t)
                (invoke-invoked sdk ixn cache c (with_scenario scenario t))
              ∙ conclude-concluded sdk l v v.failure
                  (record (with_scenario scenario t) { log_collector = logs }) off,
        )

    step-Alike :
        {A : Type 0} (r : Result A) (f : A → Exec (Seashell sdk) (InstructionProcessingResult sdk))
        → ((a : A) → Alike (f a t) (f a (with_scenario scenario t)))
        → Alike (continue r t f) (continue r (with_scenario scenario t) f)
    step-Alike (ok a) f h = h a
    step-Alike (panic p) f h = (panic p, t.log_collector, refl, refl)

    pub rest_of-Alike :
        Agrees t.accounts_db (with_scenario scenario t).accounts_db
        → Alike (rest_of ixn l t) (rest_of ixn l (with_scenario scenario t))
    unfolding configure
    rest_of-Alike agree =
        subst
          (λ (r : Result SysvarCache).
            Alike (rest_of ixn l t) (continue r (with_scenario scenario t) (from_cache ixn l)))
          (sym (
            sysvars_for_instruction-Agrees t.accounts_db (with_scenario scenario t).accounts_db l
              agree))
          (step-Alike (sysvars_for_instruction sdk t.accounts_db l) (from_cache ixn l) (λ cache.
            step-Alike (configure sdk ixn l t)
              (λ context. invoke sdk ixn cache context >>= λ i. finish sdk l i)
              (invoke-Alike cache)))
