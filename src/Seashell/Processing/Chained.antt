-- ===== src/Seashell/Processing/Chained.antt =====
-- An instruction that is processed after a memoized one.
use seashell.Prelude.{◌≡◌, ap, ◌∙◌, Bool, true, false, none, some, List, ◌==◌}
use seashell.Prelude.Map.{lookup}
use seashell.Outcome.{ok}
use seashell.Outcome.Yields.{Yields-ok}
use seashell.Instruction.{Pubkey, Instruction}
use seashell.Compile.{transaction_keys}
use seashell.Compile.Merge.{mem}
use seashell.Sdk.{Sdk}
use seashell.Scenario
use seashell.Sysvars.{is_sysvar}
use seashell.AccountsDb.{AccountsDb, accounts_for_instruction}
use seashell.AccountsDb.Loading.{keys-Yields}
use seashell.AccountsDb.Stable.{lookup-loaded}
use seashell.Seashell.{Seashell}
use seashell.Seashell.Process.{InstructionProcessingResult, process_instruction}
use seashell.Seashell.Processing.Results.{HasContext, lookup-mem, process_instruction_memoizes}
use mathlib.Core.Option.{get_or}

module _ (sdk : Sdk) where
  open sdk use {Shared, to_account, instructions_id}

  -- With memoization on, after an instruction that was processed without an error: the next
  -- instruction is given, for every key that both name, that is no sysvar and that the scenario
  -- does not have, the account that the first one has reported, whatever else is fetched before.
  pub process_instruction_chains :
      (laws : HasContext sdk) (first : Instruction) (k : Pubkey) (s t : Seashell sdk)
      (r : InstructionProcessingResult sdk) (next : Instruction) (allow : Bool)
      (l : List (Pubkey × Shared)) (db : AccountsDb sdk)
      → is_sysvar sdk k ≡ false
      → (k == instructions_id) ≡ false
      → s.config.memoize ≡ true
      → process_instruction sdk first s ≡ (ok r, t)
      → r.error ≡ none
      → Scenario.get sdk t.accounts_db.scenario k ≡ none
      → accounts_for_instruction sdk allow next t.accounts_db ≡ (ok l, db)
      → mem k (transaction_keys first) ≡ true
      → mem k (transaction_keys next) ≡ true
      → (x : Shared) × (lookup k r.post_execution_accounts ≡ some (to_account x))
        × (lookup k l ≡ some x)
  process_instruction_chains laws first k s t r next allow l db plain special on e fine unfetched
        loaded named named' =
      let (x, reported, stored, read) =
        process_instruction_memoizes sdk laws first k plain s on named r t e fine in
      let read' = read ∙ ap (λ o. ok (some (get_or o x))) unfetched in
      let keyed =
        Yields-ok (accounts_for_instruction sdk allow next) (keys-Yields sdk allow next) loaded in
      let (y, found) = lookup-mem k l (ap (mem k) keyed ∙ named') in
      let same = lookup-loaded sdk k x allow next special t.accounts_db db l y read' loaded found in
      (x, reported, found ∙ ap some same)
