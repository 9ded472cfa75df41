-- ===== src/Seashell/Processing/Reports.antt =====
-- What `process_instruction` reports and changes, after an error and without one.
use seashell.Prelude.{◌≡◌, ◌≢◌, false, none, []}
use seashell.Outcome.{ok}
use seashell.Instruction.{Instruction}
use seashell.Compile.{transaction_keys}
use seashell.Sdk.{Sdk}
use seashell.AccountsDb.Loading.{keys}
use seashell.Seashell.{Seashell}
use seashell.Seashell.Process.{InstructionProcessingResult, process_instruction}
use seashell.Seashell.Processing.{Same, process_instruction_reports}

module _ (sdk : Sdk) where
  module _ (ixn : Instruction) (s : Seashell sdk) where
    -- After an instruction that was processed with an error no account is reported, and nothing has
    -- changed but the scenario and the logs, even if results are memoized.
    pub process_instruction_fails :
        (r : InstructionProcessingResult sdk) (t : Seashell sdk)
        → process_instruction sdk ixn s ≡ (ok r, t)
        → r.error ≢ none
        → (r.post_execution_accounts ≡ []) × Same sdk s t
    process_instruction_fails r t e failed = (process_instruction_reports sdk ixn s r t e).0 failed

    -- After an instruction that was processed without an error the program and the mentioned
    -- accounts are reported, in order.
    pub process_instruction-keys :
        (r : InstructionProcessingResult sdk) (t : Seashell sdk)
        → process_instruction sdk ixn s ≡ (ok r, t)
        → r.error ≡ none
        → keys r.post_execution_accounts ≡ transaction_keys ixn
    process_instruction-keys r t e fine = (process_instruction_reports sdk ixn s r t e).1 fine

    -- If results are not memoized, processing an instruction, when it returns, has changed nothing
    -- but the scenario and the logs: no account, program, sysvar or setting, and neither the compute
    -- budget nor the features.
    pub process_instruction_isolated :
        (r : InstructionProcessingResult sdk) (t : Seashell sdk)
        → process_instruction sdk ixn s ≡ (ok r, t)
        → s.config.memoize ≡ false
        → Same sdk s t
    process_instruction_isolated r t e off = (process_instruction_reports sdk ixn s r t e).2 off
