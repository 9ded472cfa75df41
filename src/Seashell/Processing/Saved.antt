-- ===== src/Seashell/Processing/Saved.antt =====
-- An instruction that was processed online and its scenario saved: processed again from the file.
use Prim.Native.String.{String}
use mathlib.Core.Path.{subst}
use seashell.Prelude.{◌≡◌, sym, Bool, true, false, Option, none, List}
use seashell.Outcome.{ok}
use seashell.Instruction.{Instruction}
use seashell.Sdk.{Sdk}
use seashell.Files.{Files}
use seashell.Scenario.{Scenario}
use seashell.Scenario.Persist.{from_file, drop}
use seashell.Scenario.Durable.{
  with_client, with_client-IsDurable, IsDurable, Call, run, run-IsDurable, fetch-IsDurable,
  from_file-IsDurable,
}
use seashell.Scenario.Reload.{IsPersistable, IsDurable-reload}
use seashell.AccountsDb.{AccountsDb, accounts_for_instruction}
use seashell.AccountsDb.LoadKeeps.{accounts_for_instruction-Keeps}
use seashell.AccountsDb.Replay.{IsStrict}
use seashell.Seashell.{Seashell}
use seashell.Seashell.Process.{InstructionProcessingResult, process_instruction}
use seashell.Seashell.Processing.Rest.{with_scenario}
use seashell.Seashell.Processing.Replay.{process_instruction-db, process_instruction_replays}

module _ (sdk : Sdk) (path : String) (fs : Files) where
  abbrev DurableDb : AccountsDb sdk → Type 0
  DurableDb db = IsDurable sdk path fs db.scenario

  load-IsDurable :
      (allow : Bool) (ixn : Instruction) (db : AccountsDb sdk)
      → DurableDb db
      → DurableDb (accounts_for_instruction sdk allow ixn db).1
  load-IsDurable allow ixn db h =
      (accounts_for_instruction-Keeps sdk DurableDb
          (λ k. record { at = λ db' d. fetch-IsDurable sdk path fs k db'.scenario d }) allow ixn).at
        db h

  -- A seashell that allows no uninitialized accounts and does not memoize, with a scenario that was
  -- loaded from a file that can be written, given an RPC node or none, and then had any fetches and
  -- insertions: once it has processed an instruction and the scenario has been dropped, the file is
  -- loaded again, and processing the instruction with that scenario gives the same result, without
  -- a node and without writing anything but the logs.
  pub process_instruction_saved :
      (laws : IsPersistable sdk) (ixn : Instruction) (allow : Bool) (calls : List (Call sdk))
      (client : Option sdk.RpcClient) (loaded : Scenario sdk) (s s' : Seashell sdk)
      (r : InstructionProcessingResult sdk)
      → from_file sdk path allow fs ≡ ok loaded
      → fs.can_write path ≡ true
      → s.accounts_db.scenario ≡ run sdk calls (with_client sdk client loaded)
      → s.config.memoize ≡ false
      → s.config.allow_uninitialized_accounts_local ≡ false
      → IsStrict sdk s.accounts_db
      → process_instruction sdk ixn s ≡ (ok r, s')
      → (t : Scenario sdk) × (from_file sdk path allow (drop sdk s'.accounts_db.scenario fs) ≡ ok t)
        × (t.rpc_client ≡ none)
        × (process_instruction sdk ixn (with_scenario sdk t s)
            ≡ (ok r, record (with_scenario sdk t s) { log_collector = s'.log_collector }))
  process_instruction_saved laws ixn allow calls client loaded s s' r read writable ran off never
        strict e =
      let durable = subst (IsDurable sdk path fs) (sym ran) (
        run-IsDurable sdk path fs calls (with_client sdk client loaded) (
          with_client-IsDurable sdk path fs client loaded
            (from_file-IsDurable sdk path fs allow read))) in
      let left =
        subst DurableDb (sym (process_instruction-db sdk ixn s s' r off e))
          (load-IsDurable s.config.allow_uninitialized_accounts_local ixn s.accounts_db durable) in
      let (t, again, alone, same) =
        IsDurable-reload sdk laws path fs allow s'.accounts_db.scenario left writable in
      (t, again, alone, process_instruction_replays sdk ixn s s' r t off never strict e same)
