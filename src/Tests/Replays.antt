-- ===== src/Tests/Replays.antt =====
-- Instructions of the small instance processed twice: online, and from what was kept.
use seashell.Prelude.{◌≡◌, refl, true, false, none, some, List, [], ◌∷◌, arith}
use seashell.Outcome.{ok}
use seashell.Instruction.{Instruction}
use seashell.Scenario
use seashell.Scenario.{Scenario}
use seashell.Scenario.Persist.{from_file, read_entries, drop}
use seashell.Scenario.Durable.{Call, run}
use seashell.Sysvars.{is_sysvar, get_sysvar}
use seashell.Compile.{compile_accounts_for_instruction}
use seashell.Dedup.{dedup_map}
use seashell.AccountsDb
use seashell.AccountsDb.{AccountsDb, account_maybe, accounts_for_instruction}
use seashell.AccountsDb.Store.{Request, replies}
use seashell.AccountsDb.Refinement.{view, serve_all, serve_all_refines}
use seashell.Seashell.{Seashell}
use seashell.Seashell.Process.{InstructionProcessingResult, process_instruction}
use seashell.Seashell.Processing.Rest.{with_scenario}
use seashell.Seashell.Processing.Replay.{process_instruction_replays}
use seashell.Seashell.Processing.Saved.{process_instruction_saved}
use seashell.Tests.Encodings.{an_account}
use seashell.Tests.Toy.{toy}
use seashell.Tests.Laws.{toy_persistable, toy_sysvars, toy_context, toy_configurable}
use seashell.Seashell.Processing.Online.{process_instruction_online}
use seashell.Outcome.{Returns}
use seashell.Prelude.{◌==◌}
use seashell.Tests.Compiling.{meta}
use seashell.Tests.Database.{db, node, program, db-IsWellFormed}
use seashell.Tests.Running.{shell}
use seashell.Tests.Saving.{no_files, fresh, online}

-- the program 100, and the key 42, which only the node knows
abbrev pub visit : Instruction
visit = record { program_id = 100; accounts = meta 42 true true ∷ []; bytes = 1 ∷ [] }

abbrev online_db : AccountsDb toy
online_db = record db { scenario = online }

abbrev visited_db : AccountsDb toy
visited_db = record online_db {
  scenario = record online { dirty = true; entries = (42, an_account 7 [] 0) ∷ [] };
}

-- offline, with the key 42 among the accounts
abbrev offline_db : AccountsDb toy
offline_db = record db {
  scenario = fresh;
  accounts =
      (42, an_account 7 [] 0) ∷ (100, program) ∷ (51, program) ∷ (50, an_account 5 [] 0) ∷ [];
}

abbrev requests : List (Request toy)
requests =
    Request.read 42
    ∷ Request.must 42
    ∷ Request.write 42 program
    ∷ Request.read 42
    ∷ Request.keep_programs
    ∷ Request.must 50
    ∷ []

serve_all_refines_example : serve_all toy db requests ≡ replies toy (view toy db) requests
serve_all_refines_example = serve_all_refines toy requests db db-IsWellFormed

abbrev online_shell : Seashell toy
online_shell = record (shell false) { accounts_db = online_db }

abbrev visit_result : InstructionProcessingResult toy
visit_result = record {
  compute_units_consumed = 150;
  return_data = [];
  error = none;
  post_execution_accounts = (100, record program { lamports = 2 }) ∷ (42, an_account 8 [] 0) ∷ [];
}

abbrev visited_shell : Seashell toy
visited_shell = record online_shell { accounts_db = visited_db }

abbrev kept : Scenario toy
kept = record fresh { entries = (42, an_account 7 [] 0) ∷ [] }

process_instruction_replays_example :
    process_instruction toy visit (with_scenario toy kept online_shell)
    ≡ (ok visit_result, with_scenario toy kept online_shell)
unfolding process_instruction account_maybe is_sysvar Scenario.get
    AccountsDb.accounts_for_instruction AccountsDb.sysvars_for_instruction get_sysvar
    compile_accounts_for_instruction dedup_map Scenario.rpc_enabled Scenario.try_fetch_from_rpc
process_instruction_replays_example =
    process_instruction_replays toy visit online_shell visited_shell visit_result kept refl refl
      refl refl (λ k. refl)

-- the account 51 has been inserted, and the processing fetches the account 42
abbrev before_visit : Scenario toy
before_visit = record online { dirty = true; entries = (51, an_account 6 [] 9) ∷ [] }

abbrev left_by_visit : Scenario toy
left_by_visit = record before_visit {
  entries = (51, an_account 6 [] 9) ∷ (42, an_account 7 [] 0) ∷ [];
}

abbrev called_shell : Seashell toy
called_shell = record (shell false) { accounts_db = record db { scenario = before_visit } }

abbrev left_shell : Seashell toy
left_shell = record (shell false) { accounts_db = record db { scenario = left_by_visit } }

process_instruction_saved_example :
    (t : Scenario toy) × (from_file toy "scenarios/a.json.gz" false
        (drop toy left_by_visit no_files)
      ≡ ok t)
    × (t.rpc_client ≡ none)
    × (process_instruction toy visit (with_scenario toy t called_shell)
        ≡ (ok visit_result, with_scenario toy t called_shell))
unfolding process_instruction account_maybe is_sysvar Scenario.get
    AccountsDb.accounts_for_instruction AccountsDb.sysvars_for_instruction get_sysvar
    compile_accounts_for_instruction dedup_map from_file read_entries run Scenario.insert_account
    Scenario.rpc_enabled Scenario.try_fetch_from_rpc
process_instruction_saved_example =
    process_instruction_saved toy "scenarios/a.json.gz" no_files toy_persistable visit false
      (Call.insert_call 51 (an_account 6 [] 9) ∷ []) (some node) fresh called_shell left_shell
      visit_result refl refl refl refl refl refl refl

-- The node answers for the key 42, and the program 100 is in the cache.
process_instruction_online_example : Returns (process_instruction toy visit) online_shell
unfolding account_maybe is_sysvar Scenario.get
process_instruction_online_example =
    process_instruction_online toy toy_sysvars toy_context toy_configurable (λ c. c ≡ node)
      (λ k. k == 100) visit online_shell
      (record {
        client = node;
        connected = refl;
        live = refl;
        holds = λ k e. (program, ground arith);
      })
      (λ e. absurd (cc)) ((λ ne e c live. (an_account 7 [] 0, rw live refl, live)), tt) refl refl
      (omega arith) (omega arith)
