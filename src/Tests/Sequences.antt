-- ===== src/Tests/Sequences.antt =====
-- Sequences of instructions of the small instance, and an instruction whose account is missing.
use Prim.Native.String.{String}
use mathlib.Core.List.{Permᴰ}
use seashell.Prelude.{◌≡◌, refl, true, false, Option, none, List, [], ◌∷◌, inr}
use seashell.Outcome.{ok, panic, account_not_found_for}
use seashell.Instruction.{Pubkey, Instruction}
use seashell.Sdk.{Account}
use seashell.Scenario
use seashell.Sysvars.{is_sysvar, get_sysvar}
use seashell.Compile.{compile_accounts_for_instruction}
use seashell.Dedup.{dedup_map}
use seashell.AccountsDb
use seashell.Prelude.{some}
use seashell.Prelude.Map.{lookup}
use seashell.AccountsDb.{AccountsDb, account_maybe, accounts_for_instruction}
use seashell.AccountsDb.Store.{find}
use seashell.AccountsDb.Offline.{accounts_for_instruction_offline, loaded_from}
use seashell.Seashell.{Seashell}
use seashell.Seashell.Process.{process_instruction}
use seashell.Seashell.Processing.Independent.{
  IsLogBlind, with_logs, process_all, process_all_independent,
}
use seashell.Seashell.Processing.Chained.{process_instruction_chains}
use seashell.Seashell.Processing.Missing.{process_instruction_missing}
use seashell.Seashell.Processing.Order.{reordered, process_all-any_order}
use seashell.Tests.Encodings.{an_account}
use seashell.Tests.Toy.{toy}
use seashell.Tests.Laws.{toy_context}
use seashell.Tests.Compiling.{meta, transfer}
use seashell.Tests.Database.{db, program, scenario}
use seashell.Tests.Running.{shell, reported, memoized, memoized_db, bumped_program}
use seashell.Tests.Replays.{visit}

toy-IsLogBlind : IsLogBlind toy
toy-IsLogBlind = record {
  program = λ c p f v l l' b. (refl, refl, refl);
  precompile = λ callback c l l' k b bs. (refl, refl);
}

-- the second one asks for the key 42, which no cache has, and panics
abbrev several : List Instruction
several = transfer ∷ visit ∷ transfer ∷ []

abbrev cut_off : Seashell toy
cut_off = record (shell false) {
  accounts_db = record db { scenario = record (db.scenario) { rpc_client = none } };
}

process_all_independent_example :
    ((process_all toy several cut_off).0
      ≡ ok reported ∷ panic (account_not_found_for 42) ∷ ok reported ∷ [])
    × (logs : Option (List String)) × ((process_all toy several cut_off).1
        ≡ with_logs toy logs cut_off)
unfolding process_instruction account_maybe is_sysvar Scenario.get
    AccountsDb.accounts_for_instruction AccountsDb.sysvars_for_instruction get_sysvar
    compile_accounts_for_instruction dedup_map Scenario.rpc_enabled
process_all_independent_example =
    process_all_independent toy toy-IsLogBlind cut_off refl refl several

-- the account 50 is in the cache, the account 42 is not
abbrev half_known : Instruction
half_known = record {
  program_id = 100;
  accounts = meta 50 true true ∷ meta 42 true false ∷ meta 43 false false ∷ [];
  bytes = [];
}

process_instruction_missing_example :
    process_instruction toy half_known cut_off ≡ (panic (account_not_found_for 42), cut_off)
unfolding account_maybe is_sysvar Scenario.get
process_instruction_missing_example =
    process_instruction_missing toy half_known cut_off program (meta 50 true true ∷ [])
      (meta 42 true false) (meta 43 false false ∷ []) refl refl refl refl
      (inr (an_account 5 [] 0, refl), tt) refl refl

-- the two accounts the other way round
abbrev swapped : List (Pubkey × Account)
swapped = (50, an_account 5 [] 0) ∷ (100, program) ∷ []

process_all-any_order_example :
    ((process_all toy several (shell true)).0
      ≡ (process_all toy several (reordered toy (shell true) scenario.entries swapped)).0)
    × ((k : Pubkey)
        → account_maybe toy (process_all toy several (shell true)).1.accounts_db k
          ≡ account_maybe toy
              (process_all toy several
                (reordered toy (shell true) scenario.entries swapped)).1.accounts_db
              k)
process_all-any_order_example =
    process_all-any_order toy several (shell true) scenario.entries swapped (refl, tt)
      (refl, (refl, tt)) (Permᴰ.cons refl Permᴰ.nil) (Permᴰ.swap refl refl)

accounts_for_instruction_offline_example :
    accounts_for_instruction toy false half_known cut_off.accounts_db
    ≡ (panic (account_not_found_for 42), cut_off.accounts_db)
unfolding loaded_from find is_sysvar
accounts_for_instruction_offline_example =
    accounts_for_instruction_offline toy false half_known cut_off.accounts_db refl

-- The account of the program 100, which both name, has one lamport more.
abbrev given : List (Pubkey × Account)
given = (100, bumped_program) ∷ (42, an_account 7 [] 0) ∷ []

abbrev given_db : AccountsDb toy
given_db = record memoized_db {
  scenario = record scenario {
    dirty = true;
    entries = (60, an_account 9 [] 0) ∷ (42, an_account 7 [] 0) ∷ [];
  };
}

process_instruction_chains_example :
    (x : Account) × (lookup 100 reported.post_execution_accounts ≡ some x)
    × (lookup 100 given ≡ some x)
unfolding process_instruction account_maybe is_sysvar Scenario.get
    AccountsDb.accounts_for_instruction AccountsDb.sysvars_for_instruction get_sysvar
    compile_accounts_for_instruction dedup_map AccountsDb.set_account Scenario.rpc_enabled
    Scenario.try_fetch_from_rpc
process_instruction_chains_example =
    process_instruction_chains toy toy_context transfer 100 (shell true) memoized reported visit
      false given given_db refl refl refl refl refl refl refl refl refl
