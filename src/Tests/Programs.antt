-- ===== src/Tests/Programs.antt =====
-- The programs of programs/, run on the small instance.
use seashell.Prelude.{◌≡◌, refl, false, none, List, [], ◌∷◌, map, arith}
use seashell.Prelude.Int.{pos, as_i64}
use seashell.Outcome.{ok}
use seashell.Instruction.{Pubkey, Instruction}
use seashell.Sdk.{Account, Clock}
use seashell.Scenario
use seashell.Sysvars.{is_sysvar, construct_instructions_account}
use seashell.AccountsDb.{account_maybe, accounts_for_instruction}
use seashell.Seashell.{set_account, warp}
use seashell.OnChain.{account_loader, sysvar_ixns}
use seashell.OnChain.Logs.{key_line, account_loader_logs}
use seashell.OnChain.Clocks.{Shows, clock_reaches_program}
use seashell.OnChain.Introspection.{sysvar_ixns_logs_itself}
use seashell.Tests.Encodings.{an_account, write_clock}
use seashell.Tests.Toy.{toy}
use seashell.Tests.Laws.{toy_sysvars}
use seashell.Tests.Compiling.{meta}
use seashell.Tests.Database.{db, program}
use seashell.Tests.Running.{shell}
use seashell.Tests.Machine.{
  Handed, Lines, machine, machine_logs, machine_clock, machine_introspection,
}

abbrev handed : Pubkey → Handed
handed k = record { key = k; signs = false; bytes = [] }

abbrev quiet : Lines
quiet = (key_line 1 ∷ [], none)

account_loader_logs_example :
    let (r, vm) = account_loader machine 100 (handed 5 ∷ handed 6 ∷ handed 5 ∷ []) [] quiet in
    (r ≡ ok none) × (vm.0 ≡ key_line 1 ∷ key_line 5 ∷ key_line 6 ∷ key_line 5 ∷ [])
account_loader_logs_example =
    account_loader_logs machine machine_logs 100 (handed 5 ∷ handed 6 ∷ handed 5 ∷ []) [] quiet

abbrev expected_clock : Clock
expected_clock = record {
  slot = 1;
  epoch_start_timestamp = pos 2;
  epoch = 3;
  leader_schedule_epoch = 4;
  unix_timestamp = pos 5;
}

abbrev expected_clock_account : Account
expected_clock_account = an_account 1000 (write_clock expected_clock) 8

clock_reaches_program_example :
    let (r, s) = set_account toy 1 expected_clock_account (shell false) in
    (r ≡ ok tt)
    × Shows toy machine toy_sysvars machine_logs machine_clock s.accounts_db [] expected_clock
    × Shows toy machine toy_sysvars machine_logs machine_clock
        (warp toy 9 77 s).accounts_db
        []
        (record expected_clock { slot = 9; unix_timestamp = as_i64 77 })
clock_reaches_program_example =
    clock_reaches_program toy machine toy_sysvars machine_logs machine_clock (shell false)
      expected_clock_account expected_clock 9 77 [] refl refl

-- the program 100, which is given the instructions sysvar
abbrev introspect : Instruction
introspect = record { program_id = 100; accounts = meta 9 false false ∷ []; bytes = [] }

abbrev introspected : List (Pubkey × Account)
introspected = (100, program) ∷ (9, construct_instructions_account toy introspect) ∷ []

sysvar_ixns_logs_itself_example :
    (first : Pubkey × Account) × (entries : List (Pubkey × Account)) × (introspected
      ≡ first ∷ entries)
    × (sysvar_ixns machine 100 (map machine_introspection.info entries) [] quiet
        ≡ (ok none, (key_line 1 ∷ key_line 100 ∷ [], none)))
unfolding accounts_for_instruction account_maybe is_sysvar Scenario.get
sysvar_ixns_logs_itself_example =
    sysvar_ixns_logs_itself toy machine machine_introspection false introspect (meta 9 false false)
      [] db db introspected [] quiet (omega arith) (omega arith) refl refl refl
