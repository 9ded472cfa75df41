-- ===== src/Seashell/Processing/Replay.antt =====
-- An instruction processed again, with another scenario that has the same accounts.
use mathlib.Core.Path.{subst}
use seashell.Prelude.{◌≡◌, refl, sym, ap, ◌∙◌, Bool, false, List, arith}
use seashell.Outcome.{Result, ok, panic, Exec, continue, ◌>>=◌, >>=-step}
use seashell.Instruction.{Pubkey, Instruction}
use seashell.Sdk.{Sdk}
use seashell.Scenario
use seashell.Scenario.{Scenario}
use seashell.AccountsDb.{AccountsDb, account_maybe, accounts_for_instruction}
use seashell.AccountsDb.LoadKeeps.{accounts_for_instruction-Keeps}
use seashell.AccountsDb.Replay.{IsStrict, Extends, accounts_for_instruction_replays}
use seashell.Seashell.{Seashell, on_db}
use seashell.Seashell.Process.{InstructionProcessingResult, process_instruction}
use seashell.Seashell.Processing.{SameDb, fetch-SameDb}
use seashell.Seashell.Processing.Rest.{with_scenario, Agrees, rest_of, rest_of-Alike}

module _ (sdk : Sdk) where
  open sdk use {Shared}

  -- What a call that began with loading the accounts and returned went through.
  loaded_then :
      (load : Exec (AccountsDb sdk) (List (Pubkey × Shared)))
      (f : List (Pubkey × Shared) → Exec (Seashell sdk) (InstructionProcessingResult sdk))
      (s s' : Seashell sdk) (r : InstructionProcessingResult sdk)
      → (on_db sdk load >>= f) s ≡ (ok r, s')
      → (l : List (Pubkey × Shared)) × (load s.accounts_db ≡ (ok l, (load s.accounts_db).1))
        × (f l (record s { accounts_db = (load s.accounts_db).1 }) ≡ (ok r, s'))
  loaded_then load f s s' r e = go (load s.accounts_db) e
    where
      go :
          (p : Result (List (Pubkey × Shared)) × AccountsDb sdk)
          → continue p.0 (record s { accounts_db = p.1 }) f ≡ (ok r, s')
          → (l : List (Pubkey × Shared)) × (p ≡ (ok l, p.1))
            × (f l (record s { accounts_db = p.1 }) ≡ (ok r, s'))
      go (ok l, db') e = (l, refl, e)
      go (panic q, db') e = absurd (cc)

  same_db :
      (db db' : AccountsDb sdk) (scenario : Scenario sdk)
      → SameDb sdk db db'
      → record db' { scenario = scenario } ≡ record db { scenario = scenario }
  same_db db db' scenario h = λ i. record {
    scenario = scenario;
    accounts = h.accounts i;
    programs = h.programs i;
    sysvars = h.sysvars i;
  }

  Agrees-scenario :
      (db : AccountsDb sdk) (scenario : Scenario sdk)
      → ((k : Pubkey) → Scenario.get sdk scenario k ≡ Scenario.get sdk db.scenario k)
      → Agrees sdk db (record db { scenario = scenario })
  unfolding account_maybe
  Agrees-scenario db scenario same k = ground (arith, same k)

  load_SameDb :
      (allow : Bool) (ixn : Instruction) (db : AccountsDb sdk)
      → SameDb sdk db (accounts_for_instruction sdk allow ixn db).1
  load_SameDb allow ixn db =
      (accounts_for_instruction-Keeps sdk (SameDb sdk db) (fetch-SameDb sdk db) allow ixn).at db
        (record { accounts = refl; programs = refl; sysvars = refl })

  -- A call that has returned `s'` wrote only logs once the accounts were loaded.
  rest_of-db :
      (ixn : Instruction) (l : List (Pubkey × Shared)) (t s' : Seashell sdk)
      (r : InstructionProcessingResult sdk)
      → t.config.memoize ≡ false
      → rest_of sdk ixn l t ≡ (ok r, s')
      → s'.accounts_db ≡ t.accounts_db
  rest_of-db ixn l t s' r off ended =
      let (_, logs, p, _) = rest_of-Alike sdk ixn l t off t.accounts_db.scenario (λ k. refl) in
      ap (λ (q : Result (InstructionProcessingResult sdk) × Seashell sdk). q.1.accounts_db)
        (sym ended ∙ p)

  replay_rest :
      (ixn : Instruction) (s s' : Seashell sdk) (r : InstructionProcessingResult sdk)
      (scenario : Scenario sdk)
      → s.config.memoize ≡ false
      → (l : List (Pubkey × Shared)) (db' : AccountsDb sdk) → SameDb sdk s.accounts_db db'
      → rest_of sdk ixn l (record s { accounts_db = db' }) ≡ (ok r, s')
      → ((k : Pubkey) → Scenario.get sdk scenario k ≡ Scenario.get sdk s'.accounts_db.scenario k)
      → (Extends sdk db' (with_scenario sdk scenario s).accounts_db
          → accounts_for_instruction sdk s.config.allow_uninitialized_accounts_local ixn
              (with_scenario sdk scenario s).accounts_db
            ≡ (ok l, (with_scenario sdk scenario s).accounts_db))
      → process_instruction sdk ixn (with_scenario sdk scenario s)
        ≡ (ok r, record (with_scenario sdk scenario s) { log_collector = s'.log_collector })
  unfolding process_instruction
  replay_rest ixn s s' r scenario off l db' kept ended same load =
      let t = record s { accounts_db = db' } in
      let u = with_scenario sdk scenario s in
      let db_same = same_db s.accounts_db db' scenario kept in
      let left = rest_of-db ixn l t s' r off ended in
      let agree =
        Agrees-scenario db' scenario
          (λ k. same k ∙ ap (λ (db : AccountsDb sdk). Scenario.get sdk db.scenario k) left) in
      let (r', logs, p, q) = rest_of-Alike sdk ixn l t off scenario agree in
      let end = sym p ∙ ended in
      let loads = load (λ j x h.
        ap (λ (db : AccountsDb sdk). account_maybe sdk db j) (sym db_same) ∙ agree j ∙ h) in
      >>=-step
        (on_db sdk (accounts_for_instruction sdk u.config.allow_uninitialized_accounts_local ixn))
        (rest_of sdk ixn) u
        (ap
          (λ (x : Result (List (Pubkey × Shared)) × AccountsDb sdk).
            (x.0, record u { accounts_db = x.1 }))
          loads)
      ∙ subst
          (λ (db : AccountsDb sdk).
            rest_of sdk ixn l (record s { accounts_db = db })
            ≡ (r', record s { accounts_db = db; log_collector = logs }))
          db_same q
      ∙ ap
          (λ (x : Result (InstructionProcessingResult sdk) × Seashell sdk).
            (x.0, record u { log_collector = x.1.log_collector }))
          end

  -- What loading the accounts left is what the call leaves.
  pub process_instruction-db :
      (ixn : Instruction) (s s' : Seashell sdk) (r : InstructionProcessingResult sdk)
      → s.config.memoize ≡ false
      → process_instruction sdk ixn s ≡ (ok r, s')
      → s'.accounts_db
        ≡ (accounts_for_instruction sdk s.config.allow_uninitialized_accounts_local ixn
            s.accounts_db).1
  unfolding process_instruction
  process_instruction-db ixn s s' r off e =
      let load = accounts_for_instruction sdk s.config.allow_uninitialized_accounts_local ixn in
      let (l, _, ended) = loaded_then load (rest_of sdk ixn) s s' r e in
      rest_of-db ixn l (record s { accounts_db = (load s.accounts_db).1 }) s' r off ended

  -- Uninitialized accounts are allowed neither locally nor for what is fetched, and results are not
  -- memoized: once an instruction has been processed, processing it again from the first state, but
  -- with any scenario that has the accounts of the one it left, gives the same result, makes no
  -- request, and changes nothing but the logs.
  pub process_instruction_replays :
      (ixn : Instruction) (s s' : Seashell sdk) (r : InstructionProcessingResult sdk)
      (scenario : Scenario sdk)
      → s.config.memoize ≡ false
      → s.config.allow_uninitialized_accounts_local ≡ false
      → IsStrict sdk s.accounts_db
      → process_instruction sdk ixn s ≡ (ok r, s')
      → ((k : Pubkey) → Scenario.get sdk scenario k ≡ Scenario.get sdk s'.accounts_db.scenario k)
      → process_instruction sdk ixn (with_scenario sdk scenario s)
        ≡ (ok r, record (with_scenario sdk scenario s) { log_collector = s'.log_collector })
  unfolding process_instruction
  process_instruction_replays ixn s s' r scenario off never strict e same =
      let load = λ (allow : Bool). accounts_for_instruction sdk allow ixn in
      let first = ap (λ (b : Bool). (on_db sdk (load b) >>= rest_of sdk ixn) s) (sym never) ∙ e in
      let (l, loaded, ended) = loaded_then (load false) (rest_of sdk ixn) s s' r first in
      let db' = (load false s.accounts_db).1 in
      replay_rest ixn s s' r scenario off l db' (load_SameDb false ixn s.accounts_db) ended same
        (λ ext.
          accounts_for_instruction_replays sdk s.config.allow_uninitialized_accounts_local ixn
            s.accounts_db db' (with_scenario sdk scenario s).accounts_db l strict loaded ext)
