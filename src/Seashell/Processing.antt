-- ===== src/Seashell/Processing.antt =====
-- What `process_instruction` leaves alone, and which accounts it reports.
pub mod Reports
pub mod Memoize
pub mod Results
pub mod Totality
pub mod Unmemoized
pub mod Rest
pub mod Replay
pub mod Saved
pub mod Online
pub mod Independent
pub mod Missing
pub mod Order
pub mod Chained
use mathlib.Core.Bool.{false≢true}
use mathlib.Core.Path.{ap₂}
use seashell.Prelude.{
  ℕ, Bool-cases, ◌≡◌, ◌≢◌, refl, sym, ap, ◌∙◌, Bool, true, false, ◌⊎◌, inl, inr, Option, none, some,
  List, [], ◌∷◌, map, if◌then◌else◌,
}
use seashell.Outcome.{Result, ok, panic, Exec, continue, ◌>>=◌, pure, lift, gets}
use seashell.Outcome.Keeps.{Keeps}
use seashell.Outcome.Yields.{Yields, Yields-pure, Yields-bind, Yields-any, Good}
use seashell.Outcome.Triple.{
  Ends, Triple, Triple-ok, Triple-pure, Triple-if, Triple-lift, Triple-bind, Triple-pre,
  Triple-frame, Triple-gets, Triple-read, Ends-any,
}
use seashell.Instruction.{Pubkey, Instruction}
use seashell.Compile.{transaction_keys}
use seashell.Sdk.{Sdk, Account}
use seashell.Scenario.Fetch.{fetch_rule}
use seashell.AccountsDb
use seashell.AccountsDb.{AccountsDb, fetch, accounts_for_instruction, sysvars_for_instruction}
use seashell.AccountsDb.LoadKeeps.{accounts_for_instruction-Keeps}
use seashell.AccountsDb.Loading.{keys, keys-Yields}
use seashell.Seashell.{
  Config, Seashell, set_account_from_account_shared_data, on_db, callback_is_precompile,
}
use seashell.Seashell.Process.{
  InstructionProcessingResult, Invocation, configure, invoke, memoized, write_back, post_account,
  post_accounts, conclude, finish, process_instruction,
}

module _ (sdk : Sdk) where
  open sdk use {Shared, InstructionError, TransactionContext, SysvarCache, find_index_of_account}

  -- Nothing has changed but the scenario.
  pub record SameDb (db db' : AccountsDb sdk) : Type 0 where
    pub accounts : db'.accounts ≡ db.accounts
    pub programs : db'.programs ≡ db.programs
    pub sysvars : db'.sysvars ≡ db.sysvars

  -- Nothing has changed but the scenario and the logs.
  pub record Same (s t : Seashell sdk) : Type 0 where
    pub config : t.config ≡ s.config
    pub budget : t.compute_budget ≡ s.compute_budget
    pub features : t.feature_set ≡ s.feature_set
    pub db : SameDb s.accounts_db t.accounts_db

  pub Same-refl : (s : Seashell sdk) → Same s s
  Same-refl s = record {
    config = refl;
    budget = refl;
    features = refl;
    db = record { accounts = refl; programs = refl; sysvars = refl };
  }

  pub fetch-SameDb : (db : AccountsDb sdk) (k : Pubkey) → Keeps (SameDb db) (fetch sdk k)
  fetch-SameDb db k = record {
    at = λ db' h. record { accounts = h.accounts; programs = h.programs; sysvars = h.sysvars };
  }

  Ends-both :
      {A S : Type 0} (P : S → Type 0) (Q : A → Type 0) (r : Result A) (s : S)
      → P s
      → Good Q r
      → Ends (λ a t. P t × Q a) (r, s)
  Ends-both P Q (ok a) s p q = (p, q)
  Ends-both P Q (panic e) s p q = tt

  module _ (ixn : Instruction) (s : Seashell sdk) where
    logged :
        (t : Seashell sdk) (l : Option sdk.LogCollector)
        → Same s t
        → Same s (record t { log_collector = l })
    logged t l h = record { config = h.config; budget = h.budget; features = h.features; db = h.db }

    -- The accounts have been loaded, and nothing else has changed.
    abbrev pub Loaded : List (Pubkey × Shared) → Seashell sdk → Type 0
    Loaded accounts t = Same s t × (keys accounts ≡ transaction_keys ixn)

    pub load-Loaded :
        (allow : Bool) → Triple (Same s) (on_db sdk (accounts_for_instruction sdk allow ixn)) Loaded
    load-Loaded allow = record {
      by = λ t h.
          let load = accounts_for_instruction sdk allow ixn in
          let kept =
            (accounts_for_instruction-Keeps sdk (SameDb s.accounts_db) (fetch-SameDb s.accounts_db)
                allow ixn).at
              t.accounts_db h.db in
          Ends-both (Same s) (λ l. keys l ≡ transaction_keys ixn) (load t.accounts_db).0
            (record t { accounts_db = (load t.accounts_db).1 })
            (record { config = h.config; budget = h.budget; features = h.features; db = kept })
            ((keys-Yields sdk allow ixn).of t.accounts_db);
    }

    invoke-Same :
        (accounts : List (Pubkey × Shared)) (cache : SysvarCache) (context : TransactionContext)
        → Triple (Loaded accounts) (invoke sdk ixn cache context) (λ _. Loaded accounts)
    unfolding invoke
    invoke-Same accounts cache context = record {
      by = λ t h. elim (Bool-cases (callback_is_precompile sdk t ixn.program_id)) [
        | inl precompile ↦ rw precompile (logged t _ h.0, h.1)
        | inr program ↦ rw program (logged t _ h.0, h.1)
      ];
    }

    -- Nothing but the scenario and the logs has changed if results are not memoized.
    abbrev Written : Seashell sdk → Type 0
    Written t = (t.config ≡ s.config) × (s.config.memoize ≡ false → Same s t)

    memoized-Written : (k : Pubkey) (x : Shared) → Triple Written (memoized sdk k x) (λ _. Written)
    unfolding set_account_from_account_shared_data
    memoized-Written k x = record {
      by = λ t h.
          (Triple-if t.config.memoize (set_account_from_account_shared_data sdk k x) (pure tt)
              (λ on. record {
                by = λ u g.
                    let (r, db) = AccountsDb.set_account sdk k x u.accounts_db in
                    Ends-any Written r (record u { accounts_db = db })
                      (
                        g.0,
                        λ off.
                            absurd (
                              false≢true (sym off ∙ ap (λ (c : Config). c.memoize) (sym h.0) ∙ on)),
                      );
              })
              (λ off. Triple-pure tt (λ u g. g))).by
            t h;
    }

    post_account-Written :
        (context : TransactionContext) (k : Pubkey) (before : Shared) (idx : Option ℕ)
        → Triple Written (write_back sdk context k before idx) (λ e t. Written t × (e.0 ≡ k))
    unfolding write_back
    post_account-Written context k before none = Triple-pure (k, _) (λ t h. (h, refl))
    post_account-Written context k before (some idx) =
        Triple-bind _ _ (Triple-lift {Q = λ _. Written} _ (λ x t e h. h))
          (λ x. Triple-bind _ _ (memoized-Written k x) (λ _. Triple-pure (k, _) (λ t h. (h, refl))))

    post_accounts-Written :
        (context : TransactionContext) (accounts : List (Pubkey × Shared))
        → Triple Written
            (post_accounts sdk context accounts)
            (λ after t. Written t × (keys after ≡ keys accounts))
    unfolding post_accounts post_account
    post_accounts-Written context [] = Triple-pure [] (λ t h. (h, refl))
    post_accounts-Written context ((k, before) ∷ accounts) =
        Triple-bind _ _ (post_account-Written context k before (find_index_of_account context k))
          (λ e.
            Triple-bind _ _
              (Triple-frame (e.0 ≡ k) (post_accounts sdk context accounts)
                (post_accounts-Written context accounts))
              (λ rest. Triple-pure (e ∷ rest) (λ t h. (h.0.0, ap₂ ◌∷◌ h.1 h.0.1))))

    -- What a result says of the state: after an error nothing is reported and nothing has changed;
    -- otherwise the accounts of the transaction are reported; and only a memoized result changes
    -- anything at all.
    abbrev Reported : InstructionProcessingResult sdk → Seashell sdk → Type 0
    Reported r t =
        (r.error ≢ none → (r.post_execution_accounts ≡ []) × Same s t)
        × (r.error ≡ none → keys r.post_execution_accounts ≡ transaction_keys ixn)
        × (s.config.memoize ≡ false → Same s t)

    finish-Reported :
        (accounts : List (Pubkey × Shared)) (i : Invocation sdk) (failure : Option InstructionError)
        → Triple (Loaded accounts) (conclude sdk accounts i failure) Reported
    unfolding conclude
    finish-Reported accounts i none =
        Triple-bind _ _
          (Triple-pre (λ t h. ((h.0.config, λ _. h.0), h.1))
            (Triple-frame (keys accounts ≡ transaction_keys ixn)
              (post_accounts sdk i.context accounts) (post_accounts-Written i.context accounts)))
          (λ after. Triple-pure _ (λ t h. (λ e. absurd (e refl), λ _. h.0.1 ∙ h.1, h.0.0.1)))
    finish-Reported accounts i (some e) =
        Triple-pure _ (λ t h. ((λ _. (refl, h.0)), (λ x. absurd (cc)), (λ _. h.0)))

    process-Reported : Triple (Same s) (process_instruction sdk ixn) Reported
    unfolding process_instruction finish
    process-Reported = Triple-bind _ _ (Triple-gets _) (λ allow.
        Triple-bind _ _ (load-Loaded allow) (λ accounts.
          Triple-bind _ _ (Triple-read (λ t. sysvars_for_instruction sdk t.accounts_db accounts))
            (λ cache. Triple-bind _ _ (Triple-read (configure sdk ixn accounts)) (λ context.
              Triple-bind _ _ (invoke-Same accounts cache context)
                (λ i. finish-Reported accounts i i.failure)))))

    -- What is the case when an instruction has been processed: after an error no account is reported and nothing has
    -- changed but the scenario and the logs, even if results are memoized; without an error the
    -- program and the mentioned accounts are reported, in order; and if results are not memoized
    -- nothing has changed but the scenario and the logs.
    pub process_instruction_reports :
        (r : InstructionProcessingResult sdk) (t : Seashell sdk)
        → process_instruction sdk ixn s ≡ (ok r, t)
        → (r.error ≢ none → (r.post_execution_accounts ≡ []) × Same s t)
          × (r.error ≡ none → keys r.post_execution_accounts ≡ transaction_keys ixn)
          × (s.config.memoize ≡ false → Same s t)
    process_instruction_reports r t e = Triple-ok process-Reported (Same-refl s) e
