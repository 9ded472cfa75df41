-- ===== src/Seashell/Processing/Order.antt =====
-- Seashells whose databases are seen as the same store: processing cannot tell them apart.
use mathlib.Core.List.{Permᴰ}
use mathlib.Core.Path.{subst}
use seashell.Prelude.{◌≡◌, refl, sym, ap, ℕ, Option, none, some, List, [], ◌∷◌, if◌then◌else◌}
use seashell.Prelude.Map.{Map, HasDistinctKeys}
use seashell.Outcome.{Result, ok, Exec, pure, expect, failed_to_borrow}
use seashell.Outcome.Alike.{
  Related, Blind, Blind-pure, Blind-lift, Blind-if, Blind-read, Blind-bind,
}
use seashell.Instruction.{Pubkey, Instruction}
use seashell.Sdk.{Sdk}
use seashell.AccountsDb
use seashell.AccountsDb.{
  AccountsDb, account_maybe, accounts_for_instruction, sysvars_for_instruction, default_accounts_db,
}
use seashell.AccountsDb.Order.{
  SameStore, BlindDb, account_maybe-Same, accounts_for_instruction-Blind, set_account-Blind,
  reordered-SameStore,
}
use seashell.Seashell.{
  Config, Seashell, on_db, default_config, set_account_from_account_shared_data,
  callback_process_precompile,
}
use seashell.Seashell.Process.{
  Invocation, configure, invoke, memoized, write_back, post_account, post_accounts, conclude,
  finish, process_instruction,
}
use seashell.Seashell.Processing.Independent.{process_all}
use seashell.Seashell.Processing.Rest.{sysvars_for_instruction-Agrees}
use seashell.Seashell.Processing.Unmemoized.{invoked, invoke-invoked}

module _ (sdk : Sdk) where
  open sdk use {
    Shared, TransactionContext, SysvarCache, InstructionError, FeatureSet, ComputeBudget,
    LogCollector, Programs, find_index_of_account, try_borrow,
  }

  pub record SameSeen (s t : Seashell sdk) : Type 0 where
    pub config : s.config ≡ t.config
    pub db : SameStore sdk s.accounts_db t.accounts_db
    pub budget : s.compute_budget ≡ t.compute_budget
    pub features : s.feature_set ≡ t.feature_set
    pub logs : s.log_collector ≡ t.log_collector

  abbrev pub BlindSeen : {A : Type 0} → Exec (Seashell sdk) A → Type 0
  BlindSeen m = Blind SameSeen m

  on_db-Blind : {A : Type 0} (m : Exec (AccountsDb sdk) A) → BlindDb sdk m → BlindSeen (on_db sdk m)
  on_db-Blind m bm = record {
    at = λ s t h.
        let (e, db) = bm.at s.accounts_db t.accounts_db h.db in
        (
          e,
          record {
            config = h.config;
            db = db;
            budget = h.budget;
            features = h.features;
            logs = h.logs;
          },
        );
  }

  memoized-Blind : (k : Pubkey) (x : Shared) → BlindSeen (memoized sdk k x)
  unfolding set_account_from_account_shared_data
  memoized-Blind k x = record {
    at = λ s t h.
        let write = set_account_from_account_shared_data sdk k x in
        subst
          (λ (c : Config).
            Related SameSeen ((if s.config.memoize then write else pure tt) s)
              ((if c.memoize then write else pure tt) t))
          h.config
          ((Blind-if s.config.memoize write (pure tt)
              (on_db-Blind (AccountsDb.set_account sdk k x) (set_account-Blind sdk k x))
              (Blind-pure tt)).at
            s t h);
  }

  write_back-Blind :
      (context : TransactionContext) (k : Pubkey) (before : Shared) (idx : Option ℕ)
      → BlindSeen (write_back sdk context k before idx)
  unfolding write_back
  write_back-Blind context k before none = Blind-pure _
  write_back-Blind context k before (some idx) =
      Blind-bind _ _ (Blind-lift (expect failed_to_borrow (try_borrow context idx)))
        (λ x. Blind-bind _ _ (memoized-Blind k x) (λ _. Blind-pure _))

  post_accounts-Blind :
      (context : TransactionContext) (l : List (Pubkey × Shared))
      → BlindSeen (post_accounts sdk context l)
  unfolding post_accounts post_account
  post_accounts-Blind context [] = Blind-pure []
  post_accounts-Blind context ((k, before) ∷ l) =
      Blind-bind _ _ (write_back-Blind context k before (find_index_of_account context k))
        (λ after. Blind-bind _ _ (post_accounts-Blind context l) (λ rest. Blind-pure _))

  conclude-Blind :
      (l : List (Pubkey × Shared)) (v : Invocation sdk) (failure : Option InstructionError)
      → BlindSeen (conclude sdk l v failure)
  unfolding conclude
  conclude-Blind l v none = Blind-bind _ _ (post_accounts-Blind v.context l) (λ after. Blind-pure _)
  conclude-Blind l v (some e) = Blind-pure _

  abbrev pub reordered : Seashell sdk → Map Shared → Map Shared → Seashell sdk
  reordered s m n = record s {
    accounts_db = record (s.accounts_db) {
      scenario = record (s.accounts_db.scenario) { entries = m };
      accounts = n;
    };
  }

  -- what an invocation reads
  abbrev reading : FeatureSet → Programs → Option LogCollector → ComputeBudget → Seashell sdk
  reading features programs logs budget = record {
    config = default_config;
    accounts_db = record (default_accounts_db sdk) { programs = programs };
    compute_budget = budget;
    feature_set = features;
    log_collector = logs;
  }

  module _ (ixn : Instruction) where
    invoke-Blind :
        (cache : SysvarCache) (context : TransactionContext)
        → BlindSeen (invoke sdk ixn cache context)
    unfolding invoke callback_process_precompile
    invoke-Blind cache context = record {
      at = λ s t h.
          let same : invoked sdk ixn cache context s ≡ invoked sdk ixn cache context t = λ i.
            invoked sdk ixn cache context
              (reading (h.features i) (h.db.programs i) (h.logs i) (h.budget i)) in
          let ended = λ (u : Seashell sdk). sym (invoke-invoked sdk ixn cache context u) in
          let after : Related SameSeen
              (
                ok (invoked sdk ixn cache context s).0,
                record s { log_collector = (invoked sdk ixn cache context s).1 },
              )
              (
                ok (invoked sdk ixn cache context t).0,
                record t { log_collector = (invoked sdk ixn cache context t).1 },
              ) =
            (
              λ i. ok (same i).0,
              record {
                config = h.config;
                db = h.db;
                budget = h.budget;
                features = h.features;
                logs = λ i. (same i).1;
              },
            ) in
          subst
            (λ (p : Result (Invocation sdk) × Seashell sdk).
              Related SameSeen p (invoke sdk ixn cache context t))
            (ended s) (subst (Related SameSeen (_, _)) (ended t) after);
    }

    configure-Same :
        (l : List (Pubkey × Shared)) (s t : Seashell sdk)
        → SameSeen s t
        → configure sdk ixn l s ≡ configure sdk ixn l t
    unfolding configure
    configure-Same l s t h = λ i. configure sdk ixn l (record s {
      accounts_db = record (s.accounts_db) { sysvars = h.db.sysvars i };
      compute_budget = h.budget i;
    })

    pub process_instruction-Blind : BlindSeen (process_instruction sdk ixn)
    unfolding process_instruction finish
    process_instruction-Blind =
        Blind-bind _ _
          (Blind-read (λ (s : Seashell sdk). ok s.config.allow_uninitialized_accounts_local)
            (λ s t h. ap (λ (c : Config). ok c.allow_uninitialized_accounts_local) h.config))
          (λ allow.
            Blind-bind _ _
              (on_db-Blind (accounts_for_instruction sdk allow ixn)
                (accounts_for_instruction-Blind sdk allow ixn))
              (λ l.
                Blind-bind _ _
                  (Blind-read (λ (s : Seashell sdk). sysvars_for_instruction sdk s.accounts_db l)
                    (λ s t h. sym (
                      sysvars_for_instruction-Agrees sdk s.accounts_db t.accounts_db l
                        (λ k. sym (account_maybe-Same sdk s.accounts_db t.accounts_db k h.db)))))
                  (λ cache.
                    Blind-bind _ _ (Blind-read (configure sdk ixn l) (configure-Same l)) (λ context.
                      Blind-bind _ _ (invoke-Blind cache context)
                        (λ v. conclude-Blind l v v.failure)))))

  process_all-Same :
      (ixns : List Instruction) (s t : Seashell sdk)
      → SameSeen s t
      → ((process_all sdk ixns s).0 ≡ (process_all sdk ixns t).0)
        × SameSeen (process_all sdk ixns s).1 (process_all sdk ixns t).1
  unfolding process_all
  process_all-Same [] s t h = (refl, h)
  process_all-Same (ixn ∷ ixns) s t h =
      let (first, h') = (process_instruction-Blind ixn).at s t h in
      let (rest, h'') =
        process_all-Same ixns (process_instruction sdk ixn s).1 (process_instruction sdk ixn t).1
          h' in
      (λ i. first i ∷ rest i, h'')

  -- If the scenario's accounts and the other ones stand in another order in their maps, then any
  -- sequence of instructions has the same results, panics included, whatever the node replies and
  -- whether results are memoized or not, and leaves databases in which every key reads the same.
  pub process_all-any_order :
      (ixns : List Instruction) (s : Seashell sdk) (m n : Map Shared)
      → HasDistinctKeys s.accounts_db.scenario.entries
      → HasDistinctKeys s.accounts_db.accounts
      → Permᴰ s.accounts_db.scenario.entries m
      → Permᴰ s.accounts_db.accounts n
      → let (results, end) = process_all sdk ixns s in
        let (results', end') = process_all sdk ixns (reordered s m n) in
        (results ≡ results')
        × ((k : Pubkey)
            → account_maybe sdk end.accounts_db k ≡ account_maybe sdk end'.accounts_db k)
  process_all-any_order ixns s m n distinct distinct' order order' =
      let (same, seen) = process_all-Same ixns s (reordered s m n) (record {
        config = refl;
        db = reordered-SameStore sdk s.accounts_db m n distinct distinct' order order';
        budget = refl;
        features = refl;
        logs = refl;
      }) in
      (same, λ k. account_maybe-Same sdk _ _ k seen.db)
