-- ===== src/Seashell/Offline.antt =====
-- Runs without a node: the scenario, and so its file, stays as it was loaded.
use seashell.Prelude.{◌≡◌, refl, ap, ◌∙◌, Bool-cases, inl, inr, Option, none, if◌then◌else◌}
use seashell.Outcome.Keeps.{Keeps}
use seashell.Instruction.{Pubkey}
use seashell.Sdk.{Sdk}
use seashell.Files.{Files}
use seashell.Scenario.{Scenario, try_fetch_from_rpc, fetch_with}
use seashell.Scenario.Persist.{drop}
use seashell.Sysvars.{is_sysvar}
use seashell.AccountsDb.{AccountsDb, fetch, set_account, clear_non_program_accounts, warp}
use seashell.AccountsDb.Closed.{Closed}
use seashell.Seashell.{Seashell}
use seashell.Seashell.Invariant.{Whole}
use seashell.Seashell.Steps.{LocalStep, LocalStep-Whole}

module _ (sdk : Sdk) where
  -- What calls of the methods of the seashell alone lead to.
  pub data LocalReach (s : Seashell sdk) : Seashell sdk → Type 0 where
    here : LocalReach s s
    next : {u v : Seashell sdk} → LocalReach s u → LocalStep sdk u v → LocalReach s v

  module _ (scenario : Scenario sdk) (offline : scenario.rpc_client ≡ none) where
    abbrev Has : AccountsDb sdk → Type 0
    Has db = db.scenario ≡ scenario

    fetch-Keeps-Has : (k : Pubkey) → Keeps Has (fetch sdk k)
    unfolding try_fetch_from_rpc fetch_with
    fetch-Keeps-Has k = record {
      at = λ db h.
          let client : db.scenario.rpc_client ≡ none =
            ap (λ (s : Scenario sdk). s.rpc_client) h ∙ offline in
          ap (λ (c : Option sdk.RpcClient). (fetch_with sdk c k db.scenario).1) client ∙ h;
    }

    set_account-Keeps-Has : (k : Pubkey) (x : sdk.Shared) → Keeps Has (set_account sdk k x)
    unfolding set_account
    set_account-Keeps-Has k x = record {
      at = λ db h. elim (Bool-cases (is_sysvar sdk k)) [
        | inl sysvar ↦ rw sysvar h
        | inr other ↦ rw other h
      ];
    }

    Has-Closed : Closed sdk Has
    unfolding clear_non_program_accounts warp
    Has-Closed = record {
      fetched = fetch-Keeps-Has;
      written = set_account-Keeps-Has;
      replenished = λ k e. record { at = λ db h. h };
      cleared = λ db h. h;
      warped = λ slot timestamp db h. h;
    }

    LocalReach-Whole :
        (s s' : Seashell sdk)
        → LocalReach s s'
        → Has s.accounts_db
        → Whole sdk Has s.feature_set s.compute_budget s'
    LocalReach-Whole s s' here h = record { well = h; same_features = refl; same_budget = refl }
    LocalReach-Whole s s' (next {u} {v} r st) h =
        LocalStep-Whole sdk Has-Closed s.feature_set s.compute_budget u v st
          (LocalReach-Whole s u r h)

  -- If the scenario has no node, then no call but the loading of a scenario changes it, marked or
  -- not, whatever is processed, written, cleared or loaded, and also if some calls panic. Dropping it
  -- afterwards leaves every file as it is if it was not marked at first, and writes what dropping it
  -- at first would have written if it was.
  pub LocalReach-scenario :
      (s s' : Seashell sdk) (fs : Files)
      → LocalReach s s'
      → s.accounts_db.scenario.rpc_client ≡ none
      → (s'.accounts_db.scenario ≡ s.accounts_db.scenario)
        × (drop sdk s'.accounts_db.scenario fs
            ≡ (if s.accounts_db.scenario.dirty then drop sdk s.accounts_db.scenario fs else fs))
  unfolding drop
  LocalReach-scenario s s' fs r offline =
      let same = (LocalReach-Whole s.accounts_db.scenario offline s s' r refl).well in
      (
        same,
        ap (λ (sc : Scenario sdk). drop sdk sc fs) same
            ∙ elim (Bool-cases s.accounts_db.scenario.dirty) [
              | inl marked ↦ rw marked refl
              | inr clean ↦ rw clean refl
            ],
      )
