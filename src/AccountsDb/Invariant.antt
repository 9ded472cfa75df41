-- ===== src/AccountsDb/Invariant.antt =====
-- The well-formedness of the database, which the primitive changes keep.
use seashell.Prelude.{ℕ, ◌≡◌, ap, ◌∙◌, Bool-cases, inl, inr, true, none, arith}
use seashell.Prelude.Int.{ℤ}
use seashell.Prelude.Map.{
  lookup, kept, HasDistinctKeys, lookup-insert, lookup-retain, insert-HasDistinctKeys,
  retain-HasDistinctKeys,
}
use seashell.Outcome.{Exec}
use seashell.Outcome.Keeps.{Keeps}
use seashell.Instruction.{Pubkey}
use seashell.Sdk.{Sdk}
use seashell.Scenario.Fetch.{fetch_rule}
use seashell.Sysvars.{is_sysvar}
use seashell.AccountsDb.Closed.{Closed}
use seashell.AccountsDb.{
  AccountsDb, fetch, clear_non_program_accounts, warp, set_account, replenish_programs,
}

-- No key stands twice, and the account of a sysvar never stands among the accounts, where the
-- lookup would not find it.
pub record IsWellFormed (sdk : Sdk) (db : AccountsDb sdk) : Type 0 where
  pub scenario_keys : HasDistinctKeys db.scenario.entries
  pub account_keys : HasDistinctKeys db.accounts
  pub no_sysvars : (k : Pubkey) → is_sysvar sdk k ≡ true → lookup k db.accounts ≡ none

module _ (sdk : Sdk) where
  open sdk use {
    Shared, is_executable, FeatureSet, ComputeBudget, Entrypoint, ProgramEntry, builtins,
    new_builtin, instructions_id,
  }

  abbrev KeepsWell : {A : Type 0} → Exec (AccountsDb sdk) A → Type 0
  KeepsWell m = Keeps (IsWellFormed sdk) m

  fetch-KeepsWell : (k : Pubkey) → KeepsWell (fetch sdk k)
  fetch-KeepsWell k = record {
    at = λ db h. record {
      scenario_keys =
          fetch_rule sdk k (λ s. HasDistinctKeys s.entries) (λ s c d. d)
            (λ s x d. insert-HasDistinctKeys k x s.entries d) db.scenario h.scenario_keys;
      account_keys = h.account_keys;
      no_sysvars = h.no_sysvars;
    };
  }

  set_account-KeepsWell : (k : Pubkey) (x : Shared) → KeepsWell (set_account sdk k x)
  unfolding set_account
  set_account-KeepsWell k x = record {
    at = λ db h. elim (Bool-cases (is_sysvar sdk k)) [
      | inl sysvar ↦ rw sysvar (record {
        scenario_keys = h.scenario_keys;
        account_keys = h.account_keys;
        no_sysvars = h.no_sysvars;
      })
      | inr other ↦ rw other (record {
        scenario_keys = h.scenario_keys;
        account_keys = insert-HasDistinctKeys k x db.accounts h.account_keys;
        no_sysvars = λ j sysvar. ground (arith, lookup-insert j k x db.accounts, h.no_sysvars j);
      })
    ];
  }

  clear-IsWellFormed :
      (db : AccountsDb sdk)
      → IsWellFormed sdk db
      → IsWellFormed sdk (clear_non_program_accounts sdk db)
  unfolding clear_non_program_accounts
  clear-IsWellFormed db h = record {
    scenario_keys = h.scenario_keys;
    account_keys = retain-HasDistinctKeys is_executable db.accounts h.account_keys;
    no_sysvars = λ k sysvar.
        lookup-retain is_executable k db.accounts h.account_keys
        ∙ ap (kept is_executable) (h.no_sysvars k sysvar);
  }

  warp-IsWellFormed :
      (slot : ℕ) (timestamp : ℤ) (db : AccountsDb sdk)
      → IsWellFormed sdk db
      → IsWellFormed sdk (warp sdk slot timestamp db)
  unfolding warp
  warp-IsWellFormed slot timestamp db h = record {
    scenario_keys = h.scenario_keys;
    account_keys = h.account_keys;
    no_sysvars = h.no_sysvars;
  }

  replenish-KeepsWell : (k : Pubkey) (e : ProgramEntry) → KeepsWell (replenish_programs sdk k e)
  replenish-KeepsWell k e = record {
    at = λ db h. record {
      scenario_keys = h.scenario_keys;
      account_keys = h.account_keys;
      no_sysvars = h.no_sysvars;
    };
  }

  pub IsWellFormed-Closed : Closed sdk (IsWellFormed sdk)
  IsWellFormed-Closed = record {
    fetched = fetch-KeepsWell;
    written = set_account-KeepsWell;
    replenished = replenish-KeepsWell;
    cleared = clear-IsWellFormed;
    warped = warp-IsWellFormed;
  }
