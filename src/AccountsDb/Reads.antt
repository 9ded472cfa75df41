-- ===== src/AccountsDb/Reads.antt =====
-- What can be read from the database after each of its writes.
use mathlib.Core.Option.{get_or}
use seashell.Prelude.{◌≡◌, ◌≢◌, true, false, some, arith, ◌==◌, if◌then◌else◌}
use seashell.Prelude.Map.{lookup, kept, HasDistinctKeys, or_else, lookup-insert, lookup-retain}
use seashell.Outcome.{ok}
use seashell.Instruction.{Pubkey}
use seashell.Sdk.{Sdk}
use seashell.Scenario
use seashell.Scenario.{Scenario}
use seashell.Sysvars.{is_sysvar}
use seashell.Sysvars.Reads.{HasSysvars, set-get, get-set_ne}
use seashell.AccountsDb.{AccountsDb, account_maybe, clear_non_program_accounts, set_account}

module _ (sdk : Sdk) (db : AccountsDb sdk) (k : Pubkey) where
  open sdk use {Shared, is_executable}

  -- Writing the account of a key that is no sysvar does not panic. Afterwards every other key reads
  -- as before; the key itself reads the scenario's account if the scenario has one, and otherwise
  -- the account that was written.
  pub account_maybe-set_account :
      (x : Shared) (j : Pubkey)
      → is_sysvar sdk k ≡ false
      → ((set_account sdk k x db).0 ≡ ok tt)
        × (account_maybe sdk (set_account sdk k x db).1 j ≡ (
            if j == k
            then ok (some (get_or (Scenario.get sdk db.scenario k) x))
            else account_maybe sdk db j))
  unfolding set_account account_maybe
  account_maybe-set_account x j h = ground (arith, lookup-insert j k x db.accounts)

  -- A write to one key, of a sysvar or not and also one that panics, changes no read of another.
  account_maybe-set_account_ne :
      (x : Shared) (j : Pubkey)
      → j ≢ k
      → account_maybe sdk (set_account sdk k x db).1 j ≡ account_maybe sdk db j
  unfolding set_account account_maybe
  account_maybe-set_account_ne x j h =
      ground (arith, lookup-insert j k x db.accounts, get-set_ne sdk db.sysvars k j x h)

  -- If no key stands twice: after the accounts of no program have been cleared, a sysvar and an
  -- account of the scenario read as before, and of the other accounts exactly those that are
  -- executable are still there.
  pub account_maybe-clear :
      HasDistinctKeys db.accounts
      → account_maybe sdk (clear_non_program_accounts sdk db) k ≡ (
          if is_sysvar sdk k
          then account_maybe sdk db k
          else ok (
              or_else (Scenario.get sdk db.scenario k) (kept is_executable (lookup k db.accounts))))
  unfolding clear_non_program_accounts account_maybe
  account_maybe-clear h = ground (arith, lookup-retain is_executable k db.accounts h)

-- A sysvar account other than that of the epoch rewards can be copied from one database to
-- another: writing it does not panic, and it then reads there as it did in the first.
pub copy_sysvar :
    (sdk : Sdk) (laws : HasSysvars sdk) (db other : AccountsDb sdk) (k : Pubkey) (x : sdk.Shared)
    → is_sysvar sdk k ≡ true
    → k ≢ sdk.epoch_rewards_id
    → account_maybe sdk db k ≡ ok (some x)
    → ((set_account sdk k x other).0 ≡ ok tt)
      × (account_maybe sdk (set_account sdk k x other).1 k ≡ ok (some x))
unfolding set_account account_maybe
copy_sysvar sdk laws db other k x sysvar ne read =
    ground (arith, set-get sdk laws db.sysvars other.sysvars k x ne)
