-- ===== src/Seashell/Accounts.antt =====
-- What the short methods of `Seashell` make of the accounts that are read afterwards.
use mathlib.Core.Option.{get_or}
use seashell.Prelude.{
  ℕ, ◌+◌, ◌%◌, ◌^◌, ◌≤◌, ◌<◌, ◌≡◌, Bool, true, false, Option, some, arith, ◌==◌, if◌then◌else◌,
}
use seashell.Outcome.{Result, ok, panic, overflow, add_u64}
use seashell.Instruction.{Pubkey}
use seashell.Sdk.{Sdk}
use seashell.Scenario
use seashell.Sysvars.{is_sysvar}
use seashell.AccountsDb.{account_maybe}
use seashell.AccountsDb.Reads.{account_maybe-set_account}
use seashell.Seashell.{Seashell, airdropped, airdrop}

module _ (sdk : Sdk) (s : Seashell sdk) (k : Pubkey) (n : ℕ) (found : Option sdk.Shared)
    (plain : is_sysvar sdk k ≡ false) (read : account_maybe sdk s.accounts_db k ≡ ok found) where
  open sdk use {Shared, lamports_of, set_lamports}

  -- The balance before the airdrop.
  abbrev balance : ℕ
  balance = lamports_of (airdropped sdk found)

  -- What a key reads once the account with the given balance has been written to `k`.
  abbrev after : ℕ → Pubkey → Result (Option Shared)
  after total j =
      if j == k
      then ok (
          some (
            get_or (Scenario.get sdk s.accounts_db.scenario k)
              (set_lamports (airdropped sdk found) total)))
      else account_maybe sdk s.accounts_db j

  airdrop_writes :
      (checks : Bool) (total : ℕ)
      → add_u64 checks balance n ≡ ok total
      → ((airdrop sdk checks k n s).0 ≡ ok tt)
        × ((j : Pubkey)
            → account_maybe sdk (airdrop sdk checks k n s).1.accounts_db j ≡ after total j)
  unfolding airdrop
  airdrop_writes checks total e =
      let new = set_lamports (airdropped sdk found) total in
      let wrote = λ (j : Pubkey). account_maybe-set_account sdk s.accounts_db k new j plain in
      rw (read, e) ((wrote k).0, λ j. (wrote j).1)

  -- An airdrop to a key that is no sysvar, with a balance that stays below 2 ^ 64, does not panic.
  -- The new balance is written and every other key reads as before; but if the scenario has the
  -- key, the key still reads the scenario's account.
  pub airdrop_adds :
      (checks : Bool)
      → balance + n < 2 ^ 64
      → ((airdrop sdk checks k n s).0 ≡ ok tt)
        × ((j : Pubkey)
            → account_maybe sdk (airdrop sdk checks k n s).1.accounts_db j ≡ after (balance + n) j)
  unfolding add_u64
  airdrop_adds checks h = airdrop_writes checks (balance + n) (ground arith)

  -- An airdrop to a key that is no sysvar, with a balance that would reach 2 ^ 64: a build with
  -- overflow checks panics and changes nothing; any other build returns and writes the balance
  -- modulo 2 ^ 64.
  pub airdrop_overflows :
      2 ^ 64 ≤ balance + n
      → (j : Pubkey)
      → (airdrop sdk true k n s ≡ (panic overflow, s))
        × ((airdrop sdk false k n s).0 ≡ ok tt)
        × (account_maybe sdk (airdrop sdk false k n s).1.accounts_db j
            ≡ after ((balance + n) % 2 ^ 64) j)
  unfolding add_u64 airdrop
  airdrop_overflows h j =
      let wrote = airdrop_writes false ((balance + n) % 2 ^ 64) (ground arith) in
      (rw read (ground arith), wrote.0, wrote.1 j)
