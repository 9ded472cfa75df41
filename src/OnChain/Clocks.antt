-- ===== src/OnChain/Clocks.antt =====
-- The program programs/sysvar/src/lib.rs, run with the clock of a seashell.
use mathlib.Core.Path.{subst}
use seashell.Prelude.{
  ℕ, zero, suc, ◌≡◌, refl, sym, ap, ◌∙◌, none, some, List, [], ◌∷◌, ◌++◌, inl, inr, arith,
  get_elem?, Bool-cases, ◌==◌, ==_iff, ==_refl,
}
use seashell.Prelude.Int.{as_i64}
use seashell.Prelude.Map.{Map, lookup}
use seashell.Outcome.{Result, ok, then_ok, map_result}
use seashell.Instruction.{Pubkey, Bytes}
use seashell.Sdk.{Sdk, Account, Clock}
use seashell.Sysvars
use seashell.Sysvars.{as_account, is_sysvar, get_sysvar, set_sysvar}
use seashell.Sysvars.Reads.{HasSysvars, as_account_total, decode-as_account}
use seashell.AccountsDb
use seashell.AccountsDb.{AccountsDb, account_maybe, sysvar_data, sysvars_for_instruction}
use seashell.Seashell.{Seashell, set_account, warp}
use seashell.Seashell.Processing.Totality.{sysvar_data_total}
use seashell.OnChain.{Pinocchio, sysvar}
use seashell.OnChain.Logs.{HasLogs, clock_lines, sysvar-logs}

-- What is documented of the clock in the virtual machine: its cache asks for the account of the
-- clock, and the program reads what is encoded there.
pub record HasClock (sdk : Sdk) (p : Pinocchio) : Type 0 where
  pub start : sdk.SysvarCache → p.Vm
  pub asked : (i : ℕ) × (get_elem? sdk.cached_ids i ≡ some sdk.clock_id)
  pub decoded :
      (entries : Map Bytes) (b : Bytes) (clock : Clock)
      → lookup sdk.clock_id entries ≡ some b
      → sdk.clock_codec.deserialize b ≡ some clock
      → p.clock_get (start (sdk.cache_of entries)) ≡ inl clock

module _ (f : Pubkey → Result Bytes) (total : (k : Pubkey) → (b : Bytes) × (f k ≡ ok b)) where
  found_first :
      (j : Pubkey) (ids : List Pubkey) (entries : Map Bytes)
      → ((i : ℕ) (k : Pubkey) → get_elem? ids i ≡ some k → lookup k entries ≡ some (total k).0)
      → (i : ℕ) (k : Pubkey) → get_elem? (j ∷ ids) i ≡ some k
      → lookup k ((j, (total j).0) ∷ entries) ≡ some (total k).0
  found_first j ids entries found zero k h = ground arith
  found_first j ids entries found (suc i) k h = elim (Bool-cases (k == j)) [
    | inl same ↦ rw same (ap (λ n. some (total n).0) (sym ((==_iff k j).0 same)))
    | inr other ↦ rw other (found i k h)
  ]

  -- One entry for each key, with the data of the key.
  entries_of_total :
      (ids : List Pubkey)
      → (entries : Map Bytes) × (map_result (λ k. then_ok (f k) λ b. ok (k, b)) ids ≡ ok entries)
        × ((i : ℕ) (k : Pubkey) → get_elem? ids i ≡ some k → lookup k entries ≡ some (total k).0)
  entries_of_total [] = ([], refl, λ i k found. cc)
  entries_of_total (j ∷ ids) =
      let (entries, collected, found) = entries_of_total ids in
      (
        (j, (total j).0) ∷ entries,
        rw ((total j).1, collected) refl,
        found_first j ids entries found,
      )

module _ (sdk : Sdk) (p : Pinocchio) (sysvars : HasSysvars sdk) (laws : HasLogs p)
    (clocks : HasClock sdk p) where
  open sdk use {Shared, clock_id, clock_codec, data_of, from_account}

  -- The program sysvar, in the virtual machine with the cache that the database fills for the
  -- accounts: it returns, and has logged the clock.
  abbrev pub Shows : AccountsDb sdk → List (Pubkey × Shared) → Clock → Type 0
  Shows db l clock =
      (cache : sdk.SysvarCache) × (sysvars_for_instruction sdk db l ≡ ok cache)
      × ((program_id : Pubkey) (accounts : List p.AccountInfo) (bytes : Bytes)
          → let (r, vm) = sysvar p program_id accounts bytes (clocks.start cache) in
            (r ≡ ok none)
            × (laws.logged vm ≡ laws.logged (clocks.start cache) ++ clock_lines clock))

  module _ (db : AccountsDb sdk) (l : List (Pubkey × Shared)) where
    abbrev total : (k : Pubkey) → (b : Bytes) × (sysvar_data sdk db l k ≡ ok b)
    total = sysvar_data_total sdk sysvars db l

    clock_data :
        (x : Shared)
        → lookup clock_id l ≡ none
        → get_sysvar sdk db.sysvars clock_id ≡ ok x
        → (total clock_id).0 ≡ data_of x
    unfolding sysvar_data account_maybe is_sysvar
    clock_data x missing read = ground (arith, (total clock_id).1, read, missing, ==_refl clock_id)

    clock_made :
        (x : Shared)
        → as_account sdk clock_codec db.sysvars.clock ≡ ok x
        → get_sysvar sdk db.sysvars clock_id ≡ ok x
    unfolding get_sysvar
    clock_made x made = rw (==_refl clock_id) made

    sysvar-Shows : lookup clock_id l ≡ none → Shows db l db.sysvars.clock
    unfolding sysvars_for_instruction
    sysvar-Shows missing =
        let (entries, collected, found) =
          entries_of_total (sysvar_data sdk db l) total sdk.cached_ids in
        let (x, made) = as_account_total sdk sysvars clock_codec sysvars.clock db.sysvars.clock in
        let (i, asked) = clocks.asked in
        let b = (total clock_id).0 in
        (
          sdk.cache_of entries,
          rw collected refl,
          λ program_id accounts bytes.
              sysvar-logs p laws program_id accounts bytes db.sysvars.clock _ (
                clocks.decoded entries b db.sysvars.clock (found i clock_id asked) (
                  ap clock_codec.deserialize (clock_data x missing (clock_made x made))
                  ∙ decode-as_account sdk sysvars clock_codec sysvars.clock db.sysvars.clock x
                      made)),
        )

  set_clock :
      (s : Seashell sdk) (a : Account) (clock : Clock)
      → clock_codec.deserialize (data_of (from_account a)) ≡ some clock
      → set_account sdk clock_id a s ≡ (
        ok tt,
        record s {
          accounts_db = record s.accounts_db {
            sysvars = record s.accounts_db.sysvars { clock = clock };
          };
        },
      )
  unfolding set_account AccountsDb.set_account set_sysvar is_sysvar
  set_clock s a clock encoded = rw (==_refl clock_id, Sysvars.read_into, encoded) refl

  -- Set the account of the clock to data that encode a clock, and then warp: setting it returns, and
  -- the program sysvar logs the fields of that clock before the warp, and afterwards the same
  -- fields but for the slot and the timestamp, which are those of the warp, the latter as a signed
  -- number; if the instruction brings no account of the clock itself.
  pub clock_reaches_program :
      (s : Seashell sdk) (a : Account) (clock : Clock) (slot timestamp : ℕ)
      (l : List (Pubkey × Shared))
      → clock_codec.deserialize (data_of (from_account a)) ≡ some clock
      → lookup clock_id l ≡ none
      → let (r, s') = set_account sdk clock_id a s in
        (r ≡ ok tt)
        × Shows s'.accounts_db l clock
        × Shows
            (warp sdk slot timestamp s').accounts_db
            l
            (record clock { slot = slot; unix_timestamp = as_i64 timestamp })
  unfolding warp AccountsDb.warp Sysvars.warp
  clock_reaches_program s a clock slot timestamp l encoded missing =
      let s' = (set_account sdk clock_id a s).1 in
      let e = set_clock s a clock encoded in
      (
        ap (λ (r : Result (Unit {0}) × Seashell sdk). r.0) e,
        subst (λ (c : Clock). Shows s'.accounts_db l c)
            (ap (λ (r : Result (Unit {0}) × Seashell sdk). r.1.accounts_db.sysvars.clock) e)
            (sysvar-Shows s'.accounts_db l missing),
        subst
            (λ (c : Clock).
              Shows (warp sdk slot timestamp s').accounts_db l
                (record c { slot = slot; unix_timestamp = as_i64 timestamp }))
            (ap (λ (r : Result (Unit {0}) × Seashell sdk). r.1.accounts_db.sysvars.clock) e)
            (sysvar-Shows (warp sdk slot timestamp s').accounts_db l missing),
      )
