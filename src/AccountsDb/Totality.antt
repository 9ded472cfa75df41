-- ===== src/AccountsDb/Totality.antt =====
-- When loading the accounts of an instruction returns, and what it leaves alone.
use seashell.Prelude.{
  ◌≡◌, refl, ap, true, false, Option, none, some, List, [], ◌∷◌, ◌==◌, inl, inr, Bool-cases,
}
use seashell.Outcome.{Result, ok, Exec, Returns, Returns-bind}
use seashell.Instruction.{Pubkey, AccountMeta, Instruction}
use seashell.Sdk.{Sdk}
use seashell.Scenario
use seashell.Scenario.{Scenario, try_fetch_from_rpc, fetch_with, rpc_enabled}
use seashell.Sysvars.{is_sysvar}
use seashell.Sysvars.Reads.{HasSysvars, get_total}
use seashell.AccountsDb.{
  AccountsDb, or_account, account_maybe, fetch, found_else, account_or, account_must, uninitialized,
  load_missing, load_meta, load_metas, accounts_for_instruction,
}

module _ (sdk : Sdk) where
  open sdk use {Shared, get_account, from_account, default_shared, instructions_id}

  fetch_with-Returns :
      (o : Option sdk.RpcClient) (k : Pubkey) (s : Scenario sdk)
      → (elim o [ none ↦ false | some _ ↦ true ]) ≡ true
      → Returns (fetch_with sdk o k) s
  unfolding fetch_with
  fetch_with-Returns none k s h = absurd (cc)
  fetch_with-Returns (some c) k s h = (_, _, refl)

  fetch-Returns :
      (k : Pubkey) (db : AccountsDb sdk)
      → rpc_enabled sdk db.scenario ≡ true
      → Returns (fetch sdk k) db
  unfolding rpc_enabled try_fetch_from_rpc
  fetch-Returns k db h =
      let (o, s', e) = fetch_with-Returns db.scenario.rpc_client k db.scenario h in
      (
        o,
        record db { scenario = s' },
        ap (λ (p : Result (Option Shared) × Scenario sdk). (p.0, record db { scenario = p.1 })) e,
      )

  found_else-Returns :
      (m : Exec (AccountsDb sdk) Shared)
      → ((db : AccountsDb sdk) → Returns m db)
      → (o : Option Shared) (db : AccountsDb sdk) → Returns (found_else sdk m o) db
  found_else-Returns m r none db = r db
  found_else-Returns m r (some x) db = (x, db, refl)

  load_missing-Returns : (k : Pubkey) (db : AccountsDb sdk) → Returns (load_missing sdk true k) db
  unfolding load_missing
  load_missing-Returns k db = elim (Bool-cases (rpc_enabled sdk db.scenario)) [
    | inl online ↦ rw online (
        Returns-bind (fetch sdk k) (found_else sdk (uninitialized sdk true k)) db
          (fetch-Returns k db online)
          (found_else-Returns (uninitialized sdk true k) (λ db'. (_, _, refl))))
    | inr offline ↦ rw offline (_, _, refl)
  ]

  module _ (laws : HasSysvars sdk) where
    -- Reading the local cache never panics.
    pub account_maybe_total :
        (db : AccountsDb sdk) (k : Pubkey) → (o : Option Shared) × (account_maybe sdk db k ≡ ok o)
    unfolding account_maybe
    account_maybe_total db k = elim (Bool-cases (is_sysvar sdk k)) [
      | inl sysvar ↦
          let (x, got) = get_total sdk laws db.sysvars k sysvar in (some x, rw (sysvar, got))
      | inr other ↦ (or_account sdk (Scenario.get sdk db.scenario k) k db, rw other)
    ]

    account_or-Returns :
        (m : Exec (AccountsDb sdk) Shared) (k : Pubkey)
        → ((db : AccountsDb sdk) → Returns m db)
        → (db : AccountsDb sdk) → Returns (account_or sdk m k) db
    unfolding account_or
    account_or-Returns m k r db =
        let (o, read) = account_maybe_total db k in rw read (found_else-Returns m r o db)

    load_meta-Returns :
        (ixn : Instruction) (meta : AccountMeta) (db : AccountsDb sdk)
        → Returns (load_meta sdk true ixn meta) db
    unfolding load_meta
    load_meta-Returns ixn meta db = elim (Bool-cases (meta.pubkey == instructions_id)) [
      | inl special ↦ rw special (_, _, refl)
      | inr other ↦ rw other (
          account_or-Returns (load_missing sdk true meta.pubkey) meta.pubkey
            (load_missing-Returns meta.pubkey) db)
    ]

    load_metas-Returns :
        (ixn : Instruction) (metas : List AccountMeta) (db : AccountsDb sdk)
        → Returns (load_metas sdk true ixn metas) db
    unfolding load_metas
    load_metas-Returns ixn [] db = ([], db, refl)
    load_metas-Returns ixn (meta ∷ metas) db =
        Returns-bind (load_meta sdk true ixn meta) _ db (load_meta-Returns ixn meta db) (λ x db'.
          Returns-bind (load_metas sdk true ixn metas) _ db' (load_metas-Returns ixn metas db')
            (λ rest db''. (_, _, refl)))

    -- If uninitialized accounts are allowed and the account of the program is in the local cache,
    -- loading the accounts of an instruction returns, whatever the RPC node replies.
    pub accounts_for_instruction_total :
        (ixn : Instruction) (db : AccountsDb sdk) (program : Shared)
        → account_maybe sdk db ixn.program_id ≡ ok (some program)
        → Returns (accounts_for_instruction sdk true ixn) db
    unfolding accounts_for_instruction account_must account_or
    accounts_for_instruction_total ixn db program found =
        Returns-bind (account_must sdk ixn.program_id) _ db (program, db, rw found)
          (λ x db'.
            Returns-bind (load_metas sdk true ixn ixn.accounts) _ db'
              (load_metas-Returns ixn ixn.accounts db') (λ rest db''. (_, _, refl)))
