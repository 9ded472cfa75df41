-- ===== src/AccountsDb/Loading.antt =====
-- The accounts that the database loads: from the cache, and from the RPC node into the cache.
use seashell.Prelude.{
  ◌≡◌, refl, ap, ◌∙◌, Bool, true, false, Option, none, some, List, [], ◌∷◌, map, arith, ◌==◌,
  if◌then◌else◌, inl, ==_refl,
}
use seashell.Prelude.Map.{lookup-insert}
use seashell.Outcome.{Result, ok, Exec, lift, >>=-step, expect, account_not_found}
use seashell.Outcome.Yields.{Yields, Yields-pure, Yields-ok, Yields-bind, Yields-any}
use seashell.Instruction.{Pubkey, AccountMeta, Instruction}
use seashell.Sdk.{Sdk, Account}
use seashell.Scenario
use seashell.Scenario.{Scenario, try_fetch_from_rpc, fetch_with, rpc_enabled}
use seashell.Scenario.Fetch.{cache, fetch_outcome}
use seashell.Sysvars.{is_sysvar}
use seashell.Compile.{transaction_keys}
use seashell.AccountsDb.{
  AccountsDb, account_maybe, fetch, fetch_must, account_or, account_must, load_meta, load_metas,
  accounts_for_instruction,
}

-- The keys of the accounts that a transaction is given.
abbrev pub keys {ℓ} : {V : Type ℓ} → List (Pubkey × V) → List Pubkey
keys = map (λ e. e.0)

module _ (sdk : Sdk) where
  open sdk use {Shared, get_account, from_account, default_shared, instructions_id}

  -- The cache after a fetch that succeeded.
  abbrev pub with_fetched : Pubkey → Account → sdk.RpcClient → AccountsDb sdk → AccountsDb sdk
  with_fetched k a c db = record db {
    scenario = cache sdk k (from_account a) (record db.scenario { rpc_client = some c });
  }

  pub account_maybe-with_fetched :
      (k j : Pubkey) (a : Account) (c : sdk.RpcClient) (db : AccountsDb sdk)
      → is_sysvar sdk k ≡ false
      → account_maybe sdk (with_fetched k a c db) j
        ≡ (if j == k then ok (some (from_account a)) else account_maybe sdk db j)
  unfolding account_maybe Scenario.get
  account_maybe-with_fetched k j a c db h =
      ground (arith, lookup-insert j k (from_account a) db.scenario.entries)

  pub not_sysvar_of_missing :
      (db : AccountsDb sdk) (k : Pubkey)
      → account_maybe sdk db k ≡ ok none
      → is_sysvar sdk k ≡ false
  unfolding account_maybe
  not_sysvar_of_missing db k h = ground arith

  pub account_or-found :
      (m : Exec (AccountsDb sdk) Shared) (db : AccountsDb sdk) (k : Pubkey) (x : Shared)
      → account_maybe sdk db k ≡ ok (some x)
      → account_or sdk m k db ≡ (ok x, db)
  unfolding account_or
  account_or-found m db k x h = rw h

  pub account_or-missing :
      (m : Exec (AccountsDb sdk) Shared) (db : AccountsDb sdk) (k : Pubkey)
      → account_maybe sdk db k ≡ ok none
      → account_or sdk m k db ≡ m db
  unfolding account_or
  account_or-missing m db k h = rw h

  module _ (db : AccountsDb sdk) (k : Pubkey) (c : sdk.RpcClient) (a : Account)
      (client : db.scenario.rpc_client ≡ some c) (reply : (get_account c k).0 ≡ inl a) where
    pub fetch-with_fetched :
        fetch sdk k db ≡ (ok (some (from_account a)), with_fetched k a (get_account c k).1 db)
    fetch-with_fetched =
        ap (λ (p : Result (Option Shared) × Scenario sdk). (p.0, record db { scenario = p.1 }))
          (fetch_outcome sdk k c db.scenario client ∙ rw reply refl)

    pub fetch_must-with_fetched :
        fetch_must sdk k db ≡ (ok (from_account a), with_fetched k a (get_account c k).1 db)
    unfolding fetch_must
    fetch_must-with_fetched =
        >>=-step (fetch sdk k) (λ found. lift (expect account_not_found found)) db
          fetch-with_fetched

    -- An account that is in no cache and that the RPC node knows is fetched once: `account_must`
    -- gives the node's account, the scenario is marked for saving, and from then on the key reads
    -- that account from the cache, without another request, while every other key reads as before.
    pub account_must_fetches :
        account_maybe sdk db k ≡ ok none
        → (db' : AccountsDb sdk) × (account_must sdk k db ≡ (ok (from_account a), db'))
          × (db'.scenario.dirty ≡ true)
          × ((j : Pubkey)
              → account_maybe sdk db' j
                ≡ (if j == k then ok (some (from_account a)) else account_maybe sdk db j))
          × (account_must sdk k db' ≡ (ok (from_account a), db'))
    unfolding account_must
    account_must_fetches missing =
        let db' = with_fetched k a (get_account c k).1 db in
        let reads = λ (j : Pubkey).
          account_maybe-with_fetched k j a (get_account c k).1 db
            (not_sysvar_of_missing db k missing) in
        (
          db',
          account_or-missing (fetch_must sdk k) db k missing ∙ fetch_must-with_fetched,
          refl,
          reads,
          account_or-found (fetch_must sdk k) db' k (from_account a) (reads k ∙ rw ==_refl),
        )

  load_metas-keys :
      (allow : Bool) (ixn : Instruction) (metas : List AccountMeta)
      → Yields
          (λ l. keys l ≡ map (λ (m : AccountMeta). m.pubkey) metas)
          (load_metas sdk allow ixn metas)
  unfolding load_metas
  load_metas-keys allow ixn [] = Yields-pure [] refl
  load_metas-keys allow ixn (meta ∷ metas) =
      Yields-bind _ _ (Yields-any (load_meta sdk allow ixn meta)) (λ x _.
        Yields-bind _ _ (load_metas-keys allow ixn metas)
          (λ rest h. Yields-pure ((meta.pubkey, x) ∷ rest) (ap (◌∷◌ meta.pubkey) h)))

  pub keys-Yields :
      (allow : Bool) (ixn : Instruction)
      → Yields (λ l. keys l ≡ transaction_keys ixn) (accounts_for_instruction sdk allow ixn)
  unfolding accounts_for_instruction
  keys-Yields allow ixn = Yields-bind _ _ (Yields-any (account_must sdk ixn.program_id)) (λ x _.
      Yields-bind _ _ (load_metas-keys allow ixn ixn.accounts)
        (λ rest h. Yields-pure ((ixn.program_id, x) ∷ rest) (ap (◌∷◌ ixn.program_id) h)))

  -- Whenever the accounts of an instruction are loaded, their keys are the ones that the compiled
  -- indices refer to: the program's, then those of the mentions, in order.
  keys-accounts_for_instruction :
      (allow : Bool) (ixn : Instruction) (db db' : AccountsDb sdk) (l : List (Pubkey × Shared))
      → accounts_for_instruction sdk allow ixn db ≡ (ok l, db')
      → keys l ≡ transaction_keys ixn
  keys-accounts_for_instruction allow ixn db db' l e =
      Yields-ok (accounts_for_instruction sdk allow ixn) (keys-Yields allow ixn) e
