-- ===== src/AccountsDb/Offline.antt =====
-- Loading the accounts of an instruction without a node, as a function of the store alone.
use seashell.Prelude.{
  ◌≡◌, refl, sym, ap, ◌∙◌, Bool, Bool-cases, inl, inr, true, false, Option, none, some, List, [],
  ◌∷◌, ◌==◌, if◌then◌else◌,
}
use seashell.Outcome.{
  Result, then_ok, ok, panic, rpc_not_configured, account_not_found, account_not_found_for, Exec,
  continue, ◌>>=◌, lift, map_result, expect, >>=-step,
}
use seashell.Instruction.{Pubkey, AccountMeta, Instruction}
use seashell.Sdk.{Sdk}
use seashell.Scenario.{try_fetch_from_rpc, fetch_with, rpc_enabled}
use seashell.Sysvars.{construct_instructions_account}
use seashell.AccountsDb.{
  AccountsDb, account_maybe, fetch, fetch_must, found_else, account_or, account_must, uninitialized,
  load_missing, load_meta, load_metas, accounts_for_instruction,
}
use seashell.AccountsDb.Store.{Store, find}
use seashell.AccountsDb.Refinement.{view, find_refines}

module _ {ℓ κ μ} {S : Type ℓ} {A : Type κ} {B : Type μ} where
  -- Steps that leave the state alone are steps on results.
  continue_still :
      (r : Result A) (s : S) (f : A → Exec S B) (g : A → Result B)
      → ((a : A) → f a s ≡ (g a, s))
      → continue r s f ≡ (then_ok r g, s)
  continue_still (ok a) s f g h = h a
  continue_still (panic p) s f g h = refl

-- A result that is first paired up.
then_ok-ok {ℓ κ μ} :
    {A : Type ℓ} {B : Type κ} {C : Type μ} (r : Result A) (f : A → B) (g : B → Result C)
    → then_ok (then_ok r λ a. ok (f a)) g ≡ then_ok r λ a. g (f a)
then_ok-ok (ok a) f g = refl
then_ok-ok (panic p) f g = refl

module _ (sdk : Sdk) where
  open sdk use {Shared, default_shared, instructions_id}

  -- the account of a key, or what stands for it
  abbrev pub found_or_else : Result Shared → Result (Option Shared) → Result Shared
  found_or_else fallback found = then_ok found λ o. elim o [ none ↦ fallback | some x ↦ ok x ]

  -- the account that a mention is given
  abbrev pub mentioned : Bool → Instruction → Store sdk → Pubkey → Result Shared
  mentioned allow ixn s k =
      if k == instructions_id
      then ok (construct_instructions_account sdk ixn)
      else found_or_else (if allow then ok default_shared else panic (account_not_found_for k))
          (find sdk s k)

  abbrev pub paired : Bool → Instruction → Store sdk → AccountMeta → Result (Pubkey × Shared)
  paired allow ixn s meta = then_ok (mentioned allow ixn s meta.pubkey) λ x. ok (meta.pubkey, x)

  -- The program's account, then those of the mentions, up to the first that there is none for.
  unfoldable pub loaded_from : Bool → Instruction → Store sdk → Result (List (Pubkey × Shared))
  loaded_from allow ixn s =
      then_ok (found_or_else (panic rpc_not_configured) (find sdk s ixn.program_id)) λ program.
        then_ok (map_result (paired allow ixn s) ixn.accounts)
          λ rest. ok ((ixn.program_id, program) ∷ rest)

  module _ (allow : Bool) (ixn : Instruction) (db : AccountsDb sdk)
      (offline : db.scenario.rpc_client ≡ none) where
    account_or_still :
        (m : Exec (AccountsDb sdk) Shared) (fallback : Result Shared) (k : Pubkey)
        → m db ≡ (fallback, db)
        → account_or sdk m k db ≡ (found_or_else fallback (find sdk (view sdk db) k), db)
    unfolding account_or
    account_or_still m fallback k h =
        continue_still (account_maybe sdk db k) db (found_else sdk m)
          (λ o. elim o [ none ↦ fallback | some x ↦ ok x ]) (still m fallback h)
        ∙ ap (λ (found : Result (Option Shared)). (found_or_else fallback found, db))
            (find_refines sdk db k)
      where
        still :
            (m : Exec (AccountsDb sdk) Shared) (fallback : Result Shared)
            → m db ≡ (fallback, db)
            → (o : Option Shared)
            → found_else sdk m o db ≡ (elim o [ none ↦ fallback | some x ↦ ok x ], db)
        still m fallback h none = h
        still m fallback h (some x) = refl

    fetch_must_still : (k : Pubkey) → fetch_must sdk k db ≡ (panic rpc_not_configured, db)
    unfolding fetch_must try_fetch_from_rpc fetch_with
    fetch_must_still k =
        >>=-step (fetch sdk k) (λ found. lift (expect account_not_found found)) db
          {r = panic rpc_not_configured} {s' = db}
          (λ i.
            let (r, scenario') = fetch_with sdk (offline i) k db.scenario in
            (r, record db { scenario = scenario' }))

    pub load_missing_still :
        (k : Pubkey)
        → load_missing sdk allow k db
          ≡ (if allow then ok default_shared else panic (account_not_found_for k), db)
    unfolding load_missing rpc_enabled
    load_missing_still k =
        ap
          (λ (c : Option sdk.RpcClient).
            (if (elim c [ none ↦ false | some _ ↦ true ])
                then fetch sdk k >>= found_else sdk (uninitialized sdk allow k)
                else uninitialized sdk allow k)
              db)
          offline

    load_meta_still :
        (meta : AccountMeta)
        → load_meta sdk allow ixn meta db ≡ (mentioned allow ixn (view sdk db) meta.pubkey, db)
    unfolding load_meta
    load_meta_still meta = elim (Bool-cases (meta.pubkey == instructions_id)) [
      | inl special ↦ rw special refl
      | inr other ↦ rw other (
          account_or_still (load_missing sdk allow meta.pubkey) _ meta.pubkey
            (load_missing_still meta.pubkey))
    ]

    load_metas_still :
        (metas : List AccountMeta)
        → load_metas sdk allow ixn metas db
          ≡ (map_result (paired allow ixn (view sdk db)) metas, db)
    unfolding load_metas
    load_metas_still [] = refl
    load_metas_still (meta ∷ metas) =
        let given = mentioned allow ixn (view sdk db) meta.pubkey in
        let others = map_result (paired allow ixn (view sdk db)) metas in
        >>=-step (load_meta sdk allow ixn meta) _ db (load_meta_still meta)
        ∙ continue_still given db _ (λ x. then_ok others λ rest. ok ((meta.pubkey, x) ∷ rest))
            (λ x.
              >>=-step (load_metas sdk allow ixn metas) _ db (load_metas_still metas)
              ∙ continue_still others db _ (λ rest. ok ((meta.pubkey, x) ∷ rest)) (λ rest. refl))
        ∙ ap (λ (r : Result (List (Pubkey × Shared))). (r, db))
            (sym (
              then_ok-ok given (λ (x : Shared). (meta.pubkey, x))
                (λ y. then_ok others λ rest. ok (y ∷ rest))))

    -- Without a node, loading the accounts of an instruction is a function of the store that the
    -- database is seen as, mention by mention, with its panics; and the database stays as it is.
    pub accounts_for_instruction_offline :
        accounts_for_instruction sdk allow ixn db ≡ (loaded_from allow ixn (view sdk db), db)
    unfolding accounts_for_instruction account_must loaded_from
    accounts_for_instruction_offline =
        let program =
          found_or_else (panic rpc_not_configured) (find sdk (view sdk db) ixn.program_id) in
        let others = map_result (paired allow ixn (view sdk db)) ixn.accounts in
        >>=-step (account_must sdk ixn.program_id) _ db (
          account_or_still (fetch_must sdk ixn.program_id) (panic rpc_not_configured) ixn.program_id
            (fetch_must_still ixn.program_id))
        ∙ continue_still program db _ (λ x. then_ok others λ rest. ok ((ixn.program_id, x) ∷ rest))
            (λ x.
              >>=-step (load_metas sdk allow ixn ixn.accounts) _ db (load_metas_still ixn.accounts)
              ∙ continue_still others db _ (λ rest. ok ((ixn.program_id, x) ∷ rest)) (λ rest. refl))
