-- ===== src/AccountsDb/Replay.antt =====
-- Loading again what has been loaded: the accounts come from the cache, and no request is made.
use mathlib.Core.Path.{subst}
use seashell.Prelude.{
  ◌≡◌, refl, sym, ap, ◌∙◌, Bool, false, ◌&&◌, Option, none, some, List, [], ◌∷◌, arith, ◌==◌, ◌⊎◌,
  inl, inr, Bool-cases, Option-cases, ==_refl,
}
use seashell.Outcome.{
  Panic, Result, ok, panic, Exec, continue, ◌>>=◌, >>=-step, pure, rpc_not_configured, Result-cases,
}
use seashell.Outcome.Triple.{Ends, Ends-map}
use seashell.Instruction.{Pubkey, AccountMeta, Instruction}
use seashell.Sdk.{Sdk, Account}
use seashell.Scenario.{Scenario, is_not_found, rpc_enabled, try_fetch_from_rpc, fetch_with}
use seashell.Scenario.Fetch.{after_reply, fetch_outcome}
use seashell.Sysvars.{construct_instructions_account}
use seashell.AccountsDb.{
  AccountsDb, account_maybe, fetch, fetch_must, account_or, account_must, load_missing, load_meta,
  load_metas, accounts_for_instruction,
}
use seashell.AccountsDb.Loading.{
  with_fetched, account_maybe-with_fetched, not_sysvar_of_missing, account_or-found,
  account_or-missing,
}

module _ (sdk : Sdk) where
  open sdk use {Shared, RpcError, get_account, from_account, instructions_id}

  -- The node's "not found" is not answered with a default account.
  abbrev pub IsStrict : AccountsDb sdk → Type 0
  IsStrict db = db.scenario.allow_uninitialized_accounts ≡ false

  -- Every account that could be read is read as before.
  abbrev pub Extends : AccountsDb sdk → AccountsDb sdk → Type 0
  Extends db db' =
      (j : Pubkey) (x : Shared)
      → account_maybe sdk db j ≡ ok (some x)
      → account_maybe sdk db' j ≡ ok (some x)

  Extends-trans : (a b c : AccountsDb sdk) → Extends a b → Extends b c → Extends a c
  Extends-trans a b c h k j x e = k j x (h j x e)

  -- A method that caches what it gives: it has extended the database, and the key reads the account.
  abbrev Cached : AccountsDb sdk → Pubkey → Shared → AccountsDb sdk → Type 0
  Cached db k x db' = IsStrict db' × Extends db db' × (account_maybe sdk db' k ≡ ok (some x))

  module _ (k : Pubkey) (db : AccountsDb sdk) (missing : account_maybe sdk db k ≡ ok none)
      (strict : IsStrict db) where
    with_fetched-Cached :
        (a : Account) (c : sdk.RpcClient) → Cached db k (from_account a) (with_fetched sdk k a c db)
    with_fetched-Cached a c =
        let reads = λ (j : Pubkey).
          account_maybe-with_fetched sdk k j a c db (not_sysvar_of_missing sdk db k missing) in
        (strict, λ j x e. ground (arith, reads j, missing), reads k ∙ rw ==_refl)

    module _ (next : Option Shared → Exec (AccountsDb sdk) Shared)
        (fails : (db' : AccountsDb sdk) → Ends (Cached db k) (next none db'))
        (returns : (x : Shared) (db' : AccountsDb sdk) → next (some x) db' ≡ (ok x, db')) where
      abbrev go_on : Result (Option Shared) × Scenario sdk → Result Shared × AccountsDb sdk
      go_on (r, scenario') = continue r (record db { scenario = scenario' }) next

      reply-Cached :
          (c : sdk.RpcClient) (reply : Account ⊎ RpcError)
          → Ends
              (Cached db k)
              (go_on (after_reply sdk k reply (record db.scenario { rpc_client = some c })))
      reply-Cached c (inl a) =
          rw (returns (from_account a) (with_fetched sdk k a c db)) (with_fetched-Cached a c)
      reply-Cached c (inr e) =
          let refused : (is_not_found sdk e && db.scenario.allow_uninitialized_accounts) ≡ false =
            ground (arith, strict) in
          rw refused (fails (record db { scenario = record db.scenario { rpc_client = some c } }))

      offline :
          db.scenario.rpc_client ≡ none
          → (try_fetch_from_rpc sdk k db.scenario) ≡ (panic rpc_not_configured, db.scenario)
      unfolding try_fetch_from_rpc fetch_with
      offline h = ap (λ o. fetch_with sdk o k db.scenario) h

      -- What a fetch leads to, when `next` goes on with it.
      fetched-Cached : Ends (Cached db k) ((fetch sdk k >>= next) db)
      fetched-Cached = elim (Option-cases db.scenario.rpc_client) [
        | inl none_set ↦ subst (λ p. Ends (Cached db k) (go_on p)) (sym (offline none_set)) tt
        | inr (c, client) ↦
            subst (λ p. Ends (Cached db k) (go_on p))
              (sym (fetch_outcome sdk k c db.scenario client))
              (reply-Cached (get_account c k).1 (get_account c k).0)
      ]

    fetch_must-Cached : Ends (Cached db k) (fetch_must sdk k db)
    unfolding fetch_must
    fetch_must-Cached = fetched-Cached _ (λ db'. tt) (λ x db'. refl)

    load_missing-Cached : Ends (Cached db k) (load_missing sdk false k db)
    unfolding load_missing
    load_missing-Cached = elim (Bool-cases (rpc_enabled sdk db.scenario)) [
      | inl online ↦ rw online (fetched-Cached _ (λ db'. tt) (λ x db'. refl))
      | inr no_node ↦ rw no_node tt
    ]

  -- The value has been returned, and a second method returns it in every later database, which it
  -- does not change.
  abbrev Again :
      {A : Type 0} → AccountsDb sdk → Exec (AccountsDb sdk) A → A → AccountsDb sdk → Type 0
  Again db m' a db' =
      IsStrict db'
      × Extends db db'
      × ((later : AccountsDb sdk) → Extends db' later → m' later ≡ (ok a, later))

  pub record Replays {A : Type 0} (m m' : Exec (AccountsDb sdk) A) : Type 0 where
    pub by : (db : AccountsDb sdk) → IsStrict db → Ends (Again db m') (m db)

  Replays-pure : {A : Type 0} (a : A) → Replays (pure a) (pure a)
  Replays-pure a = record { by = λ db strict. (strict, λ j x e. e, λ later ext. refl) }

  continue-Again :
      {A B : Type 0} (m' : Exec (AccountsDb sdk) A) (f f' : A → Exec (AccountsDb sdk) B)
      (db : AccountsDb sdk) (r : Result A) (mid : AccountsDb sdk)
      → Ends (Again db m') (r, mid)
      → ((a : A) → Replays (f a) (f' a))
      → Ends (Again db (m' >>= f')) (continue r mid f)
  continue-Again m' f f' db (panic p) mid h k = tt
  continue-Again m' f f' db (ok a) mid (strict, ext, again) k =
      Ends-map
        (λ b db' (strict', ext', again'). (
          strict',
          Extends-trans db mid db' ext ext',
          λ later ext''.
              >>=-step m' f' later (again later (Extends-trans mid db' later ext' ext''))
              ∙ again' later ext'',
        ))
        (f a mid) ((k a).by mid strict)

  Replays-bind :
      {A B : Type 0} (m m' : Exec (AccountsDb sdk) A) (f f' : A → Exec (AccountsDb sdk) B)
      → Replays m m'
      → ((a : A) → Replays (f a) (f' a))
      → Replays (m >>= f) (m' >>= f')
  Replays-bind m m' f f' h k = record {
    by = λ db strict. let (r, mid) = m db in continue-Again m' f f' db r mid (h.by db strict) k;
  }

  account_or-panics :
      (m : Exec (AccountsDb sdk) Shared) (db : AccountsDb sdk) (k : Pubkey) (p : Panic)
      → account_maybe sdk db k ≡ panic p
      → account_or sdk m k db ≡ (panic p, db)
  unfolding account_or
  account_or-panics m db k p h = rw h

  -- An account that was found is found again, and one that was cached is found then.
  account_or-Replays :
      (k : Pubkey) (m m' : Exec (AccountsDb sdk) Shared)
      → ((db : AccountsDb sdk)
          → account_maybe sdk db k ≡ ok none
          → IsStrict db
          → Ends (Cached db k) (m db))
      → Replays (account_or sdk m k) (account_or sdk m' k)
  account_or-Replays k m m' cached = record {
    by = λ db strict.
        let Q = Again db (account_or sdk m' k) in
        elim (Result-cases (account_maybe sdk db k)) [
          | inr (p, failed) ↦ subst (Ends Q) (sym (account_or-panics m db k p failed)) tt
          | inl (o, read) ↦ elim (Option-cases o) [
            | inl absent ↦
                let missing = read ∙ ap ok absent in
                subst (Ends Q) (sym (account_or-missing sdk m db k missing)) (
                  Ends-map
                    (λ x db' (strict', ext, here). (
                      strict',
                      ext,
                      λ later ext'. account_or-found sdk m' later k x (ext' k x here),
                    ))
                    (m db) (cached db missing strict))
            | inr (x, present) ↦
                let here = read ∙ ap ok present in
                subst (Ends Q) (sym (account_or-found sdk m db k x here)) (
                  strict,
                  λ j y e. e,
                  λ later ext. account_or-found sdk m' later k x (ext k x here),
                )
          ]
        ];
  }

  account_must-Replays : (k : Pubkey) → Replays (account_must sdk k) (account_must sdk k)
  unfolding account_must
  account_must-Replays k =
      account_or-Replays k (fetch_must sdk k) (fetch_must sdk k) (fetch_must-Cached k)

  module _ (allow : Bool) (ixn : Instruction) where
    load_meta-Replays :
        (meta : AccountMeta) → Replays (load_meta sdk false ixn meta) (load_meta sdk allow ixn meta)
    unfolding load_meta
    load_meta-Replays meta = elim (Bool-cases (meta.pubkey == instructions_id)) [
      | inl special ↦ rw special (Replays-pure (construct_instructions_account sdk ixn))
      | inr other ↦ rw other (
          account_or-Replays meta.pubkey (load_missing sdk false meta.pubkey)
            (load_missing sdk allow meta.pubkey) (load_missing-Cached meta.pubkey))
    ]

    load_metas-Replays :
        (metas : List AccountMeta)
        → Replays (load_metas sdk false ixn metas) (load_metas sdk allow ixn metas)
    unfolding load_metas
    load_metas-Replays [] = Replays-pure []
    load_metas-Replays (meta ∷ metas) =
        Replays-bind _ _ _ _ (load_meta-Replays meta)
          (λ x. Replays-bind _ _ _ _ (load_metas-Replays metas) (λ rest. Replays-pure _))

    accounts_for_instruction-Replays :
        Replays (accounts_for_instruction sdk false ixn) (accounts_for_instruction sdk allow ixn)
    unfolding accounts_for_instruction
    accounts_for_instruction-Replays =
        Replays-bind _ _ _ _ (account_must-Replays ixn.program_id)
          (λ x. Replays-bind _ _ _ _ (load_metas-Replays ixn.accounts) (λ rest. Replays-pure _))

    -- Where uninitialized accounts are allowed neither locally nor for what is fetched: if loading
    -- the accounts of an instruction has returned, then in every database that reads at least those
    -- accounts it returns the same list, makes no request and changes nothing, whatever its node
    -- would reply and whether it allows uninitialized accounts or not.
    pub accounts_for_instruction_replays :
        (db db' later : AccountsDb sdk) (l : List (Pubkey × Shared))
        → IsStrict db
        → accounts_for_instruction sdk false ixn db ≡ (ok l, db')
        → Extends db' later
        → accounts_for_instruction sdk allow ixn later ≡ (ok l, later)
    accounts_for_instruction_replays db db' later l strict e ext =
        (subst (Ends (Again db (accounts_for_instruction sdk allow ixn))) e
            (accounts_for_instruction-Replays.by db strict)).2
          later ext
