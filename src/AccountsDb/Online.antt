-- ===== src/AccountsDb/Online.antt =====
-- Loading the accounts of an instruction while an RPC node answers.
use mathlib.Core.Path.{subst}
use seashell.Prelude.{
  ◌≡◌, ◌≢◌, refl, sym, ap, ◌∙◌, Bool, true, false, none, some, List, [], ◌∷◌, All, inl, inr, ◌==◌,
  if◌then◌else◌, arith, Bool-cases, Option-cases,
}
use seashell.Outcome.{Result, ok, Exec, ◌>>=◌, >>=-step, pure}
use seashell.Instruction.{Pubkey, AccountMeta, Instruction}
use seashell.Sdk.{Sdk, Account}
use seashell.Scenario.{rpc_enabled}
use seashell.Sysvars.Reads.{HasSysvars}
use seashell.AccountsDb.{
  AccountsDb, account_maybe, account_or, account_must, fetch, fetch_must, found_else, load_missing,
  uninitialized, load_meta, load_metas, accounts_for_instruction,
}
use seashell.AccountsDb.Loading.{
  with_fetched, account_maybe-with_fetched, not_sysvar_of_missing, account_or-found,
  account_or-missing, fetch-with_fetched, fetch_must-with_fetched,
}
use seashell.AccountsDb.Totality.{account_maybe_total}

-- `Live` is kept by the client as long as its node answers; `held` tells the keys that are in a cache.
module _ (sdk : Sdk) (laws : HasSysvars sdk) (Live : sdk.RpcClient → Type 0)
    (held : Pubkey → Bool) where
  open sdk use {Shared, RpcClient, get_account, from_account, instructions_id}

  pub record IsReady (db : AccountsDb sdk) : Type 0 where
    pub client : RpcClient
    pub connected : db.scenario.rpc_client ≡ some client
    pub live : Live client
    pub holds : (k : Pubkey) → held k ≡ true → (x : Shared) × (account_maybe sdk db k ≡ ok (some x))

  -- A key that is in no cache has an account at the node, which answers and then still does.
  abbrev pub Known : Pubkey → Type 0
  Known k =
      held k ≡ false
      → (c : RpcClient) → Live c
      → (a : Account) × ((get_account c k).0 ≡ inl a) × Live (get_account c k).1

  abbrev Done : {A : Type 0} → Result A × AccountsDb sdk → Type 0
  Done {A} p = (a : A) × (db' : AccountsDb sdk) × (p ≡ (ok a, db')) × IsReady db'

  record Serves {A : Type 0} (m : Exec (AccountsDb sdk) A) : Type 0 where
    by : (db : AccountsDb sdk) → IsReady db → Done (m db)

  Serves-pure : {A : Type 0} (a : A) → Serves (pure a)
  Serves-pure a = record { by = λ db h. (a, db, refl, h) }

  Serves-bind :
      {A B : Type 0} (m : Exec (AccountsDb sdk) A) (f : A → Exec (AccountsDb sdk) B)
      → Serves m
      → ((a : A) → Serves (f a))
      → Serves (m >>= f)
  Serves-bind m f sm sf = record {
    by = λ db h.
        let (a, db', e, h') = sm.by db h in
        let (b, db'', e', h'') = (sf a).by db' h' in (b, db'', >>=-step m f db e ∙ e', h'');
  }

  module _ (db : AccountsDb sdk) (h : IsReady db) (k : Pubkey)
      (missing : account_maybe sdk db k ≡ ok none) where
    not_held : held k ≡ false
    not_held = elim (Bool-cases (held k)) [
      | inr other ↦ other
      | inl there ↦ let (x, read) = h.holds k there in absurd (cc)
    ]

    fetched-IsReady : (a : Account) (c : RpcClient) → Live c → IsReady (with_fetched sdk k a c db)
    fetched-IsReady a c live = record {
      client = c;
      connected = refl;
      live = live;
      holds = λ j there.
          let (x, read) = h.holds j there in
          (
            if j == k then from_account a else x,
            ground (
              arith,
              account_maybe-with_fetched sdk k j a c db (not_sysvar_of_missing sdk db k missing),
              read,
            ),
          );
    }

    fetch_must-Done : Known k → Done (fetch_must sdk k db)
    fetch_must-Done known =
        let (a, reply, live) = known not_held h.client h.live in
        (
          from_account a,
          _,
          fetch_must-with_fetched sdk db k h.client a h.connected reply,
          fetched-IsReady a (get_account h.client k).1 live,
        )

    online : rpc_enabled sdk db.scenario ≡ true
    unfolding rpc_enabled
    online = rw h.connected refl

    load_missing-online :
        load_missing sdk false k db
        ≡ (fetch sdk k >>= found_else sdk (uninitialized sdk false k)) db
    unfolding load_missing
    load_missing-online = rw online refl

    load_missing-Done : Known k → Done (load_missing sdk false k db)
    load_missing-Done known =
        let (a, reply, live) = known not_held h.client h.live in
        (
          from_account a,
          _,
          load_missing-online
              ∙ (>>=-step (fetch sdk k) (found_else sdk (uninitialized sdk false k)) db
                  (fetch-with_fetched sdk db k h.client a h.connected reply)),
          fetched-IsReady a (get_account h.client k).1 live,
        )

  account_or-Serves :
      (k : Pubkey) (m : Exec (AccountsDb sdk) Shared)
      → ((db : AccountsDb sdk) → IsReady db → account_maybe sdk db k ≡ ok none → Done (m db))
      → Serves (account_or sdk m k)
  account_or-Serves k m done = record {
    by = λ db h.
        let (o, read) = account_maybe_total sdk laws db k in
        elim (Option-cases o) [
          | inl absent ↦
              let missing = read ∙ ap ok absent in
              subst Done (sym (account_or-missing sdk m db k missing)) (done db h missing)
          | inr (x, present) ↦ (x, db, account_or-found sdk m db k x (read ∙ ap ok present), h)
        ];
  }

  module _ (ixn : Instruction) where
    -- The node need not know the instructions sysvar, which is made on the spot.
    abbrev pub KnownMeta : AccountMeta → Type 0
    KnownMeta meta = meta.pubkey ≢ instructions_id → Known meta.pubkey

    load_meta-Serves : (meta : AccountMeta) → KnownMeta meta → Serves (load_meta sdk false ixn meta)
    unfolding load_meta
    load_meta-Serves meta known = elim (Bool-cases (meta.pubkey == instructions_id)) [
      | inl special ↦ rw special (Serves-pure _)
      | inr other ↦ rw other (
          account_or-Serves meta.pubkey (load_missing sdk false meta.pubkey) (λ db h missing.
            load_missing-Done db h meta.pubkey missing (known (λ e. ground arith))))
    ]

    load_metas-Serves :
        (metas : List AccountMeta) → All KnownMeta metas → Serves (load_metas sdk false ixn metas)
    unfolding load_metas
    load_metas-Serves [] known = Serves-pure []
    load_metas-Serves (meta ∷ metas) (here, rest) =
        Serves-bind _ _ (load_meta-Serves meta here)
          (λ x. Serves-bind _ _ (load_metas-Serves metas rest) (λ l. Serves-pure _))

    accounts_for_instruction-Serves :
        Known ixn.program_id
        → All KnownMeta ixn.accounts
        → Serves (accounts_for_instruction sdk false ixn)
    unfolding accounts_for_instruction account_must
    accounts_for_instruction-Serves program metas =
        Serves-bind _ _
          (account_or-Serves ixn.program_id (fetch_must sdk ixn.program_id)
            (λ db h missing. fetch_must-Done db h ixn.program_id missing program))
          (λ x. Serves-bind _ _ (load_metas-Serves ixn.accounts metas) (λ l. Serves-pure _))

    pub accounts_for_instruction-returns :
        (db : AccountsDb sdk)
        → IsReady db
        → Known ixn.program_id
        → All KnownMeta ixn.accounts
        → (l : List (Pubkey × Shared)) × (db' : AccountsDb sdk) × (accounts_for_instruction sdk
              false ixn db
            ≡ (ok l, db'))
    accounts_for_instruction-returns db h program metas =
        let (l, db', e, _) = (accounts_for_instruction-Serves program metas).by db h in (l, db', e)
