-- ===== src/AccountsDb/Stable.antt =====
-- A key that reads an account, while the accounts of an instruction are loaded.
use mathlib.Core.Bool.{false≢true}
use mathlib.Core.Path.{subst}
use seashell.Prelude.{
  ◌≡◌, refl, sym, ap, ◌∙◌, Bool, Bool-cases, inl, inr, true, false, Option, none, some, List, [],
  ◌∷◌, ◌==◌, ==_iff, All, arith,
}
use seashell.Prelude.Map.{lookup, lookup-insert}
use seashell.Outcome.{ok, Exec, ◌>>=◌}
use seashell.Outcome.Keeps.{continue_rule, Keeps, Keeps-lift, Keeps-pure, Keeps-if, Keeps-bind}
use seashell.Outcome.Triple.{
  Ends, Ends-map, Triple, Triple-ok, Triple-keeps, Triple-given, Triple-pure, Triple-if,
  Triple-bind,
}
use seashell.Instruction.{Pubkey, AccountMeta, Instruction}
use seashell.Sdk.{Sdk}
use seashell.Scenario
use seashell.Scenario.{Scenario, rpc_enabled}
use seashell.Scenario.Fetch.{fetch_rule}
use seashell.AccountsDb.{
  AccountsDb, account_maybe, fetch, fetch_must, found_else, account_or, account_must, uninitialized,
  load_missing, load_meta, load_metas, accounts_for_instruction,
}
use seashell.AccountsDb.Loading.{account_or-found}

module _ (sdk : Sdk) (k : Pubkey) (x : sdk.Shared) where
  open sdk use {Shared, instructions_id}

  abbrev pub Reads : AccountsDb sdk → Type 0
  Reads db = account_maybe sdk db k ≡ ok (some x)

  -- If the key is meant, the account is the one that it reads.
  abbrev pub Fits : Pubkey → Shared → Type 0
  Fits j y = (k == j) ≡ true → y ≡ x

  found_else-Keeps :
      (m : Exec (AccountsDb sdk) Shared)
      → Keeps Reads m
      → (o : Option Shared) → Keeps Reads (found_else sdk m o)
  found_else-Keeps m km none = km
  found_else-Keeps m km (some y) = Keeps-pure y

  -- A fetch of another key.
  module _ (j : Pubkey) (other : (k == j) ≡ false) where
    fetch-Keeps-Reads : Keeps Reads (fetch sdk j)
    unfolding account_maybe Scenario.get
    fetch-Keeps-Reads = record {
      at = λ db.
          fetch_rule sdk j (λ s. Reads (record db { scenario = s })) (λ s c h. ground arith)
            (λ s y h. ground (arith, lookup-insert k j y s.entries, other)) db.scenario;
    }

    fetch_must-Keeps : Keeps Reads (fetch_must sdk j)
    unfolding fetch_must
    fetch_must-Keeps = Keeps-bind _ _ fetch-Keeps-Reads (λ found. Keeps-lift _)

    load_missing-Keeps : (allow : Bool) → Keeps Reads (load_missing sdk allow j)
    unfolding load_missing
    load_missing-Keeps allow = record {
      at = λ db.
          (Keeps-if (rpc_enabled sdk db.scenario)
              (fetch sdk j >>= found_else sdk (uninitialized sdk allow j))
              (uninitialized sdk allow j)
              (Keeps-bind _ _ fetch-Keeps-Reads (found_else-Keeps _ (Keeps-lift _)))
              (Keeps-lift _)).at
            db;
    }

  account_or-Keeps :
      (m : Exec (AccountsDb sdk) Shared) (j : Pubkey)
      → Keeps Reads m
      → Keeps Reads (account_or sdk m j)
  unfolding account_or
  account_or-Keeps m j km = record {
    at = λ db. continue_rule (account_maybe sdk db j) (found_else sdk m) (found_else-Keeps m km) db;
  }

  account_or-found_Fits :
      (m : Exec (AccountsDb sdk) Shared) (j : Pubkey) (db : AccountsDb sdk)
      → (k == j) ≡ true
      → Reads db
      → account_or sdk m j db ≡ (ok x, db)
  account_or-found_Fits m j db same h =
      account_or-found sdk m db j x (ap (account_maybe sdk db) (sym ((==_iff k j).0 same)) ∙ h)

  account_or-Fits :
      (m : Exec (AccountsDb sdk) Shared) (j : Pubkey)
      → ((k == j) ≡ false → Keeps Reads m)
      → Triple Reads (account_or sdk m j) (λ y db. Reads db × Fits j y)
  account_or-Fits m j km = record {
    by = λ db h. elim (Bool-cases (k == j)) [
      | inl same ↦
          subst (Ends (λ y db. Reads db × Fits j y)) (sym (account_or-found_Fits m j db same h))
            (h, λ _. refl)
      | inr other ↦
          Ends-map (λ y db' h'. (h', λ same. absurd (false≢true (sym other ∙ same))))
            (account_or sdk m j db) ((Triple-keeps _ (account_or-Keeps m j (km other))).by db h)
    ];
  }

  account_must-Fits : (j : Pubkey) → Triple Reads (account_must sdk j) (λ y db. Reads db × Fits j y)
  unfolding account_must
  account_must-Fits j = account_or-Fits (fetch_must sdk j) j (λ other. fetch_must-Keeps j other)

  module _ (allow : Bool) (ixn : Instruction) (plain : (k == instructions_id) ≡ false) where
    load_meta-Fits :
        (meta : AccountMeta)
        → Triple Reads (load_meta sdk allow ixn meta) (λ y db. Reads db × Fits meta.pubkey y)
    unfolding load_meta
    load_meta-Fits meta =
        Triple-if (meta.pubkey == instructions_id) _ _
          (λ special. Triple-pure _ (λ db h. (h, λ same. ground (arith, plain, special, same))))
          (λ other.
            account_or-Fits (load_missing sdk allow meta.pubkey) meta.pubkey
              (λ ne. load_missing-Keeps meta.pubkey ne allow))

    abbrev EachFits : List (Pubkey × Shared) → Type 0
    EachFits l = All (λ (e : Pubkey × Shared). Fits e.0 e.1) l

    load_metas-Fits :
        (metas : List AccountMeta)
        → Triple Reads (load_metas sdk allow ixn metas) (λ l db. Reads db × EachFits l)
    unfolding load_metas
    load_metas-Fits [] = Triple-pure [] (λ db h. (h, tt))
    load_metas-Fits (meta ∷ metas) = Triple-bind _ _ (load_meta-Fits meta) (λ y.
        Triple-given λ fits.
          Triple-bind _ _ (load_metas-Fits metas)
            (λ rest. Triple-pure _ (λ db h. (h.0, (fits, h.1)))))

    accounts_for_instruction-Fits :
        Triple Reads (accounts_for_instruction sdk allow ixn) (λ l db. Reads db × EachFits l)
    unfolding accounts_for_instruction
    accounts_for_instruction-Fits = Triple-bind _ _ (account_must-Fits ixn.program_id) (λ y.
        Triple-given λ fits.
          Triple-bind _ _ (load_metas-Fits ixn.accounts)
            (λ rest. Triple-pure _ (λ db h. (h.0, (fits, h.1)))))

    lookup-EachFits :
        (l : List (Pubkey × Shared)) (y : Shared) → EachFits l → lookup k l ≡ some y → y ≡ x
    lookup-EachFits [] y h e = absurd (cc)
    lookup-EachFits ((j, z) ∷ l) y (fits, h) e = elim (Bool-cases (k == j)) [
      | inl same ↦ let found : some z ≡ some y = rw same at e in let z_x = fits same in cc
      | inr other ↦ let later : lookup k l ≡ some y = rw other at e in lookup-EachFits l y h later
    ]

    -- An account that a key reads before the loading is the one that it is loaded with.
    pub lookup-loaded :
        (db db' : AccountsDb sdk) (l : List (Pubkey × Shared)) (y : Shared)
        → Reads db
        → accounts_for_instruction sdk allow ixn db ≡ (ok l, db')
        → lookup k l ≡ some y
        → y ≡ x
    lookup-loaded db db' l y h e found =
        lookup-EachFits l y (Triple-ok accounts_for_instruction-Fits h e).1 found
