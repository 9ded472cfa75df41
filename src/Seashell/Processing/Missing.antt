-- ===== src/Seashell/Processing/Missing.antt =====
-- An instruction that mentions an account which is in no cache, without a node.
use seashell.Prelude.{
  Bool, ◌≡◌, refl, ap, ◌∙◌, ◌⊎◌, inl, inr, true, false, none, some, List, [], ◌∷◌, ◌++◌, All, ◌==◌,
  Bool-cases,
}
use seashell.Outcome.{Result, ok, panic, account_not_found_for, >>=-step}
use seashell.Instruction.{Pubkey, AccountMeta, Instruction}
use seashell.Sdk.{Sdk}
use seashell.AccountsDb.{
  AccountsDb, account_maybe, account_must, load_missing, load_meta, load_metas,
  accounts_for_instruction,
}
use seashell.AccountsDb.{fetch_must}
use seashell.AccountsDb.Offline.{load_missing_still}
use seashell.AccountsDb.Loading.{account_or-found, account_or-missing}
use seashell.Seashell.{Seashell, on_db}
use seashell.Seashell.Process.{process_instruction}
use seashell.Seashell.Processing.Rest.{rest_of}

module _ (sdk : Sdk) where
  open sdk use {Shared, instructions_id}

  -- The mention needs no node: the account is made for it, or is in a cache.
  abbrev pub Readable : AccountsDb sdk → AccountMeta → Type 0
  Readable db meta =
      ((meta.pubkey == instructions_id) ≡ true)
      ⊎ ((x : Shared) × (account_maybe sdk db meta.pubkey ≡ ok (some x)))

  module _ (ixn : Instruction) (db : AccountsDb sdk) (offline : db.scenario.rpc_client ≡ none) where
    load_meta-Readable :
        (meta : AccountMeta)
        → Readable db meta
        → (x : Shared) × (load_meta sdk false ixn meta db ≡ (ok x, db))
    unfolding load_meta
    load_meta-Readable meta (inl special) = rw special (_, refl)
    load_meta-Readable meta (inr (x, found)) = elim (Bool-cases (meta.pubkey == instructions_id)) [
      | inl special ↦ rw special (_, refl)
      | inr other ↦
          rw other
            (x, account_or-found sdk (load_missing sdk false meta.pubkey) db meta.pubkey x found)
    ]

    load_meta-missing :
        (meta : AccountMeta)
        → (meta.pubkey == instructions_id) ≡ false
        → account_maybe sdk db meta.pubkey ≡ ok none
        → load_meta sdk false ixn meta db ≡ (panic (account_not_found_for meta.pubkey), db)
    unfolding load_meta
    load_meta-missing meta other missing = rw other (
        account_or-missing sdk (load_missing sdk false meta.pubkey) db meta.pubkey missing
        ∙ load_missing_still sdk false ixn db offline meta.pubkey)

    load_metas-missing :
        (before : List AccountMeta) (meta : AccountMeta) (after : List AccountMeta)
        → All (Readable db) before
        → (meta.pubkey == instructions_id) ≡ false
        → account_maybe sdk db meta.pubkey ≡ ok none
        → load_metas sdk false ixn (before ++ (meta ∷ after)) db
          ≡ (panic (account_not_found_for meta.pubkey), db)
    unfolding load_metas
    load_metas-missing [] meta after readable other missing =
        >>=-step (load_meta sdk false ixn meta) _ db (load_meta-missing meta other missing)
    load_metas-missing (m ∷ before) meta after (first, readable) other missing =
        let (x, e) = load_meta-Readable m first in
        >>=-step (load_meta sdk false ixn m) _ db e
        ∙ >>=-step (load_metas sdk false ixn (before ++ (meta ∷ after))) _ db
            (load_metas-missing before meta after readable other missing)

  -- Without a node, where uninitialized accounts are not allowed: if the account of the program and
  -- those of the mentions before are in a cache, and the account of the next mention is in none,
  -- then `process_instruction` panics with the key of that mention, before anything is invoked, and
  -- nothing has changed. The mentions before may also be of the instructions sysvar, whose account
  -- is made and needs no cache; the next mention must be of another key.
  pub process_instruction_missing :
      (ixn : Instruction) (s : Seashell sdk) (program : Shared) (before : List AccountMeta)
      (meta : AccountMeta) (after : List AccountMeta)
      → s.accounts_db.scenario.rpc_client ≡ none
      → s.config.allow_uninitialized_accounts_local ≡ false
      → account_maybe sdk s.accounts_db ixn.program_id ≡ ok (some program)
      → ixn.accounts ≡ before ++ (meta ∷ after)
      → All (Readable s.accounts_db) before
      → (meta.pubkey == instructions_id) ≡ false
      → account_maybe sdk s.accounts_db meta.pubkey ≡ ok none
      → process_instruction sdk ixn s ≡ (panic (account_not_found_for meta.pubkey), s)
  unfolding process_instruction accounts_for_instruction account_must
  process_instruction_missing ixn s program before meta after offline strict found mentions readable
        other missing =
      let db = s.accounts_db in
      let loading : accounts_for_instruction sdk false ixn db
          ≡ (panic (account_not_found_for meta.pubkey), db) =
        >>=-step (account_must sdk ixn.program_id) _ db
          (account_or-found sdk (fetch_must sdk ixn.program_id) db ixn.program_id program found)
        ∙ >>=-step (load_metas sdk false ixn ixn.accounts) _ db (
            ap (λ (l : List AccountMeta). load_metas sdk false ixn l db) mentions
            ∙ load_metas-missing ixn db offline before meta after readable other missing) in
      >>=-step
        (on_db sdk (accounts_for_instruction sdk s.config.allow_uninitialized_accounts_local ixn))
        (rest_of sdk ixn) s
        (ap (λ (allow : Bool). on_db sdk (accounts_for_instruction sdk allow ixn) s) strict
          ∙ ap
              (λ (p : Result (List (Pubkey × Shared)) × AccountsDb sdk).
                (p.0, record s { accounts_db = p.1 }))
              loading)
