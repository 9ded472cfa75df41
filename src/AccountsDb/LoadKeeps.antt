-- ===== src/AccountsDb/LoadKeeps.antt =====
-- What every fetch keeps, loading the accounts of an instruction keeps.
use seashell.Prelude.{Bool, Option, none, some, List, [], ◌∷◌, ◌==◌}
use seashell.Outcome.{Exec, ◌>>=◌, pure}
use seashell.Outcome.Keeps.{Keeps, Keeps-lift, Keeps-pure, Keeps-if, Keeps-bind, continue_rule}
use seashell.Instruction.{Pubkey, AccountMeta, Instruction}
use seashell.Sdk.{Sdk}
use seashell.Scenario.{rpc_enabled}
use seashell.Sysvars.{construct_instructions_account}
use seashell.AccountsDb.{
  AccountsDb, account_maybe, fetch, fetch_must, found_else, account_or, account_must, uninitialized,
  load_missing, load_meta, load_metas, accounts_for_instruction,
}

module _ (sdk : Sdk) (P : AccountsDb sdk → Type 0)
    (fetch-KeepsP : (k : Pubkey) → Keeps P (fetch sdk k)) where
  open sdk use {Shared, instructions_id}

  abbrev KeepsP : {A : Type 0} → Exec (AccountsDb sdk) A → Type 0
  KeepsP m = Keeps P m

  found_else-KeepsP :
      (m : Exec (AccountsDb sdk) Shared)
      → KeepsP m
      → (found : Option Shared) → KeepsP (found_else sdk m found)
  found_else-KeepsP m km none = km
  found_else-KeepsP m km (some x) = Keeps-pure x

  fetch_must-KeepsP : (k : Pubkey) → KeepsP (fetch_must sdk k)
  unfolding fetch_must
  fetch_must-KeepsP k = Keeps-bind _ _ (fetch-KeepsP k) (λ found. Keeps-lift _)

  account_or-KeepsP :
      (m : Exec (AccountsDb sdk) Shared) (k : Pubkey) → KeepsP m → KeepsP (account_or sdk m k)
  unfolding account_or
  account_or-KeepsP m k km = record {
    at =
        λ db. continue_rule (account_maybe sdk db k) (found_else sdk m) (found_else-KeepsP m km) db;
  }

  pub account_must-KeepsP : (k : Pubkey) → KeepsP (account_must sdk k)
  unfolding account_must
  account_must-KeepsP k = account_or-KeepsP (fetch_must sdk k) k (fetch_must-KeepsP k)

  load_missing-KeepsP : (allow : Bool) (k : Pubkey) → KeepsP (load_missing sdk allow k)
  unfolding load_missing
  load_missing-KeepsP allow k = record {
    at = λ db.
        (Keeps-if (rpc_enabled sdk db.scenario)
            (fetch sdk k >>= found_else sdk (uninitialized sdk allow k)) (uninitialized sdk allow k)
            (Keeps-bind _ _ (fetch-KeepsP k) (found_else-KeepsP _ (Keeps-lift _)))
            (Keeps-lift _)).at
          db;
  }

  load_meta-KeepsP :
      (allow : Bool) (ixn : Instruction) (meta : AccountMeta)
      → KeepsP (load_meta sdk allow ixn meta)
  unfolding load_meta
  load_meta-KeepsP allow ixn meta =
      Keeps-if (meta.pubkey == instructions_id) (pure (construct_instructions_account sdk ixn))
        (account_or sdk (load_missing sdk allow meta.pubkey) meta.pubkey) (Keeps-pure _)
        (account_or-KeepsP _ _ (load_missing-KeepsP allow meta.pubkey))

  load_metas-KeepsP :
      (allow : Bool) (ixn : Instruction) (metas : List AccountMeta)
      → KeepsP (load_metas sdk allow ixn metas)
  unfolding load_metas
  load_metas-KeepsP allow ixn [] = Keeps-pure []
  load_metas-KeepsP allow ixn (meta ∷ metas) =
      Keeps-bind _ _ (load_meta-KeepsP allow ixn meta)
        (λ x. Keeps-bind _ _ (load_metas-KeepsP allow ixn metas) (λ rest. Keeps-pure _))

  pub accounts_for_instruction-Keeps :
      (allow : Bool) (ixn : Instruction) → KeepsP (accounts_for_instruction sdk allow ixn)
  unfolding accounts_for_instruction
  accounts_for_instruction-Keeps allow ixn =
      Keeps-bind _ _ (account_must-KeepsP ixn.program_id)
        (λ x. Keeps-bind _ _ (load_metas-KeepsP allow ixn ixn.accounts) (λ rest. Keeps-pure _))
