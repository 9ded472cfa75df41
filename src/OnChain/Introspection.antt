-- ===== src/OnChain/Introspection.antt =====
-- The program programs/sysvar_ixns/src/lib.rs, run on the accounts that a seashell loads for it.
use mathlib.Core.Path.{subst}
use seashell.Prelude.{
  ◌≡◌, refl, sym, ap, Bool, none, List, [], ◌∷◌, map, inl, arith, ◌==◌, length, ◌<◌, ◌^◌,
}
use seashell.Prelude.Int.{pos}
use seashell.Outcome.{Exec, ok, ◌>>=◌, pure}
use seashell.Outcome.Triple.{Triple, Triple-ok, Triple-bind, Triple-keeps, Triple-pure, Triple-if}
use seashell.Instruction.{Pubkey, Bytes, Instruction, AccountMeta}
use seashell.Sdk.{Sdk, Account}
use seashell.Sysvars.{construct_instructions_account}
use seashell.AccountsDb.{AccountsDb, accounts_for_instruction, load_metas, load_meta, account_must}
use seashell.OnChain.{Pinocchio, sysvar_ixns}

-- What is documented of the instructions sysvar: the account has the data that it was made with, and
-- from the data of one instruction the program id of the current one can be read.
pub record HasIntrospection (sdk : Sdk) (p : Pinocchio) : Type 0 where
  pub data-from_account : (a : Account) → sdk.data_of (sdk.from_account a) ≡ a.bytes
  pub current :
      (ixn : Instruction)
      → length ixn.accounts < 2 ^ 16
      → length ixn.bytes < 2 ^ 16
      → (i : p.IntrospectedInstruction) × (p.get_instruction_relative
            (sdk.construct_instructions_data (ixn ∷ []))
            (pos 0)
          ≡ inl i)
        × (p.get_program_id i ≡ ixn.program_id)
  -- how the loaded accounts are handed to the program
  pub info : Pubkey × sdk.Shared → p.AccountInfo
  pub data-info : (e : Pubkey × sdk.Shared) → p.borrow_data_unchecked (info e) ≡ sdk.data_of e.1

module _ (sdk : Sdk) (p : Pinocchio) (laws : HasIntrospection sdk p) where
  open sdk use {Shared, instructions_id}
  open p use {Vm, AccountInfo}

  -- The program logs the id of the instruction that the first account was made of.
  sysvar_ixns-logs :
      (ixn : Instruction) (k : Pubkey) (accounts : List AccountInfo) (program_id : Pubkey)
      (bytes : Bytes) (vm : Vm)
      → length ixn.accounts < 2 ^ 16
      → length ixn.bytes < 2 ^ 16
      → sysvar_ixns p program_id
          (laws.info (k, construct_instructions_account sdk ixn) ∷ accounts)
          bytes
          vm
        ≡ (ok none, p.log_key ixn.program_id vm)
  unfolding sysvar_ixns construct_instructions_account
  sysvar_ixns-logs ixn k accounts program_id bytes vm short small =
      let (i, read, same) = laws.current ixn short small in
      rw (laws.data-info, laws.data-from_account, read, same) refl

  -- The accounts of an instruction: that of its program, and, if its first is the instructions sysvar,
  -- the one that is made of the instruction.
  Made : Instruction → List (Pubkey × Shared) → Type 0
  Made ixn l =
      (program : Pubkey × Shared) × (entries : List (Pubkey × Shared)) × (l
        ≡ program ∷ (instructions_id, construct_instructions_account sdk ixn) ∷ entries)

  abbrev Headed : Instruction → List (Pubkey × Shared) → Type 0
  Headed ixn l =
      (entries : List (Pubkey × Shared)) × (l
        ≡ (instructions_id, construct_instructions_account sdk ixn) ∷ entries)

  anything : {A : Type 0} (m : Exec (AccountsDb sdk) A) → Triple (λ _. Unit {0}) m (λ _ _. Unit {0})
  anything m = Triple-keeps m (record { at = λ s h. tt })

  module _ (allow : Bool) (ixn : Instruction) (meta : AccountMeta) (metas : List AccountMeta)
      (special : meta.pubkey ≡ instructions_id) where
    load_meta-made :
        Triple
          (λ _. Unit {0})
          (load_meta sdk allow ixn meta)
          (λ x _. x ≡ construct_instructions_account sdk ixn)
    unfolding load_meta
    load_meta-made =
        Triple-if (meta.pubkey == instructions_id) _ _ (λ _. record { by = λ s h. refl })
          (λ other. absurd (ground arith))

    load_rest :
        (x : Shared)
        → Triple
            (λ _. x ≡ construct_instructions_account sdk ixn)
            (load_metas sdk allow ixn metas >>= λ rest. pure ((meta.pubkey, x) ∷ rest))
            (λ l _. Headed ixn l)
    load_rest x =
        Triple-bind _ _ (Triple-keeps (load_metas sdk allow ixn metas) (record { at = λ s h. h }))
          (λ rest. Triple-pure _ (λ s made. (rest, rw (special, made) refl)))

    load_metas-Made :
        (program : Pubkey × Shared)
        → Triple
            (λ _. Unit {0})
            (load_metas sdk allow ixn (meta ∷ metas) >>= λ rest. pure (program ∷ rest))
            (λ l _. Made ixn l)
    unfolding load_metas Made
    load_metas-Made program =
        Triple-bind _ _ (Triple-bind _ _ load_meta-made load_rest)
          (λ l. Triple-pure _ (λ s (rest, e). (program, rest, ap (λ t. program ∷ t) e)))

    accounts_for_instruction-Made :
        ixn.accounts ≡ meta ∷ metas
        → Triple (λ _. Unit {0}) (accounts_for_instruction sdk allow ixn) (λ l _. Made ixn l)
    unfolding accounts_for_instruction
    accounts_for_instruction-Made first =
        Triple-bind _ _ (anything (account_must sdk ixn.program_id)) (λ x.
          subst
            (λ (l : List AccountMeta).
              Triple (λ _. Unit {0})
                (load_metas sdk allow ixn l >>= λ rest. pure ((ixn.program_id, x) ∷ rest))
                (λ l' _. Made ixn l'))
            (sym first) (load_metas-Made (ixn.program_id, x)))

  -- For an instruction with less than 2 ^ 16 accounts and bytes: if its first account is the
  -- instructions sysvar and its accounts have been loaded, the program sysvar_ixns, called with the accounts after the program's own, returns
  -- without an error and has logged the id of the program of that instruction, and no more.
  pub sysvar_ixns_logs_itself :
      (allow : Bool) (ixn : Instruction) (meta : AccountMeta) (metas : List AccountMeta)
      (db db' : AccountsDb sdk) (l : List (Pubkey × Shared)) (bytes : Bytes) (vm : Vm)
      → length ixn.accounts < 2 ^ 16
      → length ixn.bytes < 2 ^ 16
      → ixn.accounts ≡ meta ∷ metas
      → meta.pubkey ≡ instructions_id
      → accounts_for_instruction sdk allow ixn db ≡ (ok l, db')
      → (program : Pubkey × Shared) × (entries : List (Pubkey × Shared)) × (l ≡ program ∷ entries)
        × (sysvar_ixns p ixn.program_id (map laws.info entries) bytes vm
            ≡ (ok none, p.log_key ixn.program_id vm))
  unfolding Made
  sysvar_ixns_logs_itself allow ixn meta metas db db' l bytes vm short small first special loaded =
      let (program, rest, same) =
        Triple-ok (accounts_for_instruction-Made allow ixn meta metas special first) tt loaded in
      (
        program,
        (instructions_id, construct_instructions_account sdk ixn) ∷ rest,
        same,
        sysvar_ixns-logs ixn instructions_id (map laws.info rest) ixn.program_id bytes vm short
            small,
      )
