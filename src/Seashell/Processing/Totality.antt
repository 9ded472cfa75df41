-- ===== src/Seashell/Processing/Totality.antt =====
-- That processing an instruction returns.
use seashell.Prelude.{
  ℕ, ◌≤◌, ◌≡◌, refl, ap, ◌∙◌, arith, Bool, true, false, Option, none, some, List, [], ◌∷◌, map,
  length, Option-cases, if◌then◌else◌, inl, inr, length-map,
}
use seashell.Outcome.{
  Result, ok, then_ok, Returns, continue, ◌>>=◌, >>=-step, lift, expect, map_result,
}
use seashell.Instruction.{Pubkey, Bytes, Instruction, InstructionAccount}
use seashell.Prelude.Map.{lookup}
use seashell.Compile.{instruction_program_id_index}
use seashell.Compile.Merge.{merged, compile-eq-merged}
use seashell.Dedup.{dedup_map-first_use}
use seashell.Dedup.Compiled.{merged-IndicesBelow}
use seashell.Sdk.{Sdk, Account}
use seashell.Sysvars.Reads.{HasSysvars}
use seashell.AccountsDb.{
  AccountsDb, account_maybe, accounts_for_instruction, sysvar_data, sysvars_for_instruction,
}
use seashell.AccountsDb.Totality.{account_maybe_total, accounts_for_instruction_total}
use seashell.Seashell.{Config, Seashell, on_db, callback_is_precompile}
use seashell.Seashell.Process.{
  Invocation, configure, invoke, write_back, post_account, post_accounts, conclude, finish,
  process_instruction,
}
use seashell.Seashell.Processing.Rest.{rest_of}
use seashell.Seashell.Processing.Results.{HasContext}

-- What is documented of a transaction context that nothing has been pushed to: an instruction can be
-- configured.
pub record IsConfigurable (sdk : Sdk) : Type 0 where
  pub configures :
      (l : List (Pubkey × sdk.Shared)) (rent : sdk.Rent) (d n p : ℕ)
      (accounts : List InstructionAccount) (slots : List ℕ) (b : Bytes)
      → (c : sdk.TransactionContext) × (sdk.configure_next_instruction
            (sdk.new_context l rent d n)
            p
            accounts
            slots
            b
          ≡ some c)

map_result_total {ℓ κ} :
    {A : Type ℓ} {B : Type κ} (f : A → Result B)
    → ((a : A) → (b : B) × (f a ≡ ok b))
    → (l : List A) → (bs : List B) × (map_result f l ≡ ok bs)
map_result_total f total [] = ([], refl)
map_result_total f total (a ∷ l) =
    let (b, e) = total a in
    let (bs, es) = map_result_total f total l in (b ∷ bs, rw (e, then_ok, es) refl)

module _ (sdk : Sdk) where
  open sdk use {Shared, TransactionContext, SysvarCache, InstructionError, data_of}

  module _ (sysvars : HasSysvars sdk) where
    -- The data of what was found.
    abbrev data_found : Option Shared → Bytes
    data_found none = []
    data_found (some x) = data_of x

    data_found-ok :
        (o : Option Shared) → elim o [ none ↦ ok [] | some x ↦ ok (data_of x) ] ≡ ok (data_found o)
    data_found-ok none = refl
    data_found-ok (some x) = refl

    pub sysvar_data_total :
        (db : AccountsDb sdk) (l : List (Pubkey × Shared)) (k : Pubkey)
        → (b : Bytes) × (sysvar_data sdk db l k ≡ ok b)
    unfolding sysvar_data
    sysvar_data_total db l k =
        let (o, read) = account_maybe_total sdk sysvars db k in
        elim (Option-cases (lookup k l)) [
          | inl missing ↦ (data_found o, ground (arith, data_found-ok o))
          | inr (x, found) ↦ (data_of x, ground arith)
        ]

    sysvars_for_instruction_total :
        (db : AccountsDb sdk) (l : List (Pubkey × Shared))
        → (c : SysvarCache) × (sysvars_for_instruction sdk db l ≡ ok c)
    unfolding sysvars_for_instruction
    sysvars_for_instruction_total db l =
        let (entries, e) =
          map_result_total (λ k. then_ok (sysvar_data sdk db l k) λ bytes. ok (k, bytes))
            (λ k. let (b, e) = sysvar_data_total db l k in ((k, b), rw e refl)) sdk.cached_ids in
        (sdk.cache_of entries, rw e refl)

  configure_total :
      (configurable : IsConfigurable sdk) (ixn : Instruction) (l : List (Pubkey × Shared))
      (t : Seashell sdk)
      → length ixn.accounts ≤ 255
      → 256 ≤ sdk.max_accounts_per_transaction
      → (c : TransactionContext) × (configure sdk ixn l t ≡ ok c)
  unfolding configure
  configure_total configurable ixn l t small room =
      let accounts = map (merged ixn) ixn.accounts in
      let (slots, built, _, _) =
        dedup_map-first_use sdk.max_accounts_per_transaction accounts
          (rw (length-map ixn.accounts (merged ixn)) small)
          (merged-IndicesBelow ixn sdk.max_accounts_per_transaction ixn.accounts room) in
      let (c, configured) =
        configurable.configures l t.accounts_db.sysvars.rent
          (sdk.max_instruction_stack_depth t.compute_budget)
          (sdk.max_instruction_trace_length t.compute_budget) instruction_program_id_index accounts
          slots ixn.bytes in
      (c, rw (compile-eq-merged ixn, then_ok, built, configured) refl)

  module _ (laws : HasContext sdk) (context : TransactionContext) where
    write_back_total :
        (k : Pubkey) (before : Shared) (o : Option ℕ) (t : Seashell sdk)
        → sdk.find_index_of_account context k ≡ o
        → t.config.memoize ≡ false
        → (a : Pubkey × Account) × (write_back sdk context k before o t ≡ (ok a, t))
    unfolding write_back
    write_back_total k before none t e off = (_, refl)
    write_back_total k before (some i) t e off =
        let (x, borrowed) = laws.borrow-found context k i e in
        ((k, sdk.to_account x), rw (borrowed, expect, off) refl)

    post_accounts_total :
        (l : List (Pubkey × Shared)) (t : Seashell sdk)
        → t.config.memoize ≡ false
        → (after : List (Pubkey × Account)) × (post_accounts sdk context l t ≡ (ok after, t))
    unfolding post_accounts post_account
    post_accounts_total [] t off = ([], refl)
    post_accounts_total ((k, before) ∷ l) t off =
        let (a, e) = write_back_total k before (sdk.find_index_of_account context k) t refl off in
        let (rest, e') = post_accounts_total l t off in (a ∷ rest, rw (e, continue, e') refl)

  conclude_total :
      (laws : HasContext sdk) (l : List (Pubkey × Shared)) (i : Invocation sdk)
      (failure : Option InstructionError) (t : Seashell sdk)
      → t.config.memoize ≡ false
      → Returns (conclude sdk l i failure) t
  unfolding conclude
  conclude_total laws l i none t off =
      let (after, e) = post_accounts_total laws i.context l t off in
      (_, _, >>=-step (post_accounts sdk i.context l) _ t e)
  conclude_total laws l i (some e) t off = (_, _, refl)

  -- A method that was called in `t` has returned, and the settings stay.
  abbrev Settles : Seashell sdk → Result (Invocation sdk) × Seashell sdk → Type 0
  Settles t p =
      (v : Invocation sdk) × (t' : Seashell sdk) × (p ≡ (ok v, t')) × (t'.config ≡ t.config)

  Settles-if :
      (t : Seashell sdk) (b : Bool) (p q : Result (Invocation sdk) × Seashell sdk)
      → Settles t p
      → Settles t q
      → Settles t (if b then p else q)
  Settles-if t true p q h k = h
  Settles-if t false p q h k = k

  invoke_total :
      (ixn : Instruction) (cache : SysvarCache) (c : TransactionContext) (t : Seashell sdk)
      → Settles t (invoke sdk ixn cache c t)
  unfolding invoke
  invoke_total ixn cache c t =
      Settles-if t (callback_is_precompile sdk t ixn.program_id) _ _ (_, _, refl, refl)
        (_, _, refl, refl)

  module _ (sysvars : HasSysvars sdk) (laws : HasContext sdk) (configurable : IsConfigurable sdk)
      (ixn : Instruction) where
    pub rest_of-Returns :
        (l : List (Pubkey × Shared)) (t : Seashell sdk)
        → t.config.memoize ≡ false
        → length ixn.accounts ≤ 255
        → 256 ≤ sdk.max_accounts_per_transaction
        → Returns (rest_of sdk ixn l) t
    unfolding finish
    rest_of-Returns l t off small room =
        let (cache, read) = sysvars_for_instruction_total sysvars t.accounts_db l in
        let (c, configured) = configure_total configurable ixn l t small room in
        let (v, t', invoked, same) = invoke_total ixn cache c t in
        let (r, u, ended) =
          conclude_total laws l v v.failure t' (ap (λ (g : Config). g.memoize) same ∙ off) in
        (
          r,
          u,
          ap
                (λ (x : Result SysvarCache). continue x t (λ cache.
                  (λ t. lift (configure sdk ixn l t) t) >>= λ context.
                  invoke sdk ixn cache context >>= λ i. finish sdk l i))
                read
              ∙ ap
                  (λ (x : Result TransactionContext).
                    continue x t (λ context. invoke sdk ixn cache context >>= λ i. finish sdk l i))
                  configured
              ∙ >>=-step (invoke sdk ixn cache c) (λ i. finish sdk l i) t invoked
              ∙ ended,
        )

    -- Processing an instruction returns, whatever the program does and the RPC node replies, if the
    -- account of the program is in the local cache, uninitialized accounts are allowed, results are
    -- not memoized, and there are at most 255 mentions and room for 256 accounts.
    pub process_instruction_total :
        (s : Seashell sdk) (program : Shared)
        → account_maybe sdk s.accounts_db ixn.program_id ≡ ok (some program)
        → s.config.allow_uninitialized_accounts_local ≡ true
        → s.config.memoize ≡ false
        → length ixn.accounts ≤ 255
        → 256 ≤ sdk.max_accounts_per_transaction
        → Returns (process_instruction sdk ixn) s
    unfolding process_instruction
    process_instruction_total s program found allowed off small room =
        let (l, db', loaded) =
          accounts_for_instruction_total sdk sysvars ixn s.accounts_db program found in
        let (r, u, ended) = rest_of-Returns l (record s { accounts_db = db' }) off small room in
        (
          r,
          u,
          ap (λ allow. (on_db sdk (accounts_for_instruction sdk allow ixn) >>= rest_of sdk ixn) s)
                allowed
              ∙ >>=-step (on_db sdk (accounts_for_instruction sdk true ixn)) (rest_of sdk ixn) s (
                  ap
                    (λ (p : Result (List (Pubkey × Shared)) × AccountsDb sdk).
                      (p.0, record s { accounts_db = p.1 }))
                    loaded)
              ∙ ended,
        )
