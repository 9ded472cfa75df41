-- ===== src/AccountsDb/Order.antt =====
-- Databases that are seen as the same store, as those with the same maps in another order are.
use mathlib.Core.List.{Permᴰ}
use mathlib.Core.Path.{fun_ext, subst}
use seashell.Prelude.{
  ◌≡◌, refl, sym, ap, ◌∙◌, Bool, Bool-cases, inl, inr, ◌⊎◌, Option, none, some, List, [], ◌∷◌, ◌==◌,
  ◌&&◌, true, false, if◌then◌else◌,
}
use seashell.Prelude.Map.{HasDistinctKeys, Map, lookup, insert, lookup-insert}
use seashell.Prelude.Order.{lookup-any_order}
use seashell.Outcome.{ok, Exec, ◌>>=◌, pure, expect, account_not_found}
use seashell.Outcome.Alike.{
  Related, Blind, Blind-pure, Blind-lift, Blind-if, Blind-bind, continue_Related,
}
use seashell.Instruction.{Pubkey, AccountMeta, Instruction}
use seashell.Sdk.{Sdk, Account}
use seashell.Scenario.{
  Scenario, try_fetch_from_rpc, fetch_with, on_reply, is_not_found, rpc_enabled,
}
use seashell.Sysvars.{Sysvars, is_sysvar, set_sysvar, construct_instructions_account}
use seashell.AccountsDb.{
  AccountsDb, account_maybe, fetch, fetch_must, found_else, account_or, account_must, uninitialized,
  load_missing, load_meta, load_metas, accounts_for_instruction, set_account,
}
use seashell.AccountsDb.Store
use seashell.AccountsDb.Store.{Store}
use seashell.AccountsDb.Refinement.{view, find_refines}

module _ (sdk : Sdk) where
  open sdk use {Shared, RpcClient, RpcError, Programs, from_account, instructions_id}

  -- Every key has the same account, and a node is there, and answers, in both.
  pub record SameCache (s t : Scenario sdk) : Type 0 where
    pub found : (k : Pubkey) → lookup k s.entries ≡ lookup k t.entries
    pub node : s.rpc_client ≡ t.rpc_client
    pub allows : s.allow_uninitialized_accounts ≡ t.allow_uninitialized_accounts

  -- The databases are seen as the same store, and have the same programs.
  pub record SameStore (db db' : AccountsDb sdk) : Type 0 where
    pub cache : SameCache db.scenario db'.scenario
    pub written : (k : Pubkey) → lookup k db.accounts ≡ lookup k db'.accounts
    pub sysvars : db.sysvars ≡ db'.sysvars
    pub programs : db.programs ≡ db'.programs

  same_insert :
      (m n : Map Shared) (k : Pubkey) (x : Shared)
      → ((j : Pubkey) → lookup j m ≡ lookup j n)
      → (j : Pubkey) → lookup j (insert k x m) ≡ lookup j (insert k x n)
  same_insert m n k x same j =
      lookup-insert j k x m
      ∙ ap (λ (o : Option Shared). if j == k then some x else o) (same j)
      ∙ sym (lookup-insert j k x n)

  same_view : (db db' : AccountsDb sdk) → SameStore db db' → view sdk db ≡ view sdk db'
  same_view db db' h = λ i. record {
    fetched = fun_ext h.cache.found i;
    written = fun_ext h.written i;
    sysvars = h.sysvars i;
    node = h.cache.node i;
    allows_uninitialized = h.cache.allows i;
  }

  pub account_maybe-Same :
      (db db' : AccountsDb sdk) (k : Pubkey)
      → SameStore db db'
      → account_maybe sdk db k ≡ account_maybe sdk db' k
  account_maybe-Same db db' k h =
      find_refines sdk db k
      ∙ ap (λ (s : Store sdk). Store.find sdk s k) (same_view db db' h)
      ∙ sym (find_refines sdk db' k)

  on_reply-Same :
      (k : Pubkey) (reply : Account ⊎ RpcError) (s t : Scenario sdk)
      → SameCache s t
      → ((on_reply sdk k reply s).0 ≡ (on_reply sdk k reply t).0)
        × SameCache (on_reply sdk k reply s).1 (on_reply sdk k reply t).1
  unfolding on_reply
  on_reply-Same k (inl a) s t h = (
    refl,
    record {
      found = same_insert s.entries t.entries k (from_account a) h.found;
      node = h.node;
      allows = h.allows;
    },
  )
  on_reply-Same k (inr e) s t h =
      (λ i. if is_not_found sdk e && h.allows i then some sdk.default_shared else none, h)

  fetch_with-Same :
      (o : Option RpcClient) (k : Pubkey) (s t : Scenario sdk)
      → SameCache s t
      → Related SameCache (fetch_with sdk o k s) (fetch_with sdk o k t)
  unfolding fetch_with
  fetch_with-Same none k s t h = (refl, h)
  fetch_with-Same (some c) k s t h =
      let (reply, c') = sdk.get_account c k in
      let (e, h') =
        on_reply-Same k reply (record s { rpc_client = some c' })
          (record t { rpc_client = some c' })
          (record { found = h.found; node = refl; allows = h.allows }) in
      (ap ok e, h')

  abbrev pub BlindDb : {A : Type 0} → Exec (AccountsDb sdk) A → Type 0
  BlindDb m = Blind SameStore m

  fetch-Blind : (k : Pubkey) → BlindDb (fetch sdk k)
  unfolding try_fetch_from_rpc
  fetch-Blind k = record {
    at = λ db db' h.
        let ask = λ (o : Option RpcClient) (s : Scenario sdk). fetch_with sdk o k s in
        let (e, cache) =
          subst
            (λ (o : Option RpcClient).
              Related SameCache (ask db.scenario.rpc_client db.scenario) (ask o db'.scenario))
            h.cache.node
            (fetch_with-Same db.scenario.rpc_client k db.scenario db'.scenario h.cache) in
        (
          e,
          record { cache = cache; written = h.written; sysvars = h.sysvars; programs = h.programs },
        );
  }

  found_else-Blind :
      (m : Exec (AccountsDb sdk) Shared)
      → BlindDb m
      → (found : Option Shared) → BlindDb (found_else sdk m found)
  found_else-Blind m bm none = bm
  found_else-Blind m bm (some x) = Blind-pure x

  account_or-Blind :
      (m : Exec (AccountsDb sdk) Shared) (k : Pubkey) → BlindDb m → BlindDb (account_or sdk m k)
  unfolding account_or
  account_or-Blind m k bm = record {
    at = λ db db' h.
        continue_Related (account_maybe sdk db k, db) (account_maybe sdk db' k, db')
          (found_else sdk m) (account_maybe-Same db db' k h, h) (found_else-Blind m bm);
  }

  pub account_must-Blind : (k : Pubkey) → BlindDb (account_must sdk k)
  unfolding account_must fetch_must
  account_must-Blind k =
      account_or-Blind (fetch_must sdk k) k
        (Blind-bind _ _ (fetch-Blind k) (λ found. Blind-lift (expect account_not_found found)))

  load_missing-Blind : (allow : Bool) (k : Pubkey) → BlindDb (load_missing sdk allow k)
  unfolding load_missing rpc_enabled
  load_missing-Blind allow k = record {
    at = λ db db' h.
        let fallback = uninitialized sdk allow k in
        let ask : Exec (AccountsDb sdk) Shared = fetch sdk k >>= found_else sdk fallback in
        let enabled =
          λ (o : Option RpcClient). elim o as (λ _. Bool) [ none ↦ false | some _ ↦ true ] in
        subst
          (λ (o : Option RpcClient).
            Related SameStore ((if enabled db.scenario.rpc_client then ask else fallback) db)
              ((if enabled o then ask else fallback) db'))
          h.cache.node
          ((Blind-if (enabled db.scenario.rpc_client) ask fallback
              (Blind-bind _ _ (fetch-Blind k) (found_else-Blind fallback (Blind-lift _)))
              (Blind-lift _)).at
            db db' h);
  }

  load_metas-Blind :
      (allow : Bool) (ixn : Instruction) (metas : List AccountMeta)
      → BlindDb (load_metas sdk allow ixn metas)
  unfolding load_metas load_meta
  load_metas-Blind allow ixn [] = Blind-pure []
  load_metas-Blind allow ixn (meta ∷ metas) =
      Blind-bind _ _
        (Blind-if (meta.pubkey == instructions_id) (pure (construct_instructions_account sdk ixn))
          (account_or sdk (load_missing sdk allow meta.pubkey) meta.pubkey) (Blind-pure _)
          (account_or-Blind _ _ (load_missing-Blind allow meta.pubkey)))
        (λ x. Blind-bind _ _ (load_metas-Blind allow ixn metas) (λ rest. Blind-pure _))

  pub accounts_for_instruction-Blind :
      (allow : Bool) (ixn : Instruction) → BlindDb (accounts_for_instruction sdk allow ixn)
  unfolding accounts_for_instruction
  accounts_for_instruction-Blind allow ixn =
      Blind-bind _ _ (account_must-Blind ixn.program_id)
        (λ x. Blind-bind _ _ (load_metas-Blind allow ixn ixn.accounts) (λ rest. Blind-pure _))

  pub set_account-Blind : (k : Pubkey) (x : Shared) → BlindDb (set_account sdk k x)
  unfolding set_account
  set_account-Blind k x = record {
    at = λ db db' h. elim (Bool-cases (is_sysvar sdk k)) [
      | inl sysvar ↦ rw sysvar (
        ap (λ (s : Sysvars sdk). (set_sysvar sdk k x s).0) h.sysvars,
        record {
          cache = h.cache;
          written = h.written;
          sysvars = ap (λ (s : Sysvars sdk). (set_sysvar sdk k x s).1) h.sysvars;
          programs = h.programs;
        },
      )
      | inr other ↦ rw other (
        refl,
        record {
          cache = h.cache;
          written = same_insert db.accounts db'.accounts k x h.written;
          sysvars = h.sysvars;
          programs = h.programs;
        },
      )
    ];
  }

  -- Maps with the same entries in another order make no difference.
  pub reordered-SameStore :
      (db : AccountsDb sdk) (m n : Map Shared)
      → HasDistinctKeys db.scenario.entries
      → HasDistinctKeys db.accounts
      → Permᴰ db.scenario.entries m
      → Permᴰ db.accounts n
      → SameStore db (record db { scenario = record (db.scenario) { entries = m }; accounts = n })
  reordered-SameStore db m n distinct distinct' order order' =
      let (_, same) = lookup-any_order order distinct in
      let (_, same') = lookup-any_order order' distinct' in
      record {
        cache = record { found = λ k. sym (same k); node = refl; allows = refl };
        written = λ k. sym (same' k);
        sysvars = refl;
        programs = refl;
      }
