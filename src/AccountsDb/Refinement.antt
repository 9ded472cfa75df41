-- ===== src/AccountsDb/Refinement.antt =====
-- crates/seashell-core/src/accounts_db.rs: the database compared with the store of Store, on sequences
-- of requests.
use mathlib.Core.Path.{fun_ext, ap₂}
use seashell.Prelude.{
  ◌≡◌, refl, ap, ◌∙◌, ◌&&◌, Option, none, some, List, [], ◌∷◌, arith, ◌⊎◌, inl, inr, Bool-cases,
}
use seashell.Prelude.Map.{lookup, lookup-insert, lookup-retain}
use seashell.Outcome.{Result, then_ok, ok, panic, continue, lift, expect, account_not_found}
use seashell.Instruction.{Pubkey}
use seashell.Sdk.{Sdk, Account}
use seashell.Scenario
use seashell.Scenario.{Scenario, try_fetch_from_rpc, fetch_with, on_reply, is_not_found}
use seashell.Sysvars.{is_sysvar}
use seashell.AccountsDb
use seashell.AccountsDb.{
  AccountsDb, or_account, account_maybe, fetch, fetch_must, found_else, account_or, account_must,
  set_account, clear_non_program_accounts,
}
use seashell.AccountsDb.Invariant.{IsWellFormed, IsWellFormed-Closed}
use seashell.AccountsDb.Closed.{account_must-Closed}
use seashell.AccountsDb.Store
use seashell.AccountsDb.Store.{
  Store, Request, read, must, write, keep_programs, warp_to, Reply, nothing, answered, asked,
  wanted, replies,
}

module _ (sdk : Sdk) where
  open sdk use {Shared, is_executable}

  -- What the store forgets: the order of the maps, the file, and whether it is to be saved.
  abbrev pub view : AccountsDb sdk → Store sdk
  view db = record {
    fetched = λ k. lookup k db.scenario.entries;
    written = λ k. lookup k db.accounts;
    sysvars = db.sysvars;
    node = db.scenario.rpc_client;
    allows_uninitialized = db.scenario.allow_uninitialized_accounts;
  }

  -- a request, served by the method for it
  serve : Request sdk → AccountsDb sdk → Reply sdk × AccountsDb sdk
  serve (read k) db = (account_maybe sdk db k, db)
  serve (must k) db = let (r, db') = account_must sdk k db in (then_ok r (λ x. ok (some x)), db')
  serve (write k x) db = let (r, db') = set_account sdk k x db in (nothing sdk r, db')
  serve keep_programs db = (ok none, clear_non_program_accounts sdk db)
  serve (warp_to slot timestamp) db = (ok none, AccountsDb.warp sdk slot timestamp db)

  unfoldable pub serve_all : AccountsDb sdk → List (Request sdk) → List (Reply sdk)
  unfolding serve
  serve_all db [] = []
  serve_all db (q ∷ requests) = let (r, db') = serve q db in r ∷ serve_all db' requests

  serve-IsWellFormed :
      (q : Request sdk) (db : AccountsDb sdk)
      → IsWellFormed sdk db
      → IsWellFormed sdk (serve q db).1
  unfolding serve
  serve-IsWellFormed (read k) db h = h
  serve-IsWellFormed (must k) db h = (account_must-Closed sdk (IsWellFormed-Closed sdk) k).at db h
  serve-IsWellFormed (write k x) db h = ((IsWellFormed-Closed sdk).written k x).at db h
  serve-IsWellFormed keep_programs db h = (IsWellFormed-Closed sdk).cleared db h
  serve-IsWellFormed (warp_to slot timestamp) db h =
      (IsWellFormed-Closed sdk).warped slot timestamp db h

  pub find_refines :
      (db : AccountsDb sdk) (k : Pubkey) → account_maybe sdk db k ≡ Store.find sdk (view db) k
  unfolding account_maybe Store.find Scenario.get
  find_refines db k = ground arith

  -- a reply with what is left, as a store
  abbrev seen : Reply sdk × AccountsDb sdk → Reply sdk × Store sdk
  seen (r, db) = (r, view db)

  -- what `must` gives, as a reply
  abbrev given : Result Shared × AccountsDb sdk → Reply sdk × Store sdk
  given (r, db) = (then_ok r (λ x. ok (some x)), view db)

  module _ (k : Pubkey) (db : AccountsDb sdk) where
    -- the rest of `fetch_must`, once the scenario has asked
    abbrev asked_db : Result (Option Shared) × Scenario sdk → Reply sdk × Store sdk
    asked_db (r, scenario') = given (
        continue r (record db { scenario = scenario' })
          (λ found. lift (expect account_not_found found)))

    answered_refines :
        (c : sdk.RpcClient) (reply : Account ⊎ sdk.RpcError)
        → let scenario = record db.scenario { rpc_client = some c } in
          let (found, scenario') = on_reply sdk k reply scenario in
          asked_db (ok found, scenario')
          ≡ answered sdk k reply (view (record db { scenario = scenario }))
    unfolding on_reply
    answered_refines c (inl a) =
        ap
          (λ (f : Pubkey → Option Shared).
            (ok (some (sdk.from_account a)), record (view db) { fetched = f; node = some c }))
          (fun_ext (λ j. lookup-insert j k (sdk.from_account a) db.scenario.entries))
    answered_refines c (inr e) =
        elim (Bool-cases (is_not_found sdk e && db.scenario.allow_uninitialized_accounts)) [
          | inl answers ↦ rw answers refl
          | inr refuses ↦ rw refuses refl
        ]

    asked_refines :
        (o : Option sdk.RpcClient)
        → asked_db (fetch_with sdk o k db.scenario) ≡ asked sdk o k (view db)
    unfolding fetch_with
    asked_refines none = refl
    asked_refines (some c) = answered_refines (sdk.get_account c k).1 (sdk.get_account c k).0

    wanted_refines :
        (r : Reply sdk)
        → given (continue r db (found_else sdk (fetch_must sdk k))) ≡ wanted sdk r k (view db)
    unfolding fetch_must try_fetch_from_rpc
    wanted_refines (panic p) = refl
    wanted_refines (ok (some x)) = refl
    wanted_refines (ok none) = asked_refines db.scenario.rpc_client

  serve_refines :
      (q : Request sdk) (db : AccountsDb sdk)
      → IsWellFormed sdk db
      → seen (serve q db) ≡ Store.step sdk q (view db)
  unfolding serve Store.step account_must account_or set_account clear_non_program_accounts
      AccountsDb.warp
  serve_refines (read k) db h = ap (λ (r : Reply sdk). (r, view db)) (find_refines db k)
  serve_refines (must k) db h =
      wanted_refines k db (account_maybe sdk db k)
      ∙ ap (λ (r : Reply sdk). wanted sdk r k (view db)) (find_refines db k)
  serve_refines (write k x) db h = elim (Bool-cases (is_sysvar sdk k)) [
    | inl sysvar ↦ rw sysvar refl
    | inr other ↦ rw other (
        ap (λ (f : Pubkey → Option Shared). (ok none, record (view db) { written = f }))
          (fun_ext (λ j. lookup-insert j k x db.accounts)))
  ]
  serve_refines keep_programs db h =
      ap (λ (f : Pubkey → Option Shared). (ok none, record (view db) { written = f }))
        (fun_ext (λ k. lookup-retain is_executable k db.accounts h.account_keys))
  serve_refines (warp_to slot timestamp) db h = refl

  -- On a well-formed database, any sequence of reads, demands, writes, clearings and warps is given
  -- the replies of the store that it is seen as, panics included.
  pub serve_all_refines :
      (requests : List (Request sdk)) (db : AccountsDb sdk)
      → IsWellFormed sdk db
      → serve_all db requests ≡ replies sdk (view db) requests
  unfolding serve_all replies
  serve_all_refines [] db h = refl
  serve_all_refines (q ∷ requests) db h =
      let here = serve_refines q db h in
      ap₂ ◌∷◌ (ap (λ (p : Reply sdk × Store sdk). p.0) here) (
        serve_all_refines requests (serve q db).1 (serve-IsWellFormed q db h)
        ∙ ap (λ (p : Reply sdk × Store sdk). replies sdk p.1 requests) here)
