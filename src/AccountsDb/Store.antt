-- ===== src/AccountsDb/Store.antt =====
-- What the database promises, with functions in place of its maps: two layers of accounts, of which
-- the fetched one is looked at first, below the sysvars; and a node that fills the first.
use seashell.Prelude.{
  ℕ, Bool, ◌&&◌, Option, none, some, List, [], ◌∷◌, ◌⊎◌, inl, inr, ◌==◌, if◌then◌else◌,
}
use seashell.Prelude.Int.{ℤ}
use seashell.Prelude.Map.{or_else, kept}
use seashell.Outcome.{Result, then_ok, ok, panic, rpc_not_configured, account_not_found}
use seashell.Instruction.{Pubkey}
use seashell.Sdk.{Sdk, Account}
use seashell.Scenario.{is_not_found}
use seashell.Sysvars
use seashell.Sysvars.{Sysvars, is_sysvar, get_sysvar, set_sysvar}

pub record Store (sdk : Sdk) : Type 0 where
  pub fetched : Pubkey → Option sdk.Shared
  pub written : Pubkey → Option sdk.Shared
  pub sysvars : Sysvars sdk
  pub node : Option sdk.RpcClient
  pub allows_uninitialized : Bool

-- What is asked of the database.
pub data Request (sdk : Sdk) : Type 0 where
  read : Pubkey → Request sdk
  must : Pubkey → Request sdk
  write : Pubkey → sdk.Shared → Request sdk
  keep_programs : Request sdk
  warp_to : ℕ → ℤ → Request sdk

module _ (sdk : Sdk) where
  open sdk use {
    Shared, RpcClient, RpcError, get_account, from_account, default_shared, is_executable,
  }

  -- the account, or that there is none; none for the requests that give nothing
  abbrev pub Reply : Type 0
  Reply = Result (Option Shared)

  abbrev pub updated : Pubkey → Shared → (Pubkey → Option Shared) → Pubkey → Option Shared
  updated k x f j = if j == k then some x else f j

  unfoldable pub find : Store sdk → Pubkey → Reply
  find s k =
      if is_sysvar sdk k
      then then_ok (get_sysvar sdk s.sysvars k) (λ x. ok (some x))
      else ok (or_else (s.fetched k) (s.written k))

  -- the node has replied
  abbrev pub answered : Pubkey → Account ⊎ RpcError → Store sdk → Reply × Store sdk
  answered k (inl a) s =
      (ok (some (from_account a)), record s { fetched = updated k (from_account a) s.fetched })
  answered k (inr e) s = (
    if is_not_found sdk e && s.allows_uninitialized
        then ok (some default_shared)
        else panic account_not_found,
    s,
  )

  abbrev pub asked : Option RpcClient → Pubkey → Store sdk → Reply × Store sdk
  asked none k s = (panic rpc_not_configured, s)
  asked (some c) k s =
      let (reply, c') = get_account c k in answered k reply (record s { node = some c' })

  -- only what is not found is asked for
  abbrev pub wanted : Reply → Pubkey → Store sdk → Reply × Store sdk
  wanted (panic p) k s = (panic p, s)
  wanted (ok none) k s = asked s.node k s
  wanted (ok (some x)) k s = (ok (some x), s)

  abbrev pub nothing : Result (Unit {0}) → Reply
  nothing r = then_ok r λ _. ok none

  unfoldable pub step : Request sdk → Store sdk → Reply × Store sdk
  unfolding find
  step (read k) s = (find s k, s)
  step (must k) s = wanted (find s k) k s
  step (write k x) s =
      if is_sysvar sdk k
      then (let (r, sysvars') = set_sysvar sdk k x s.sysvars in
          (nothing r, record s { sysvars = sysvars' }))
      else (ok none, record s { written = updated k x s.written })
  step keep_programs s = (ok none, record s { written = λ k. kept is_executable (s.written k) })
  step (warp_to slot timestamp) s =
      (ok none, record s { sysvars = Sysvars.warp sdk slot timestamp s.sysvars })

  -- the replies to a sequence of requests
  unfoldable pub replies : Store sdk → List (Request sdk) → List Reply
  unfolding step
  replies s [] = []
  replies s (q ∷ requests) = let (r, s') = step q s in r ∷ replies s' requests
