-- ===== src/Scenario.antt =====
-- crates/seashell-core/src/scenario.rs: `Scenario`, in memory. `data` is `entries` here. The `Arc`
-- of the source is never shared, so the map is a field; `log::debug!` is left out.
pub mod Json
pub mod Persist
pub mod Fetch
pub mod Unanswered
pub mod Durable
pub mod Reload
pub mod Order
use Prim.Native.String.{String}
use text.Mathlib.Text.{find?}
use seashell.Prelude.{Bool, true, false, ◌&&◌, Option, none, some, ◌⊎◌, inl, inr, [], if◌then◌else◌}
use seashell.Prelude.Map.{Map, lookup, insert}
use seashell.Outcome.{Result, then_ok, ok, panic, Exec, rpc_not_configured, unwrap_none, expect}
use seashell.Instruction.{Pubkey}
use seashell.Sdk.{Sdk, Account}

pub record Scenario (sdk : Sdk) : Type 0 where
  pub should_persist : Bool
  pub allow_uninitialized_accounts : Bool
  pub dirty : Bool
  pub entries : Map sdk.Shared
  pub path : Option String
  pub rpc_client : Option sdk.RpcClient

-- `text.contains(pattern)`
abbrev pub contains : String → String → Bool
contains text pattern = elim (find? text pattern) [ none ↦ false | some _ ↦ true ]

module _ (sdk : Sdk) where
  open sdk use {
    Shared, RpcClient, RpcError, new_client, get_account, error_text, from_account, default_shared,
  }

  -- the derived `Default`
  abbrev pub default_scenario : Scenario sdk
  default_scenario = record {
    should_persist = false;
    allow_uninitialized_accounts = false;
    dirty = false;
    entries = [];
    path = none;
    rpc_client = none;
  }

  unfoldable pub rpc_only : String → Bool → Scenario sdk
  rpc_only rpc_url allow = record {
    should_persist = false;
    allow_uninitialized_accounts = allow;
    dirty = false;
    entries = [];
    path = none;
    rpc_client = some (new_client rpc_url);
  }

  unfoldable pub get : Scenario sdk → Pubkey → Option Shared
  get s k = lookup k s.entries

  unfoldable pub insert_account : Pubkey → Shared → Scenario sdk → Scenario sdk
  insert_account k account s = record s { dirty = true; entries = insert k account s.entries }

  unfoldable pub rpc_enabled : Scenario sdk → Bool
  rpc_enabled s = elim s.rpc_client [ none ↦ false | some _ ↦ true ]

  -- whether the error is the one that the second arm of the `match` looks for
  unfoldable pub is_not_found : RpcError → Bool
  is_not_found err = contains (error_text err) "AccountNotFound"

  -- the `match` on the reply of the RPC node
  unfoldable pub on_reply :
      Pubkey → Account ⊎ RpcError → Scenario sdk → Option Shared × Scenario sdk
  on_reply k (inl account) s = (
    some (from_account account),
    record s { dirty = true; entries = insert k (from_account account) s.entries },
  )
  on_reply k (inr err) s =
      (if is_not_found err && s.allow_uninitialized_accounts then some default_shared else none, s)

  -- the request, through the client that the scenario has
  unfoldable pub fetch_with : Option RpcClient → Pubkey → Exec (Scenario sdk) (Option Shared)
  unfolding on_reply
  fetch_with none k s = (panic rpc_not_configured, s)
  fetch_with (some client) k s =
      let (reply, client') = get_account client k in
      let (found, s') = on_reply k reply (record s { rpc_client = some client' }) in (ok found, s')

  unfoldable pub try_fetch_from_rpc : Pubkey → Exec (Scenario sdk) (Option Shared)
  unfolding fetch_with
  try_fetch_from_rpc k s = fetch_with s.rpc_client k s

  unfoldable pub must_fetch_from_rpc : Pubkey → Exec (Scenario sdk) Shared
  unfolding try_fetch_from_rpc
  must_fetch_from_rpc k s =
      let (r, s') = try_fetch_from_rpc k s in (then_ok r (expect unwrap_none), s')
