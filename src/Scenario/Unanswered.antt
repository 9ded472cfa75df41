-- ===== src/Scenario/Unanswered.antt =====
-- A fetch that the node answers with an error.
use seashell.Prelude.{◌≡◌, refl, ap, ◌∙◌, ◌&&◌, Option, none, some, ◌⊎◌, inl, inr, if◌then◌else◌}
use seashell.Outcome.{ok}
use seashell.Instruction.{Pubkey}
use seashell.Sdk.{Sdk, Account}
use seashell.Files.{Files}
use seashell.Scenario.{Scenario, is_not_found, try_fetch_from_rpc, fetch_with, get, on_reply}
use seashell.Scenario.Fetch.{fetch_outcome}
use seashell.Scenario.Persist.{drop}

module _ (sdk : Sdk) (k : Pubkey) where
  open sdk use {Shared, RpcClient, RpcError, get_account, default_shared}

  on_reply-client :
      (reply : Account ⊎ RpcError) (s : Scenario sdk)
      → (on_reply sdk k reply s).1.rpc_client ≡ s.rpc_client
  unfolding on_reply
  on_reply-client (inl a) s = refl
  on_reply-client (inr e) s = refl

  module _ (c : RpcClient) (s : Scenario sdk) (e : RpcError) where
    fetch-inr :
        s.rpc_client ≡ some c
        → (get_account c k).0 ≡ inr e
        → try_fetch_from_rpc sdk k s ≡ (
          ok (
              if is_not_found sdk e && s.allow_uninitialized_accounts
              then some default_shared
              else none),
          record s { rpc_client = some (get_account c k).1 },
        )
    fetch-inr client refused = fetch_outcome sdk k c s client ∙ rw refused refl

    asked_again :
        (s' : Scenario sdk) (c' : RpcClient)
        → s'.rpc_client ≡ some c'
        → (try_fetch_from_rpc sdk k s').1.rpc_client ≡ some (get_account c' k).1
    unfolding try_fetch_from_rpc fetch_with
    asked_again s' c' client =
        ap (λ (o : Option RpcClient). (fetch_with sdk o k s').1.rpc_client) client
        ∙ on_reply-client (get_account c' k).0
            (record s' { rpc_client = some (get_account c' k).1 })

    -- If the node answers a fetch with an error, the fetch does not panic: it gives a default account
    -- if the error is "AccountNotFound" and uninitialized accounts are allowed, and none otherwise.
    -- What it gives is not learned: every key reads from the scenario what it read before, dropping
    -- the scenario makes of any files what it would have made of them before, and the next fetch of
    -- the key asks the node again.
    pub fetch_unanswered :
        s.rpc_client ≡ some c
        → (get_account c k).0 ≡ inr e
        → (s' : Scenario sdk) × (c' : RpcClient) × (try_fetch_from_rpc sdk k s ≡ (
          ok (
              if is_not_found sdk e && s.allow_uninitialized_accounts
              then some default_shared
              else none),
          s',
        ))
          × ((j : Pubkey) → get sdk s' j ≡ get sdk s j)
          × ((fs : Files) → drop sdk s' fs ≡ drop sdk s fs)
          × (s'.rpc_client ≡ some c')
          × ((try_fetch_from_rpc sdk k s').1.rpc_client ≡ some (get_account c' k).1)
    unfolding get drop
    fetch_unanswered client refused = (
      record s { rpc_client = some (get_account c k).1 },
      (get_account c k).1,
      fetch-inr client refused,
      λ j. refl,
      λ fs. refl,
      refl,
      asked_again (record s { rpc_client = some (get_account c k).1 }) (get_account c k).1 refl,
    )
