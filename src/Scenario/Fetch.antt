-- ===== src/Scenario/Fetch.antt =====
-- What a fetch does to a scenario: it caches, it marks, and it touches nothing else.
use seashell.Prelude.{
  ◌≡◌, refl, ap, ◌∙◌, true, ◌&&◌, Option, none, some, ◌⊎◌, inl, inr, if◌then◌else◌,
}
use seashell.Prelude.Map.{insert}
use seashell.Outcome.{Result, ok}
use seashell.Instruction.{Pubkey}
use seashell.Sdk.{Sdk, Account}
use seashell.Scenario.{Scenario, is_not_found, on_reply, fetch_with, try_fetch_from_rpc}

module _ (sdk : Sdk) where
  open sdk use {Shared, RpcClient, RpcError, get_account, from_account, default_shared}

  module _ (k : Pubkey) where
    -- What a cached account does to the scenario.
    abbrev pub cache : Shared → Scenario sdk → Scenario sdk
    cache x s = record s { dirty = true; entries = insert k x s.entries }

    module _ {ℓ} (P : Scenario sdk → Type ℓ)
        (client : (s : Scenario sdk) (c : RpcClient) → P s → P (record s { rpc_client = some c }))
        (cached : (s : Scenario sdk) (x : Shared) → P s → P (cache x s)) where
      on_reply_rule :
          (reply : Account ⊎ RpcError) (s : Scenario sdk) → P s → P (on_reply sdk k reply s).1
      unfolding on_reply
      on_reply_rule (inl a) s h = cached s (from_account a) h
      on_reply_rule (inr e) s h = h

      fetch_with_rule : (o : Option RpcClient) (s : Scenario sdk) → P s → P (fetch_with sdk o k s).1
      unfolding fetch_with
      fetch_with_rule none s h = h
      fetch_with_rule (some c) s h =
          let (reply, c') = get_account c k in
          on_reply_rule reply (record s { rpc_client = some c' }) (client s c' h)

      -- What a change of the client and the caching of an account keep, a fetch keeps.
      pub fetch_rule : (s : Scenario sdk) → P s → P (try_fetch_from_rpc sdk k s).1
      unfolding try_fetch_from_rpc
      fetch_rule s h = fetch_with_rule s.rpc_client s h

    -- What the reply of the node makes of a scenario: an account is cached, an error is not.
    abbrev pub after_reply :
        Account ⊎ RpcError → Scenario sdk → Result (Option Shared) × Scenario sdk
    after_reply (inl a) s = (ok (some (from_account a)), cache (from_account a) s)
    after_reply (inr e) s = (
      ok (
          if is_not_found sdk e && s.allow_uninitialized_accounts
          then some default_shared
          else none),
      s,
    )

    on_reply-after :
        (reply : Account ⊎ RpcError) (s : Scenario sdk)
        → (ok (on_reply sdk k reply s).0, (on_reply sdk k reply s).1) ≡ after_reply reply s
    unfolding on_reply
    on_reply-after (inl a) s = refl
    on_reply-after (inr e) s = refl

    pub fetch_outcome :
        (c : RpcClient) (s : Scenario sdk)
        → s.rpc_client ≡ some c
        → try_fetch_from_rpc sdk k s
          ≡ after_reply (get_account c k).0 (record s { rpc_client = some (get_account c k).1 })
    unfolding try_fetch_from_rpc fetch_with
    fetch_outcome c s h =
        ap (λ o. fetch_with sdk o k s) h
        ∙ on_reply-after (get_account c k).0 (record s { rpc_client = some (get_account c k).1 })
