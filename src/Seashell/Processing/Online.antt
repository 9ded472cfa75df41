-- ===== src/Seashell/Processing/Online.antt =====
-- That processing an instruction returns while an RPC node answers.
use seashell.Prelude.{◌≤◌, ◌≡◌, ap, ◌∙◌, Bool, false, All, length, List}
use seashell.Outcome.{Result, Returns, >>=-step, ◌>>=◌}
use seashell.Instruction.{Pubkey, Instruction}
use seashell.Sdk.{Sdk}
use seashell.Sysvars.Reads.{HasSysvars}
use seashell.AccountsDb.{AccountsDb, accounts_for_instruction}
use seashell.AccountsDb.Online.{IsReady, Known, KnownMeta, accounts_for_instruction-returns}
use seashell.Seashell.{Seashell, on_db}
use seashell.Seashell.Process.{process_instruction}
use seashell.Seashell.Processing.Rest.{rest_of}
use seashell.Seashell.Processing.Results.{HasContext}
use seashell.Seashell.Processing.Totality.{IsConfigurable, rest_of-Returns}

module _ (sdk : Sdk) (sysvars : HasSysvars sdk) (laws : HasContext sdk)
    (configurable : IsConfigurable sdk) where
  -- Where no uninitialized account is allowed and results are not memoized: if a node is connected
  -- and answers for the keys of the instruction that are in no cache, but for the instructions
  -- sysvar, then processing the instruction returns, whatever the program does, with at most 255
  -- mentions and room for 256 accounts.
  pub process_instruction_online :
      (Live : sdk.RpcClient → Type 0) (held : Pubkey → Bool) (ixn : Instruction) (s : Seashell sdk)
      → IsReady sdk sysvars Live held s.accounts_db
      → Known sdk sysvars Live held ixn.program_id
      → All (KnownMeta sdk sysvars Live held ixn) ixn.accounts
      → s.config.allow_uninitialized_accounts_local ≡ false
      → s.config.memoize ≡ false
      → length ixn.accounts ≤ 255
      → 256 ≤ sdk.max_accounts_per_transaction
      → Returns (process_instruction sdk ixn) s
  unfolding process_instruction
  process_instruction_online Live held ixn s ready program metas strict off small room =
      let rest = rest_of sdk ixn in
      let (l, db', loaded) =
        accounts_for_instruction-returns sdk sysvars Live held ixn s.accounts_db ready program
          metas in
      let (r, u, ended) =
        rest_of-Returns sdk sysvars laws configurable ixn l (record s { accounts_db = db' }) off
          small room in
      (
        r,
        u,
        ap (λ allow. (on_db sdk (accounts_for_instruction sdk allow ixn) >>= rest) s) strict
            ∙ >>=-step (on_db sdk (accounts_for_instruction sdk false ixn)) rest s (
                ap
                  (λ (p : Result (List (Pubkey × sdk.Shared)) × AccountsDb sdk).
                    (p.0, record s { accounts_db = p.1 }))
                  loaded)
            ∙ ended,
      )
