-- ===== src/OnChain/Logs.antt =====
-- What the programs of programs/ log.
use Prim.Native.String.{String}
use mathlib.Core.List.{append_assoc, append-nil}
use seashell.Prelude.{sym, ◌≡◌, refl, ap, ◌∙◌, none, List, [], ◌∷◌, ◌++◌, map, inl}
use seashell.Prelude.Int.{ℤ, pos}
use seashell.Outcome.{ok}
use seashell.Instruction.{Pubkey, Bytes}
use seashell.Sdk.{Clock}
use seashell.OnChain.{Pinocchio, account_loader, log_clock, sysvar}

-- a line of the log
pub data Line : Type 0 where
  key_line : Pubkey → Line
  number_line : String → ℤ → Line

-- What is documented of logging: it adds a line.
pub record HasLogs (p : Pinocchio) : Type 0 where
  pub logged : p.Vm → List Line
  pub logged-log_key :
      (k : Pubkey) (vm : p.Vm) → logged (p.log_key k vm) ≡ logged vm ++ (key_line k ∷ [])
  pub logged-log_number :
      (text : String) (n : ℤ) (vm : p.Vm)
      → logged (p.log_number text n vm) ≡ logged vm ++ (number_line text n ∷ [])

-- The lines that the program sysvar writes of a clock.
abbrev pub clock_lines : Clock → List Line
clock_lines clock =
    number_line "Slot: {}" (pos clock.slot)
    ∷ number_line "Epoch: {}" (pos clock.epoch)
    ∷ number_line "Epoch Start Timestamp: {}" clock.epoch_start_timestamp
    ∷ number_line "Leader Schedule Epoch: {}" (pos clock.leader_schedule_epoch)
    ∷ number_line "Timestamp: {}" clock.unix_timestamp
    ∷ []

module _ (p : Pinocchio) (laws : HasLogs p) where
  open p use {Vm, AccountInfo, key, clock_get, log_number}

  -- account-loader returns without an error, whatever it is given, and has logged the key of each of
  -- its accounts, in their order, a key that is there twice twice.
  pub account_loader_logs :
      (program_id : Pubkey) (accounts : List AccountInfo) (bytes : Bytes) (vm : Vm)
      → let (r, vm') = account_loader p program_id accounts bytes vm in
        (r ≡ ok none) × (laws.logged vm' ≡ laws.logged vm ++ map (λ a. key_line (key a)) accounts)
  unfolding account_loader
  account_loader_logs program_id [] bytes vm = (refl, sym (append-nil (laws.logged vm)))
  account_loader_logs program_id (a ∷ accounts) bytes vm =
      let (returned, rest) = account_loader_logs program_id accounts bytes (p.log_key (key a) vm) in
      (
        returned,
        rest
            ∙ ap (λ l. l ++ map (λ a. key_line (key a)) accounts) (laws.logged-log_key (key a) vm)
            ∙ append_assoc (laws.logged vm) (key_line (key a) ∷ [])
                (map (λ a. key_line (key a)) accounts),
      )

  logged-log_clock :
      (clock : Clock) (vm : Vm)
      → laws.logged (log_clock p clock vm).1 ≡ laws.logged vm ++ clock_lines clock
  logged-log_clock clock vm = simp (laws.logged-log_number, append_assoc)

  -- The program sysvar, given a clock.
  pub sysvar-logs :
      (program_id : Pubkey) (accounts : List AccountInfo) (bytes : Bytes) (clock : Clock) (vm : Vm)
      → clock_get vm ≡ inl clock
      → let (r, vm') = sysvar p program_id accounts bytes vm in
        (r ≡ ok none) × (laws.logged vm' ≡ laws.logged vm ++ clock_lines clock)
  unfolding sysvar
  sysvar-logs program_id accounts bytes clock vm got =
      rw (got, sysvar) (refl, logged-log_clock clock vm)
