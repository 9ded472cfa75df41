-- ===== src/Sysvars.antt =====
-- crates/seashell-core/src/sysvar.rs: `Sysvars` and `SysvarInstructions`. Each sysvar is behind a
-- lock of its own that is held for one read or write, so it is a field.
pub mod Reads
pub mod EpochRewards
use seashell.Prelude.{
  ℕ, Bool, ◌||◌, Option, none, some, List, [], ◌∷◌, ◌==◌, if◌then◌else◌, replicate, set,
}
use seashell.Prelude.Int.{ℤ}
use seashell.Outcome.{Result, ok, panic, Exec, unwrap_err, unknown_sysvar, expect}
use seashell.Instruction.{Pubkey, Bytes, Instruction}
use seashell.Sdk.{Sdk, Account, Clock, Codec}

pub record Sysvars (sdk : Sdk) : Type 0 where
  pub clock : Clock
  pub epoch_schedule : sdk.EpochSchedule
  pub epoch_rewards : sdk.EpochRewards
  pub rent : sdk.Rent
  pub slot_hashes : sdk.SlotHashes
  pub stake_history : sdk.StakeHistory
  pub last_restart_slot : sdk.LastRestartSlot

module _ (sdk : Sdk) where
  open sdk use {
    Shared, Hash, EpochSchedule, EpochRewards, Rent, LastRestartSlot, SlotHashes, StakeHistory,
    new_data, data_of, clock_codec, epoch_schedule_codec, epoch_rewards_codec, rent_codec,
    slot_hashes_codec, stake_history_codec, last_restart_slot_codec, bytes_codec, clock_id,
    epoch_schedule_id, epoch_rewards_id, rent_id, slot_hashes_id, stake_history_id,
    last_restart_slot_id, sysvar_owner, default_clock, default_epoch_rewards,
    epoch_schedule_without_warmup, default_last_restart_slot, default_rent, default_hash,
    max_entries, new_slot_hashes, entries_of, default_stake_history, default_stake_history_entry,
    add_stake_history, default_account, from_account, construct_instructions_data,
  }

  -- `impl Default for Sysvars`
  unfoldable pub default_sysvars : Sysvars sdk
  default_sysvars = record {
    clock = default_clock;
    epoch_schedule = epoch_schedule_without_warmup;
    epoch_rewards = default_epoch_rewards;
    rent = default_rent;
    slot_hashes =
        new_slot_hashes
          (set (replicate max_entries (0, default_hash)) 0 (default_clock.slot, default_hash));
    stake_history =
        add_stake_history default_stake_history default_clock.epoch default_stake_history_entry;
    last_restart_slot = default_last_restart_slot;
  }

  -- the getters: each clones its field, but for `slot_hashes()`, which builds its value anew
  abbrev pub read_clock : Sysvars sdk → Clock
  read_clock s = s.clock

  abbrev pub read_epoch_schedule : Sysvars sdk → EpochSchedule
  read_epoch_schedule s = s.epoch_schedule

  abbrev pub read_epoch_rewards : Sysvars sdk → EpochRewards
  read_epoch_rewards s = s.epoch_rewards

  abbrev pub read_rent : Sysvars sdk → Rent
  read_rent s = s.rent

  abbrev pub read_stake_history : Sysvars sdk → StakeHistory
  read_stake_history s = s.stake_history

  abbrev pub read_last_restart_slot : Sysvars sdk → LastRestartSlot
  read_last_restart_slot s = s.last_restart_slot

  unfoldable pub read_slot_hashes : Sysvars sdk → SlotHashes
  read_slot_hashes s = new_slot_hashes (entries_of s.slot_hashes)

  unfoldable pub is_sysvar : Pubkey → Bool
  is_sysvar k =
      k == clock_id
      || k == epoch_schedule_id
      || k == epoch_rewards_id
      || k == rent_id
      || k == slot_hashes_id
      || k == stake_history_id
      || k == last_restart_slot_id

  -- `bincode::deserialize(account.data()).unwrap()`, written to the field by `store`
  abbrev pub read_into :
      {T : Type 0}
      → Codec T
      → Shared
      → (T → Sysvars sdk)
      → Sysvars sdk
      → Result (Unit {0}) × Sysvars sdk
  read_into codec account store s = elim (codec.deserialize (data_of account)) [
    | none ↦ (panic unwrap_err, s)
    | some v ↦ (ok tt, store v)
  ]

  unfoldable pub set_sysvar : Pubkey → Shared → Exec (Sysvars sdk) (Unit {0})
  set_sysvar k a s =
      if k == clock_id
      then read_into clock_codec a (λ v. record s { clock = v }) s
      else if k == epoch_schedule_id
      then read_into epoch_schedule_codec a (λ v. record s { epoch_schedule = v }) s
      else if k == epoch_rewards_id
      then read_into epoch_rewards_codec a (λ v. record s { epoch_rewards = v }) s
      else if k == rent_id
      then read_into rent_codec a (λ v. record s { rent = v }) s
      else if k == slot_hashes_id
      then read_into slot_hashes_codec a (λ v. record s { slot_hashes = v }) s
      else if k == stake_history_id
      then read_into stake_history_codec a (λ v. record s { stake_history = v }) s
      else if k == last_restart_slot_id
      then read_into last_restart_slot_codec a (λ v. record s { last_restart_slot = v }) s
      else (panic (unknown_sysvar k), s)

  -- `AccountSharedData::new_data(0, &value, &SYSVAR).unwrap()`
  abbrev pub as_account : {T : Type 0} → Codec T → T → Result Shared
  as_account {T} codec v = expect unwrap_err (new_data T codec 0 v sysvar_owner)

  -- the arm for the epoch rewards, which serializes before it calls `new_data`
  abbrev pub epoch_rewards_account : Sysvars sdk → Result Shared
  epoch_rewards_account s = elim (epoch_rewards_codec.serialize s.epoch_rewards) [
    | none ↦ panic unwrap_err
    | some bytes ↦ as_account bytes_codec bytes
  ]

  unfoldable pub get_sysvar : Sysvars sdk → Pubkey → Result Shared
  get_sysvar s k =
      if k == clock_id
      then as_account clock_codec s.clock
      else if k == epoch_schedule_id
      then as_account epoch_schedule_codec s.epoch_schedule
      else if k == epoch_rewards_id
      then epoch_rewards_account s
      else if k == rent_id
      then as_account rent_codec s.rent
      else if k == slot_hashes_id
      then as_account slot_hashes_codec s.slot_hashes
      else if k == stake_history_id
      then as_account stake_history_codec s.stake_history
      else if k == last_restart_slot_id
      then as_account last_restart_slot_codec s.last_restart_slot
      else panic (unknown_sysvar k)

  -- `Sysvars::warp`
  unfoldable pub warp : ℕ → ℤ → Sysvars sdk → Sysvars sdk
  warp slot timestamp s = record s {
    clock = record (s.clock) { slot = slot; unix_timestamp = timestamp };
  }

  -- `SysvarInstructions::construct_instructions_account`: the borrowed form of the instruction has
  -- the instruction's own fields.
  unfoldable pub construct_instructions_account : Instruction → Shared
  construct_instructions_account ixn = from_account (record default_account {
    bytes = construct_instructions_data (ixn ∷ []);
    owner = sysvar_owner;
  })
