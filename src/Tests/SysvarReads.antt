-- ===== src/Tests/SysvarReads.antt =====
-- The sysvars of the small instance, read and written.
use seashell.Prelude.{ℕ, ◌≡◌, ◌≢◌, refl, some, [], ◌∷◌, arith}
use seashell.Prelude.Int.{pos}
use seashell.Outcome.{ok}
use seashell.Instruction.{Bytes}
use seashell.Sdk.{Account}
use seashell.Sysvars.{Sysvars, get_sysvar, set_sysvar}
use seashell.Sysvars.Reads.{set-get}
use seashell.Sysvars.EpochRewards.{epoch_rewards_encoded_twice}
use seashell.Tests.Encodings.{an_account}
use seashell.Tests.Toy.{toy}
use seashell.Tests.Laws.{toy_sysvars}

abbrev pub sysvars_at : ℕ → Sysvars toy
sysvars_at slot = record {
  clock = record {
    slot = slot;
    epoch_start_timestamp = pos 0;
    epoch = 0;
    leader_schedule_epoch = 1;
    unix_timestamp = pos 30;
  };
  epoch_schedule = 432000;
  epoch_rewards = 6;
  rent = 3;
  slot_hashes = 0;
  stake_history = 1;
  last_restart_slot = 0;
}

abbrev pub clock_account : Account
clock_account = an_account 0 (12 ∷ 0 ∷ 1 ∷ 0 ∷ 0 ∷ 0 ∷ 30 ∷ []) 8

-- The clock at slot 12, written where the slot is 4.
set-get_example :
    (set_sysvar toy 1 clock_account (sysvars_at 12) ≡ (ok tt, sysvars_at 12))
    × ((set_sysvar toy 1 clock_account (sysvars_at 4)).0 ≡ ok tt)
    × (get_sysvar toy (set_sysvar toy 1 clock_account (sysvars_at 4)).1 1 ≡ ok clock_account)
unfolding get_sysvar
set-get_example =
    set-get toy toy_sysvars (sysvars_at 12) (sysvars_at 4) 1 clock_account (λ e. omega arith) refl

epoch_rewards_encoded_twice_example :
    (x : Account) × (b : Bytes) × (get_sysvar toy (sysvars_at 12) 3 ≡ ok x)
    × (some (6 ∷ []) ≡ some b)
    × (toy.bytes_codec.serialize b ≡ some x.bytes)
    × (x.bytes ≢ b)
epoch_rewards_encoded_twice_example = epoch_rewards_encoded_twice toy toy_sysvars (sysvars_at 12)
