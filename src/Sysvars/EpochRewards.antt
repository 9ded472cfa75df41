-- ===== src/Sysvars/EpochRewards.antt =====
-- The epoch rewards are serialized twice when they are read: `get` hands the bytes of the value to
-- `new_data`, which encodes them once more.
use seashell.Prelude.{◌≡◌, ◌≢◌, ap, ◌∙◌, some, arith, length}
use seashell.Outcome.{ok, unwrap_err, expect-eq-ok}
use seashell.Instruction.{Bytes}
use seashell.Sdk.{Sdk}
use seashell.Sysvars.{Sysvars, get_sysvar, epoch_rewards_account}
use seashell.Sysvars.Reads.{HasSysvars, as_account_total}

module _ (sdk : Sdk) (laws : HasSysvars sdk) (s : Sysvars sdk) where
  open sdk use {
    Shared, data_of, sysvar_owner, epoch_rewards_id, epoch_rewards_codec, bytes_codec, new_data,
  }

  get-epoch_rewards : get_sysvar sdk s epoch_rewards_id ≡ epoch_rewards_account sdk s
  unfolding get_sysvar
  get-epoch_rewards = ground (arith, laws.ids_differ)

  -- The account that `get` gives for the epoch rewards exists, and its data is not the encoding of
  -- the value: it is that encoding encoded as a vector of bytes, and eight bytes longer.
  pub epoch_rewards_encoded_twice :
      (x : Shared) × (b : Bytes) × (get_sysvar sdk s epoch_rewards_id ≡ ok x)
      × (epoch_rewards_codec.serialize s.epoch_rewards ≡ some b)
      × (bytes_codec.serialize b ≡ some (data_of x))
      × (data_of x ≢ b)
  epoch_rewards_encoded_twice =
      let (b, encoded) = laws.epoch_rewards.total s.epoch_rewards in
      let (x, made) = as_account_total sdk laws bytes_codec laws.bytes b in
      let twice =
        laws.data-new_data Bytes bytes_codec 0 b sysvar_owner x
          (expect-eq-ok unwrap_err (new_data Bytes bytes_codec 0 b sysvar_owner) made) in
      (
        x,
        b,
        get-epoch_rewards ∙ rw (encoded, epoch_rewards_account) made,
        encoded,
        twice,
        λ same. absurd (omega (arith, ap length same, laws.length-bytes b (data_of x) twice)),
      )
