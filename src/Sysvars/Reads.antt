-- ===== src/Sysvars/Reads.antt =====
-- Reads and writes of the sysvars: which keys they accept, that a read can be written back, and
-- that a write to one sysvar leaves the others alone.
use seashell.Prelude.{
  ℕ, ◌+◌, ◌≡◌, ◌≢◌, true, false, some, List, [], ◌∷◌, arith, ◌==◌, any, length, inl, inr,
}
use seashell.Outcome.{ok, unwrap_err, expect-eq-ok, Result-cases}
use seashell.Instruction.{Pubkey, Bytes}
use seashell.Sdk.{Sdk, Codec, IsCodec}
use seashell.Sysvars.{Sysvars, is_sysvar, set_sysvar, get_sysvar, as_account, epoch_rewards_account}

abbrev pub AllDiffer : List Pubkey → Type 0
AllDiffer [] = Unit
AllDiffer (k ∷ ks) = (any (λ j. k == j) ks ≡ false) × AllDiffer ks

-- What is documented of the sysvars: their identifiers differ, their encodings are decoded again,
-- `new_data` makes an account that holds the encoding, and a vector of bytes is encoded as eight
-- bytes for its length and then the bytes.
pub record HasSysvars (sdk : Sdk) : Type 1 where
  pub ids_differ : AllDiffer (
      sdk.clock_id ∷ sdk.epoch_schedule_id ∷ sdk.epoch_rewards_id ∷ sdk.rent_id ∷ sdk.slot_hashes_id
      ∷ sdk.stake_history_id ∷ sdk.last_restart_slot_id ∷ [])
  pub clock : IsCodec sdk.clock_codec
  pub epoch_schedule : IsCodec sdk.epoch_schedule_codec
  pub epoch_rewards : IsCodec sdk.epoch_rewards_codec
  pub rent : IsCodec sdk.rent_codec
  pub slot_hashes : IsCodec sdk.slot_hashes_codec
  pub stake_history : IsCodec sdk.stake_history_codec
  pub last_restart_slot : IsCodec sdk.last_restart_slot_codec
  pub bytes : IsCodec sdk.bytes_codec
  pub length-bytes : (b e : Bytes) → sdk.bytes_codec.serialize b ≡ some e → length e ≡ 8 + length b
  pub new_data_total :
      (T : Type 0) (c : Codec T) (n : ℕ) (v : T) (owner : Pubkey) (b : Bytes)
      → c.serialize v ≡ some b
      → (x : sdk.Shared) × (sdk.new_data T c n v owner ≡ some x)
  pub data-new_data :
      (T : Type 0) (c : Codec T) (n : ℕ) (v : T) (owner : Pubkey) (x : sdk.Shared)
      → sdk.new_data T c n v owner ≡ some x
      → c.serialize v ≡ some (sdk.data_of x)

module _ (sdk : Sdk) (laws : HasSysvars sdk) where
  open sdk use {
    Shared, data_of, sysvar_owner, clock_id, epoch_schedule_id, epoch_rewards_id, rent_id,
    slot_hashes_id, stake_history_id, last_restart_slot_id, clock_codec, epoch_schedule_codec,
    epoch_rewards_codec, rent_codec, slot_hashes_codec, stake_history_codec,
    last_restart_slot_codec, bytes_codec, new_data,
  }

  module _ {T : Type 0} (c : Codec T) (lawful : IsCodec c) (v : T) where
    pub as_account_total : (x : Shared) × (as_account sdk c v ≡ ok x)
    as_account_total =
        let (b, encoded) = lawful.total v in
        let (x, made) = laws.new_data_total T c 0 v sysvar_owner b encoded in (x, rw made)

    -- The account of a value is decoded to the value.
    pub decode-as_account :
        (x : Shared) → as_account sdk c v ≡ ok x → c.deserialize (data_of x) ≡ some v
    decode-as_account x e = lawful.inverse v (data_of x) (
        laws.data-new_data T c 0 v sysvar_owner x
          (expect-eq-ok unwrap_err (new_data T c 0 v sysvar_owner) e))

  module _ (s : Sysvars sdk) where
    epoch_rewards_total : (x : Shared) × (epoch_rewards_account sdk s ≡ ok x)
    epoch_rewards_total =
        let (b, encoded) = laws.epoch_rewards.total s.epoch_rewards in
        let (x, made) = as_account_total bytes_codec laws.bytes b in
        (x, rw (encoded, epoch_rewards_account) made)

    -- `get` returns an account for each of the seven sysvars.
    pub get_total :
        (k : Pubkey) → is_sysvar sdk k ≡ true → (x : Shared) × (get_sysvar sdk s k ≡ ok x)
    unfolding is_sysvar get_sysvar
    get_total k h = elim (Result-cases (get_sysvar sdk s k)) [
      | inl found ↦ found
      | inr (p, e) ↦ absurd (
          ground (
            arith,
            (as_account_total clock_codec laws.clock s.clock).1,
            (as_account_total epoch_schedule_codec laws.epoch_schedule s.epoch_schedule).1,
            epoch_rewards_total.1,
            (as_account_total rent_codec laws.rent s.rent).1,
            (as_account_total slot_hashes_codec laws.slot_hashes s.slot_hashes).1,
            (as_account_total stake_history_codec laws.stake_history s.stake_history).1,
            (as_account_total last_restart_slot_codec laws.last_restart_slot s.last_restart_slot).1,
          ))
    ]

  -- An account that `get` gave for a sysvar other than the epoch rewards can be written to any
  -- sysvars, and is then what `get` gives there; written back, it changes nothing.
  pub set-get :
      (s t : Sysvars sdk) (k : Pubkey) (x : Shared)
      → k ≢ epoch_rewards_id
      → get_sysvar sdk s k ≡ ok x
      → (set_sysvar sdk k x s ≡ (ok tt, s))
        × ((set_sysvar sdk k x t).0 ≡ ok tt)
        × (get_sysvar sdk (set_sysvar sdk k x t).1 k ≡ ok x)
  unfolding get_sysvar set_sysvar
  set-get s t k x other got = ground (
    arith,
    decode-as_account clock_codec laws.clock s.clock x,
    decode-as_account epoch_schedule_codec laws.epoch_schedule s.epoch_schedule x,
    decode-as_account rent_codec laws.rent s.rent x,
    decode-as_account slot_hashes_codec laws.slot_hashes s.slot_hashes x,
    decode-as_account stake_history_codec laws.stake_history s.stake_history x,
    decode-as_account last_restart_slot_codec laws.last_restart_slot s.last_restart_slot x,
  )

module _ (sdk : Sdk) where
  open sdk use {Shared}

  -- Writing one sysvar, or failing to, changes no read of another.
  pub get-set_ne :
      (s : Sysvars sdk) (k j : Pubkey) (x : Shared)
      → j ≢ k
      → get_sysvar sdk (set_sysvar sdk k x s).1 j ≡ get_sysvar sdk s j
  unfolding get_sysvar set_sysvar
  get-set_ne s k j x other = ground arith
