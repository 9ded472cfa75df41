-- ===== src/Seashell/UnitTests/Precompiles.antt =====
-- crates/seashell-core/src/seashell.rs, the module `tests`: the test of the precompiles. The
-- generators, the keys, the signatures and the instructions are made by other crates.
use seashell.Prelude.{ℕ, zero, suc, Bool, ◌&&◌, ◌==◌, Option, [], ◌∷◌, if◌then◌else◌, length}
use seashell.Outcome.{
  Result, ok, panic, then_ok, expect, unwrap_err, out_of_bounds, Exec, continue, ◌>>=◌, pure, lift,
}
use seashell.Instruction.{Bytes, Instruction}
use seashell.Sdk.{Sdk}
use seashell.Seashell.{Seashell, new}
use seashell.Seashell.UnitTests.{is_none}
use seashell.Seashell.Process.{process_instruction}

-- What the test calls of rand, ed25519_dalek, libsecp256k1, openssl and the crates of the three
-- precompiles. `rng` is the generator of the thread, which a draw advances; OpenSSL has its own, so
-- its draws are values.
pub record Signers : Type 1 where
  pub Rng : Type 0
  pub gen_range : Rng → ℕ → ℕ → ℕ × Rng
  pub Keypair : Type 0
  pub generate_keypair : Rng → Keypair × Rng
  pub sign : Keypair → Bytes → Bytes
  pub public_bytes : Keypair → Bytes
  pub new_ed25519_instruction_with_signature : Bytes → Bytes → Bytes → Instruction
  pub SecretKey : Type 0
  pub random_key : Rng → SecretKey × Rng
  pub serialize_secret : SecretKey → Bytes
  pub serialize_public_of : SecretKey → Bytes
  pub eth_address_from_pubkey : Bytes → Bytes
  pub sign_secp256k1 : Bytes → Bytes → Option (Bytes × ℕ)
  pub new_secp256k1_instruction_with_signature : Bytes → Bytes → ℕ → Bytes → Instruction
  pub EcGroup : Type 0
  pub EcKey : Type 0
  pub prime256v1 : Option EcGroup
  pub generate_ec_key : EcGroup → Option EcKey
  pub private_key_to_der : EcKey → Option Bytes
  pub sign_secp256r1 : Bytes → Bytes → Option Bytes
  pub BigNumContext : Type 0
  pub new_big_num_context : Option BigNumContext
  pub compressed_public : EcGroup → EcKey → BigNumContext → Option Bytes
  pub new_secp256r1_instruction_with_signature : Bytes → Bytes → Bytes → Instruction

-- `bytes.try_into().unwrap()` at an array of `n` bytes
abbrev as_array : ℕ → Bytes → Result Bytes
as_array n bytes = if length bytes == n then ok bytes else panic unwrap_err

-- `bytes[1..]`
abbrev from_1 : Bytes → Result Bytes
from_1 [] = panic out_of_bounds
from_1 (b ∷ bytes) = ok bytes

module _ (signers : Signers) where
  open signers use {
    Rng, gen_range, generate_keypair, sign, public_bytes, new_ed25519_instruction_with_signature,
    random_key, serialize_secret, serialize_public_of, eth_address_from_pubkey, sign_secp256k1,
    new_secp256k1_instruction_with_signature, prime256v1, generate_ec_key, private_key_to_der,
    sign_secp256r1, new_big_num_context, compressed_public,
    new_secp256r1_instruction_with_signature,
  }

  -- `(0..n).map(|_| rng.gen_range(0, 255)).collect()`
  abbrev message : ℕ → Rng → Bytes × Rng
  message zero rng = ([], rng)
  message (suc n) rng =
      let (b, rng') = gen_range rng 0 255 in let (bytes, end) = message n rng' in (b ∷ bytes, end)

  unfoldable pub ed25519_instruction : Rng → Instruction × Rng
  ed25519_instruction rng =
      let (key, drawn) = generate_keypair rng in
      let (text, rng') = message 128 drawn in
      (new_ed25519_instruction_with_signature text (sign key text) (public_bytes key), rng')

  unfoldable pub secp256k1_instruction : Rng → Result Instruction × Rng
  secp256k1_instruction rng =
      let (key, drawn) = random_key rng in
      let (text, rng') = message 128 drawn in
      let made = then_ok (from_1 (serialize_public_of key)) λ point.
        then_ok (as_array 64 point) λ public.
          then_ok (expect unwrap_err (sign_secp256k1 (serialize_secret key) text)) λ signed. ok (
            new_secp256k1_instruction_with_signature text signed.0 signed.1
              (eth_address_from_pubkey public)) in
      (made, rng')

  unfoldable pub secp256r1_instruction : Rng → Result Instruction × Rng
  secp256r1_instruction rng =
      let (text, rng') = message 128 rng in
      let made = then_ok (expect unwrap_err prime256v1) λ group.
        then_ok (expect unwrap_err (generate_ec_key group)) λ key.
          then_ok (expect unwrap_err (private_key_to_der key)) λ der.
            then_ok (expect unwrap_err (sign_secp256r1 text der)) λ signature.
              then_ok (expect unwrap_err new_big_num_context) λ context.
                then_ok (expect unwrap_err (compressed_public group key context)) λ point.
                  then_ok (as_array 33 point)
                    λ public. ok (new_secp256r1_instruction_with_signature text signature public) in
      (made, rng')

  module _ (sdk : Sdk) where
    -- The instruction succeeds, and consumes nothing.
    abbrev accepted : Instruction → Exec (Seashell sdk) Bool
    accepted ixn = process_instruction sdk ixn >>= λ result.
        pure (is_none result.error && (result.compute_units_consumed == 0))

    unfoldable pub test_precompiles : Rng → Result Bool
    unfolding ed25519_instruction secp256k1_instruction secp256r1_instruction
    test_precompiles rng =
        let (ed25519, rng') = ed25519_instruction rng in
        let (secp256k1, rng'') = secp256k1_instruction rng' in
        let (secp256r1, end) = secp256r1_instruction rng'' in
        let (made, s) = new sdk in
        (continue made s λ _. accepted ed25519 >>= λ first. lift secp256k1 >>= λ ixn.
        accepted ixn >>= λ second.
        lift secp256r1 >>= λ ixn'. accepted ixn' >>= λ third. pure (first && second && third)).0
