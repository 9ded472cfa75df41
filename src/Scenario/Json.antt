-- ===== src/Scenario/Json.antt =====
-- crates/seashell-core/src/scenario.rs: `JsonAccount`, its conversions, and the JSON form of a
-- scenario that its serde attributes ask for.
use Prim.Native.String.{String}
use mathlib.Core.Option.{get_or}
use seashell.Prelude.{ℕ, ◌≡◌, refl, Bool, false, Option, none, some, List, [], ◌∷◌, arith}
use seashell.Prelude.Map.{Map, insert, collect_into}
use seashell.Instruction.{Pubkey, Bytes}
use seashell.Sdk.{Sdk, Account, JsonObject}

pub record JsonAccount : Type 0 where
  pub lamports : ℕ
  pub bytes : Bytes
  pub owner : Pubkey
  pub executable : Bool
  pub rent_epoch : ℕ

-- `impl From<JsonAccount> for Account`
unfoldable pub account_of_json : JsonAccount → Account
account_of_json value = record {
  lamports = value.lamports;
  bytes = value.bytes;
  owner = value.owner;
  executable = value.executable;
  rent_epoch = value.rent_epoch;
}

-- `impl From<Account> for JsonAccount`
unfoldable pub json_of_account : Account → JsonAccount
json_of_account value = record {
  lamports = value.lamports;
  bytes = value.bytes;
  owner = value.owner;
  executable = value.executable;
  rent_epoch = value.rent_epoch;
}

module _ (sdk : Sdk) where
  open sdk use {display, from_str, hex_encode, hex_decode}

  -- the derived `Serialize`: hex data, the owner in its text form
  unfoldable pub to_object : JsonAccount → JsonObject
  to_object j = record {
    lamports = some j.lamports;
    bytes = some (hex_encode j.bytes);
    owner = some (display j.owner);
    executable = some j.executable;
    rent_epoch = some j.rent_epoch;
  }

  abbrev pub decoded {ℓ} : {A : Type ℓ} → (String → Option A) → Option String → Option A
  decoded f none = none
  decoded f (some t) = f t

  -- the fields marked `#[serde(default)]` may be missing, `data` and `owner` may not
  abbrev with_fields : JsonObject → Option Bytes → Option Pubkey → Option JsonAccount
  with_fields o none owner = none
  with_fields o (some bytes) none = none
  with_fields o (some bytes) (some owner) = some (record {
    lamports = get_or o.lamports 0;
    bytes = bytes;
    owner = owner;
    executable = get_or o.executable false;
    rent_epoch = get_or o.rent_epoch 0;
  })

  -- the derived `Deserialize`
  unfoldable pub from_object : JsonObject → Option JsonAccount
  from_object o = with_fields o (decoded hex_decode o.bytes) (decoded from_str o.owner)

  -- `SerializableScenario`, written: each key in its text form, each account by `AccountAsJsonAccount`
  unfoldable pub to_document : Map Account → List (String × JsonObject)
  unfolding to_object json_of_account
  to_document [] = []
  to_document ((k, account) ∷ m) = (display k, to_object (json_of_account account)) ∷ to_document m

  -- read back; one entry that cannot be read fails the whole document
  unfoldable pub document_into : Map Account → List (String × JsonObject) → Option (Map Account)
  unfolding from_object account_of_json
  document_into m [] = some m
  document_into m ((t, o) ∷ doc) = elim (from_str t) [
    | none ↦ none
    | some k ↦ elim (from_object o) [
      | none ↦ none
      | some j ↦ document_into (insert k (account_of_json j) m) doc
    ]
  ]

  abbrev pub from_document : List (String × JsonObject) → Option (Map Account)
  from_document = document_into []

-- What is documented of the text forms: each is read back.
pub record IsTextual (sdk : Sdk) : Type 0 where
  pub from_str-display : (k : Pubkey) → sdk.from_str (sdk.display k) ≡ some k
  pub hex_decode-encode : (b : Bytes) → sdk.hex_decode (sdk.hex_encode b) ≡ some b

module _ (sdk : Sdk) (text : IsTextual sdk) where
  from_object-to_object : (j : JsonAccount) → from_object sdk (to_object sdk j) ≡ some j
  unfolding from_object to_object
  from_object-to_object j = rw (text.hex_decode-encode j.bytes, text.from_str-display j.owner)

  account-json : (a : Account) → account_of_json (json_of_account a) ≡ a
  unfolding account_of_json json_of_account
  account-json a = refl

  -- Reading a written document collects the map's own entries.
  pub document_into-to_document :
      (m n : Map Account) → document_into sdk n (to_document sdk m) ≡ some (collect_into n m)
  unfolding document_into to_document
  document_into-to_document [] n = refl
  document_into-to_document ((k, a) ∷ m) n = ground (
    arith,
    text.from_str-display k,
    from_object-to_object (json_of_account a),
    account-json a,
    document_into-to_document m (insert k a n),
  )
