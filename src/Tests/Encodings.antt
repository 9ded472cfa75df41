-- ===== src/Tests/Encodings.antt =====
-- How the small instance encodes: accounts, values as the lists of their numbers, and documents.
use Prim.Native.String.{String}
use seashell.Prelude.{ℕ, zero, suc, Bool, true, false, Option, none, some, List, [], ◌∷◌, length}
use seashell.Prelude.Int.{ℤ, pos, negsuc}
use seashell.Instruction.{Pubkey, Bytes}
use seashell.Sdk.{Account, Clock, Codec, JsonObject}
use seashell.Tests.Text.{key_text, key_of, bytes_text, bytes_of}

abbrev pub an_account : ℕ → Bytes → Pubkey → Account
an_account lamports bytes owner = record {
  lamports = lamports;
  bytes = bytes;
  owner = owner;
  executable = false;
  rent_epoch = 0;
}

abbrev pub read_nat : Bytes → Option ℕ
read_nat (n ∷ []) = some n
read_nat [] = none
read_nat (_ ∷ _ ∷ _) = none

abbrev pub nat_codec : Codec ℕ
nat_codec = record { serialize = λ n. some (n ∷ []); deserialize = read_nat }

abbrev pub write_int : ℤ → Bytes → Bytes
write_int (pos n) rest = 0 ∷ n ∷ rest
write_int (negsuc n) rest = 1 ∷ n ∷ rest

abbrev pub read_int : ℕ → ℕ → ℤ
read_int zero n = pos n
read_int (suc _) n = negsuc n

abbrev pub write_clock : Clock → Bytes
write_clock c =
    c.slot
    ∷ c.epoch
    ∷ c.leader_schedule_epoch
    ∷ write_int c.epoch_start_timestamp (write_int c.unix_timestamp [])

abbrev pub read_clock : Bytes → Option Clock
read_clock (a ∷ b ∷ c ∷ d ∷ e ∷ f ∷ g ∷ _) = some (record {
  slot = a;
  epoch = b;
  leader_schedule_epoch = c;
  epoch_start_timestamp = read_int d e;
  unix_timestamp = read_int f g;
})
read_clock _ = none

abbrev pub clock_codec : Codec Clock
clock_codec = record { serialize = λ c. some (write_clock c); deserialize = read_clock }

-- eight numbers for the length
abbrev pub read_vector : Bytes → Option Bytes
read_vector (_ ∷ _ ∷ _ ∷ _ ∷ _ ∷ _ ∷ _ ∷ _ ∷ b) = some b
read_vector _ = none

abbrev pub vector_codec : Codec Bytes
vector_codec = record {
  serialize = λ b. some (length b ∷ 0 ∷ 0 ∷ 0 ∷ 0 ∷ 0 ∷ 0 ∷ 0 ∷ b);
  deserialize = read_vector;
}

abbrev pub account_with : Option Bytes → ℕ → Pubkey → Option Account
account_with none lamports owner = none
account_with (some b) lamports owner = some (an_account lamports b owner)

abbrev pub newest : List (ℕ × ℕ) → ℕ
newest [] = 0
newest (e ∷ _) = e.0

abbrev pub bit : Bool → ℕ
bit true = 1
bit false = 0

abbrev pub is_bit : ℕ → Bool
is_bit zero = false
is_bit (suc _) = true

-- A document as numbers: a zero and five numbers begin an entry, and its bytes follow, plus one.
abbrev pub shifted : Bytes → Bytes → Bytes
shifted [] rest = rest
shifted (b ∷ bs) rest = suc b ∷ shifted bs rest

abbrev pub text_key : Option String → ℕ
text_key none = 0
text_key (some t) = key_of t

abbrev pub text_bytes : Option String → Bytes
text_bytes none = []
text_bytes (some t) = bytes_of t

abbrev pub or_zero : Option ℕ → ℕ
or_zero none = 0
or_zero (some n) = n

abbrev pub or_false : Option Bool → Bool
or_false none = false
or_false (some b) = b

abbrev pub write_document : List (String × JsonObject) → Bytes
write_document [] = []
write_document ((t, o) ∷ doc) =
    0
    ∷ key_of t
    ∷ or_zero o.lamports
    ∷ text_key o.owner
    ∷ bit (or_false o.executable)
    ∷ or_zero o.rent_epoch
    ∷ shifted (text_bytes o.bytes) (write_document doc)

abbrev pub an_object : ℕ → ℕ → ℕ → ℕ → Bytes → JsonObject
an_object lamports owner executable rent_epoch bytes = record {
  lamports = some lamports;
  bytes = some (bytes_text bytes);
  owner = some (key_text owner);
  executable = some (is_bit executable);
  rent_epoch = some rent_epoch;
}

abbrev pub read_document : Bytes → Bytes × List (String × JsonObject)
read_document [] = ([], [])
read_document (suc b ∷ rest) = let (bs, doc) = read_document rest in (b ∷ bs, doc)
read_document (zero ∷ k ∷ l ∷ o ∷ e ∷ r ∷ rest) =
    let (bs, doc) = read_document rest in ([], (key_text k, an_object l o e r bs) ∷ doc)
read_document (zero ∷ _) = ([], [])
