-- ===== src/Tests/Laws.antt =====
-- The documented laws, which the small instance has.
use Prim.Native.String.{String}
use mathlib.Core.Option
use seashell.Prelude.{ℕ, ◌≡◌, refl, ap, Bool, true, false, Option, none, some, List, [], ◌∷◌, arith}
use seashell.Prelude.Int.{ℤ, pos, negsuc}
use seashell.Prelude.Map.{Map, lookup}
use seashell.Instruction.{Pubkey, Bytes}
use seashell.Sdk.{Account, Clock, IsCodec, JsonObject}
use seashell.Scenario.Json.{IsTextual, to_document, to_object, json_of_account}
use seashell.Scenario.Reload.{IsPersistable}
use seashell.Sysvars.Reads.{HasSysvars}
use seashell.AccountsDb.Programs.{HasExecutable}
use seashell.Seashell.Processing.Results.{HasContext}
use seashell.Seashell.Processing.Totality.{IsConfigurable}
use seashell.Tests.Text.{key_of-key_text, bytes_of-bytes_text}
use seashell.Tests.Encodings.{
  an_account, account_with, nat_codec, clock_codec, vector_codec, shifted, read_document,
  write_document, bit, is_bit, write_int, read_clock, write_clock,
}
use seashell.Tests.Toy.{toy, bump}

nat_lawful : IsCodec nat_codec
nat_lawful = record { total = λ n. (n ∷ [], refl); inverse = λ n b e. ground arith }

read-write_clock :
    (c : Clock) (d t : ℤ)
    → read_clock (c.slot ∷ c.epoch ∷ c.leader_schedule_epoch ∷ write_int d (write_int t []))
      ≡ some (record c { epoch_start_timestamp = d; unix_timestamp = t })
read-write_clock c (pos m) (pos n) = refl
read-write_clock c (pos m) (negsuc n) = refl
read-write_clock c (negsuc m) (pos n) = refl
read-write_clock c (negsuc m) (negsuc n) = refl

clock_lawful : IsCodec clock_codec
clock_lawful = record {
  total = λ c. (write_clock c, refl);
  inverse = λ c b e. ground (arith, read-write_clock c c.epoch_start_timestamp c.unix_timestamp);
}

vector_lawful : IsCodec vector_codec
vector_lawful = record { total = λ b. (_, refl); inverse = λ b e h. ground arith }

made-from :
    (o : Option Bytes) (n : ℕ) (owner : Pubkey) (x : Account)
    → account_with o n owner ≡ some x
    → o ≡ some x.bytes
made-from none n owner x e = cc
made-from (some b) n owner x e = ground arith

pub toy_sysvars : HasSysvars toy
toy_sysvars = record {
  ids_differ = (refl, (refl, (refl, (refl, (refl, (refl, (refl, tt)))))));
  clock = clock_lawful;
  epoch_schedule = nat_lawful;
  epoch_rewards = nat_lawful;
  rent = nat_lawful;
  slot_hashes = nat_lawful;
  stake_history = nat_lawful;
  last_restart_slot = nat_lawful;
  bytes = vector_lawful;
  length-bytes = λ b e h. ground arith;
  new_data_total = λ T c n v owner b e. (an_account n b owner, rw e refl);
  data-new_data = λ T c n v owner x e. made-from (c.serialize v) n owner x e;
}

pub toy_executable : HasExecutable toy
toy_executable = record { executable-set = λ x b. refl }

lookup-bump :
    (k : Pubkey) (l : List (Pubkey × Account))
    → Option.map (λ (a : Account). k) (lookup k (bump l))
      ≡ Option.map (λ (a : Account). k) (lookup k l)
lookup-bump k [] = refl
lookup-bump k ((j, a) ∷ l) = ground (arith, lookup-bump k l)

found-borrowed :
    (o : Option Account) (k i : ℕ) (c : List (Pubkey × Account))
    → lookup k c ≡ o
    → Option.map (λ (a : Account). k) o ≡ some i
    → (x : Account) × (lookup i c ≡ some x)
found-borrowed none k i c e h = cc
found-borrowed (some x) k i c e h = (x, ground arith)

pub toy_context : HasContext toy
toy_context = record {
  find-new = λ l rent d n k x h. (k, rw h refl);
  find-configure = λ c c' n accounts slots b k h. ground arith;
  find-run = λ c p f v l b k. lookup-bump k c;
  find-precompile = λ callback c l p b bs k. refl;
  borrow-found = λ c k i h. found-borrowed (lookup k c) k i c refl h;
}

pub toy_textual : IsTextual toy
toy_textual = record {
  from_str-display = λ k. ap some (key_of-key_text k);
  hex_decode-encode = λ b. ap some (bytes_of-bytes_text b);
}

is_bit-bit : (b : Bool) → is_bit (bit b) ≡ b
is_bit-bit true = refl
is_bit-bit false = refl

read-shifted :
    (b rest : Bytes) (doc : List (String × JsonObject))
    → read_document rest ≡ ([], doc)
    → read_document (shifted b rest) ≡ (b, doc)
read-shifted [] rest doc h = h
read-shifted (b ∷ bs) rest doc h = rw (read-shifted bs rest doc h) refl

read-write_document :
    (m : Map Account) → read_document (write_document (to_document toy m)) ≡ ([], to_document toy m)
unfolding to_document to_object json_of_account
read-write_document [] = refl
read-write_document ((k, a) ∷ m) =
    rw
      (
        key_of-key_text k,
        key_of-key_text a.owner,
        bytes_of-bytes_text a.bytes,
        is_bit-bit a.executable,
        read-shifted a.bytes (write_document (to_document toy m)) (to_document toy m)
            (read-write_document m),
      )
      refl

pub toy_persistable : IsPersistable toy
toy_persistable = record {
  text = toy_textual;
  from-to_account = λ x. refl;
  from-to_json_gz =
      λ m. ap (λ (p : Bytes × List (String × JsonObject)). some p.1) (read-write_document m);
}

pub toy_configurable : IsConfigurable toy
toy_configurable = record { configures = λ l rent d n p accounts slots b. (l, refl) }
