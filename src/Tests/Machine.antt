-- ===== src/Tests/Machine.antt =====
-- A small instance of the pinocchio crates: the virtual machine is the lines that were logged and
-- the clock, and an account is a key, whether it has signed, and data.
use seashell.Prelude.{
  ℕ, ◌+◌, ◌*◌, ◌≡◌, refl, Bool, false, Option, none, some, List, [], ◌∷◌, ◌++◌, ◌⊎◌, inl, inr,
  arith,
}
use seashell.Prelude.Map.{lookup}
use seashell.Outcome.{ok}
use seashell.Instruction.{Pubkey, Bytes}
use seashell.Sdk.{Clock}
use seashell.OnChain.{Pinocchio}
use seashell.OnChain.Logs.{Line, HasLogs, key_line, number_line}
use seashell.OnChain.Clocks.{HasClock}
use seashell.OnChain.Introspection.{HasIntrospection}
use seashell.Tests.Text.{sum_of}
use seashell.Tests.Encodings.{read_clock}
use seashell.Tests.Toy.{toy}

pub record Handed : Type 0 where
  pub key : Pubkey
  pub signs : Bool
  pub bytes : Bytes

abbrev pub Lines : Type 0
Lines = List Line × Option Clock

abbrev clock_of : Option Bytes → Option Clock
clock_of none = none
clock_of (some b) = read_clock b

abbrev get_clock : Option Clock → Clock ⊎ ℕ
get_clock none = inr 1
get_clock (some c) = inl c

abbrev first_byte : Bytes → ℕ
first_byte [] = 0
first_byte (b ∷ _) = b

abbrev pub total : List Bytes → ℕ
total [] = 0
total (seed ∷ seeds) = first_byte seed + total seeds

abbrev first_instruction : Bytes → Pubkey ⊎ ℕ
first_instruction [] = inr 2
first_instruction (k ∷ _) = inl k

abbrev pub machine : Pinocchio
machine = record {
  Vm = Lines;
  ProgramError = ℕ;
  AccountInfo = Handed;
  Rent = ℕ;
  IntrospectedInstruction = Pubkey;
  key = λ a. a.key;
  borrow_data_unchecked = λ a. a.bytes;
  log_key = λ k vm. (vm.0 ++ (key_line k ∷ []), vm.1);
  log_number = λ text n vm. (vm.0 ++ (number_line text n ∷ []), vm.1);
  clock_get = λ vm. get_clock vm.1;
  rent_get = λ vm. inl 3;
  minimum_balance = λ rent size. rent * (128 + size);
  as_ref = λ k. k ∷ [];
  pubkey = sum_of;
  find_program_address = λ seeds program_id. ok (total seeds + 255 + program_id, 255);
  invoke_signed = λ request signers vm. (ok none, vm);
  get_instruction_relative = λ bytes n. first_instruction bytes;
  get_program_id = λ k. k;
}

abbrev pub machine_logs : HasLogs machine
machine_logs = record {
  logged = λ vm. vm.0;
  logged-log_key = λ k vm. refl;
  logged-log_number = λ text n vm. refl;
}

abbrev pub machine_clock : HasClock toy machine
machine_clock = record {
  start = λ cache. ([], clock_of (lookup 1 cache));
  asked = (0, refl);
  decoded = λ entries b clock found read. rw (found, clock_of, read) refl;
}

abbrev pub machine_introspection : HasIntrospection toy machine
machine_introspection = record {
  data-from_account = λ a. refl;
  current = λ ixn short small. (ixn.program_id, refl, refl);
  info = λ e. record { key = e.0; signs = false; bytes = e.1.bytes };
  data-info = λ e. refl;
}

pub total-append : (seeds : List Bytes) (n : ℕ) → total (seeds ++ ((n ∷ []) ∷ [])) ≡ total seeds + n
total-append [] n = omega arith
total-append (seed ∷ seeds) n = ground (arith, total-append seeds n)
