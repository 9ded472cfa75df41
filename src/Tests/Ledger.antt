-- ===== src/Tests/Ledger.antt =====
-- A small instance of the pinocchio crates whose virtual machine holds the accounts that
-- programs/create-account changes: an address is the sum of its seeds' first bytes and the
-- program's id, and an account that is handed to a program is a key and whether it has signed.
use seashell.Prelude.{
  ℕ, ◌+◌, ◌-◌, ◌*◌, ◌≡◌, refl, ap, ◌∙◌, Bool, true, false, ◌||◌, ◌&&◌, Option, none, some, List, [],
  ◌∷◌, ◌++◌, inl, inr, arith, ◌==◌, if◌then◌else◌, Bool-cases,
}
use seashell.Outcome.{Result, ok}
use seashell.Instruction.{Pubkey, Bytes}
use seashell.OnChain.{Pinocchio, CreateAccount, create_account}
use seashell.OnChain.Addresses.{Held, HasAddresses, create_account_creates}
use seashell.Tests.Text.{sum_of}
use seashell.Tests.Machine.{Handed, total, total-append}

abbrev running_id : Pubkey
running_id = sum_of "create1111111111111111111111111111111111111"

abbrev makes : Pubkey → List (List Bytes) → Bool
makes k [] = false
makes k (seeds ∷ signers) = (total seeds + running_id == k) || makes k signers

-- the accounts after a request that is granted
abbrev moved : CreateAccount Handed → (Pubkey → Held) → Pubkey → Held
moved request vm j =
    if j == request.to.key
    then record { lamports = request.lamports; size = request.space; owner = request.owner }
    else if j == request.from.key
    then record (vm j) { lamports = (vm j).lamports - request.lamports }
    else vm j

-- the system program, when both accounts have signed
abbrev create : CreateAccount Handed → (Pubkey → Held) → Result (Option ℕ) × (Pubkey → Held)
create request vm =
    if (vm request.to.key).lamports == 0 then (ok none, moved request vm) else (ok (some 0), vm)

abbrev make :
    CreateAccount Handed → List (List Bytes) → (Pubkey → Held) → Result (Option ℕ) × (Pubkey → Held)
make request signers vm =
    if request.from.signs && (request.to.signs || makes request.to.key signers)
    then create request vm
    else (ok (some 9), vm)

abbrev ledger : Pinocchio
ledger = record {
  Vm = Pubkey → Held;
  ProgramError = ℕ;
  AccountInfo = Handed;
  Rent = ℕ;
  IntrospectedInstruction = Pubkey;
  key = λ a. a.key;
  borrow_data_unchecked = λ a. a.bytes;
  log_key = λ k vm. vm;
  log_number = λ text n vm. vm;
  clock_get = λ vm. inr 1;
  rent_get = λ vm. inl 3;
  minimum_balance = λ rent size. rent * (128 + size);
  as_ref = λ k. k ∷ [];
  pubkey = sum_of;
  find_program_address = λ seeds program_id. ok (total seeds + 255 + program_id, 255);
  invoke_signed = make;
  get_instruction_relative = λ bytes n. inr 2;
  get_program_id = λ k. k;
}

found_makes :
    (seeds : List Bytes) (program_id k : Pubkey) (bump : ℕ)
    → ◌≡◌ {A = Result (Pubkey × ℕ)} (ok (total seeds + 255 + program_id, 255)) (ok (k, bump))
    → ◌≡◌ {A = Option ℕ} (some (total (seeds ++ ((bump ∷ []) ∷ [])) + program_id)) (some k)
found_makes seeds program_id k bump e = ground (arith, total-append seeds 255)

granted :
    (request : CreateAccount Handed) (seeds : List Bytes) (vm : Pubkey → Held)
    → request.from.signs ≡ true
    → ◌≡◌ {A = Option ℕ} (some (total seeds + running_id)) (some request.to.key)
    → make request (seeds ∷ []) vm ≡ create request vm
granted request seeds vm signs made = ground arith

abbrev emptied : ℕ → Held
emptied n = record { lamports = n; size = 0; owner = 0 }

moved-payer :
    (request : CreateAccount Handed) (vm : Pubkey → Held) (rest : ℕ) (j : Pubkey)
    → vm request.from.key ≡ record { lamports = rest + request.lamports; size = 0; owner = 0 }
    → moved request vm j ≡ (
        if j == request.to.key
        then record { lamports = request.lamports; size = request.space; owner = request.owner }
        else if j == request.from.key
        then record { lamports = rest; size = 0; owner = 0 }
        else vm j)
moved-payer request vm rest j payer = elim (Bool-cases (j == request.to.key)) [
  | inl made ↦ rw made refl
  | inr other ↦ elim (Bool-cases (j == request.from.key)) [
    | inl pays ↦
        let here : j ≡ request.from.key = ground (arith, pays) in
        rw (other, pays)
          (ap (λ (h : Held). record h { lamports = h.lamports - request.lamports })
              (ap vm here ∙ payer)
            ∙ ap (λ (n : ℕ). emptied n) (omega arith))
    | inr third ↦ rw (other, third) refl
  ]
]

abbrev ledger_addresses : HasAddresses ledger
ledger_addresses = record {
  create_program_address = λ seeds program_id. some (total seeds + program_id);
  found = found_makes;
  running = λ vm. running_id;
  held = λ vm. vm;
  system_program_id = 0;
  can_call_system = λ vm. true;
  is_signer = λ a. a.signs;
  is_writable = λ a. true;
  system_create = create;
  invoked =
      λ request seeds vm callable signs writes written made. granted request seeds vm signs made;
  created = λ request vm rest other small payer empty.
      (moved request vm, rw empty refl, λ j. moved-payer request vm rest j payer);
}

abbrev handed : Pubkey → Bool → Handed
handed k signs = record { key = k; signs = signs; bytes = [] }

-- the account 5 can pay for 1000 bytes, and nothing else is held
abbrev before : Pubkey → Held
before j = if j == 5 then emptied 3393 else emptied 0

create_account_creates_example :
    (after : Pubkey → Held) × (create_account ledger running_id
        (handed 5 true ∷ handed (376 + running_id) false ∷ handed 0 false ∷ [])
        []
        before
      ≡ (ok none, after))
    × ((j : Pubkey)
        → after j ≡ (
            if j == 376 + running_id
            then record { lamports = 3384; size = 1000; owner = running_id }
            else if j == 5
            then emptied 9
            else before j))
create_account_creates_example =
    create_account_creates ledger ledger_addresses running_id (handed 5 true)
      (handed (376 + running_id) false) (handed 0 false ∷ []) [] before 255 3 9 refl refl refl refl
      refl refl refl (λ e. omega arith) refl refl
