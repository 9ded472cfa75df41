-- ===== src/OnChain/Addresses.antt =====
-- The program programs/create-account/src/lib.rs: the account that it creates.
use seashell.Prelude.{
  ℕ, ◌+◌, ◌≤◌, ◌≡◌, ◌≢◌, ap, ◌∙◌, Bool, true, Option, some, none, List, [], ◌∷◌, ◌++◌, inl, arith,
  ◌==◌, if◌then◌else◌,
}
use seashell.Outcome.{Result, ok}
use seashell.Instruction.{Pubkey, Bytes}
use seashell.OnChain.{
  Pinocchio, CreateAccount, create_account, create_account_id, test_seeds, signer_seeds,
}

-- What the machine holds under a key: the balance, the number of bytes and the owning program.
pub record Held : Type 0 where
  pub lamports : ℕ
  pub size : ℕ
  pub owner : Pubkey

-- What is documented of program addresses, of calls between programs and of the system program:
-- - the address that is found is the one that its seeds, with the bump after them, make;
-- - if the system program can be called, the first account of the call has signed, both may be
--   written, and the seeds of the call make the key of the second for the program that is running,
--   then the system program runs with both as signers;
-- - with both as signers it makes an account of at most 10240 bytes at an empty place, if the payer
--   is another account of its own, without bytes, that has the balance, from which it is taken; no
--   other account changes.
pub record HasAddresses (p : Pinocchio) : Type 0 where
  pub create_program_address : List Bytes → Pubkey → Option Pubkey
  pub found :
      (seeds : List Bytes) (program_id k : Pubkey) (bump : ℕ)
      → p.find_program_address seeds program_id ≡ ok (k, bump)
      → create_program_address (seeds ++ ((bump ∷ []) ∷ [])) program_id ≡ some k
  pub running : p.Vm → Pubkey
  pub held : p.Vm → Pubkey → Held
  pub system_program_id : Pubkey
  pub can_call_system : p.Vm → Bool
  pub is_signer : p.AccountInfo → Bool
  pub is_writable : p.AccountInfo → Bool
  -- the system program, when both accounts count as signers
  pub system_create : CreateAccount p.AccountInfo → p.Vm → Result (Option p.ProgramError) × p.Vm
  pub invoked :
      (request : CreateAccount p.AccountInfo) (seeds : List Bytes) (vm : p.Vm)
      → can_call_system vm ≡ true
      → is_signer request.from ≡ true
      → is_writable request.from ≡ true
      → is_writable request.to ≡ true
      → create_program_address seeds (running vm) ≡ some (p.key request.to)
      → p.invoke_signed request (seeds ∷ []) vm ≡ system_create request vm
  pub created :
      (request : CreateAccount p.AccountInfo) (vm : p.Vm) (rest : ℕ)
      → p.key request.from ≢ p.key request.to
      → request.space ≤ 10240
      → held vm (p.key request.from)
        ≡ record { lamports = rest + request.lamports; size = 0; owner = system_program_id }
      → held vm (p.key request.to) ≡ record { lamports = 0; size = 0; owner = system_program_id }
      → (vm' : p.Vm) × (system_create request vm ≡ (ok none, vm'))
        × ((j : Pubkey)
            → held vm' j ≡ (
                if j == p.key request.to
                then record {
                  lamports = request.lamports;
                  size = request.space;
                  owner = request.owner;
                }
                else if j == p.key request.from
                then record { lamports = rest; size = 0; owner = system_program_id }
                else held vm j))

module _ (p : Pinocchio) (laws : HasAddresses p) where
  open p use {Vm, AccountInfo, Rent, key, minimum_balance}

  -- create-account, run under its own id where the system program can be called and the rent can be
  -- read, and given at least two accounts, the first two of which may be written and have different
  -- keys: the first has signed, belongs to the system program, has no bytes and has at least the
  -- balance that 1000 bytes need; the second belongs to the system program, has no bytes and no
  -- balance, and stands at the address that is found for the seeds of the first. The program then
  -- succeeds: the account at that address has the least balance for 1000 bytes, 1000 bytes and the
  -- program as its owner, the first account has what it had less that balance, and no other account
  -- has changed.
  pub create_account_creates :
      (program_id : Pubkey) (signer account : AccountInfo) (accounts : List AccountInfo)
      (bytes : Bytes) (vm : Vm) (bump : ℕ) (rent : Rent) (rest : ℕ)
      → p.find_program_address (test_seeds p signer) (create_account_id p) ≡ ok (key account, bump)
      → p.rent_get vm ≡ inl rent
      → laws.running vm ≡ create_account_id p
      → laws.can_call_system vm ≡ true
      → laws.is_signer signer ≡ true
      → laws.is_writable signer ≡ true
      → laws.is_writable account ≡ true
      → key signer ≢ key account
      → laws.held vm (key signer) ≡ record {
        lamports = rest + minimum_balance rent 1000;
        size = 0;
        owner = laws.system_program_id;
      }
      → laws.held vm (key account)
        ≡ record { lamports = 0; size = 0; owner = laws.system_program_id }
      → (vm' : Vm) × (create_account p program_id (signer ∷ account ∷ accounts) bytes vm
          ≡ (ok none, vm'))
        × ((j : Pubkey)
            → laws.held vm' j ≡ (
                if j == key account
                then record {
                  lamports = minimum_balance rent 1000;
                  size = 1000;
                  owner = create_account_id p;
                }
                else if j == key signer
                then record { lamports = rest; size = 0; owner = laws.system_program_id }
                else laws.held vm j))
  unfolding create_account
  create_account_creates program_id signer account accounts bytes vm bump rent rest found rented own
        callable signs writes written other payer empty =
      let made : laws.create_program_address (signer_seeds p signer bump) (laws.running vm)
          ≡ some (key account) =
        ap (laws.create_program_address (signer_seeds p signer bump)) own
        ∙ laws.found (test_seeds p signer) (create_account_id p) (key account) bump found in
      let request : CreateAccount AccountInfo = record {
        from = signer;
        to = account;
        lamports = minimum_balance rent 1000;
        space = 1000;
        owner = create_account_id p;
      } in
      let (vm', done, after) = laws.created request vm rest other (omega arith) payer empty in
      (
        vm',
        rw (found, rented)
            (laws.invoked request (signer_seeds p signer bump) vm callable signs writes written made
              ∙ done),
        after,
      )
