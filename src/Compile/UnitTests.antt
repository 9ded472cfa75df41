-- ===== src/Compile/UnitTests.antt =====
-- crates/seashell-core/src/compile.rs, the module `tests`: its unit tests, on any distinct keys.
use seashell.Prelude.{
  ℕ, ◌≡◌, ◌≢◌, refl, sym, Bool, true, false, not, ◌&&◌, none, some, List, [], ◌∷◌, arith, ◌==◌,
  length, get_elem?, if◌then◌else◌, ==_refl,
}
use seashell.Outcome.{Result, ok, panic}
use seashell.Instruction.{Pubkey, AccountMeta, Instruction, InstructionAccount}
use seashell.Compile.{compile_accounts_for_instruction}
use seashell.Compile.Merge.{compile-eq-merged}

-- what the tests make with `AccountMeta::new` and `AccountMeta::new_readonly`: as their comments say, an
-- account that is writable, and one that is not
abbrev writable_meta : Pubkey → Bool → AccountMeta
writable_meta k signer = record { pubkey = k; is_signer = signer; is_writable = true }

abbrev readonly_meta : Pubkey → Bool → AccountMeta
readonly_meta k signer = record { pubkey = k; is_signer = signer; is_writable = false }

-- the assertions on what is compiled; a panic fails the test
abbrev asserts : Result (List InstructionAccount) → (List InstructionAccount → Bool) → Bool
asserts (ok result) f = f result
asserts (panic p) f = false

-- the assertions on `result[i]`; an index out of bounds fails the test
abbrev at : ℕ → (InstructionAccount → Bool) → List InstructionAccount → Bool
at i f result = elim (get_elem? result i) [ none ↦ false | some account ↦ f account ]

abbrev is_account : ℕ → Bool → Bool → InstructionAccount → Bool
is_account index signer writable account =
    (account.index_in_transaction == index)
    && (if account.is_signer then signer else not signer)
    && (if account.is_writable then writable else not writable)

abbrev single : Pubkey → Pubkey → Instruction
single program_id account = record {
  program_id = program_id;
  accounts = writable_meta account true ∷ [];
  bytes = [];
}

test_single_account_instruction : Pubkey → Pubkey → Bool
test_single_account_instruction program_id account =
    asserts (compile_accounts_for_instruction (single program_id account))
      λ result. (length result == 1) && at 0 (is_account 1 true true) result

test_empty_instruction : Pubkey → Bool
test_empty_instruction program_id =
    asserts
      (compile_accounts_for_instruction
        (record { program_id = program_id; accounts = []; bytes = [] }))
      (λ result. length result == 0)

abbrev escalation : Pubkey → Pubkey → Instruction
escalation program_id account = record {
  program_id = program_id;
  accounts = readonly_meta account false ∷ writable_meta account true ∷ [];
  bytes = [];
}

abbrev all : (InstructionAccount → Bool) → List InstructionAccount → Bool
all f [] = true
all f (account ∷ result) = f account && all f result

test_privilege_escalation : Pubkey → Pubkey → Bool
test_privilege_escalation program_id account =
    asserts (compile_accounts_for_instruction (escalation program_id account))
      λ result. (length result == 2) && all (is_account 1 true true) result

abbrev duplicates : Pubkey → Pubkey → Pubkey → Instruction
duplicates program_id account_a account_b = record {
  program_id = program_id;
  accounts =
      writable_meta account_a true
      ∷ readonly_meta account_b false
      ∷ readonly_meta account_a false
      ∷ writable_meta account_b true
      ∷ [];
  bytes = [];
}

test_duplicate_accounts_in_instruction : Pubkey → Pubkey → Pubkey → Bool
test_duplicate_accounts_in_instruction program_id account_a account_b =
    asserts (compile_accounts_for_instruction (duplicates program_id account_a account_b)) λ result.
      (length result == 4)
      && at 0 (is_account 1 true true) result
      && at 1 (is_account 2 true true) result
      && at 2 (is_account 1 true true) result
      && at 3 (is_account 2 true true) result

abbrev complex : Pubkey → Pubkey → Pubkey → Pubkey → Instruction
complex program_id system_program user_account token_account = record {
  program_id = program_id;
  accounts =
      writable_meta user_account true
      ∷ readonly_meta system_program false
      ∷ writable_meta token_account false
      ∷ readonly_meta user_account false
      ∷ readonly_meta system_program false
      ∷ writable_meta token_account true
      ∷ [];
  bytes = [];
}

test_complex_scenario : Pubkey → Pubkey → Pubkey → Pubkey → Bool
test_complex_scenario program_id system_program user_account token_account =
    asserts
      (compile_accounts_for_instruction
        (complex program_id system_program user_account token_account))
      (λ result.
        (length result == 6)
        && at 0 (is_account 1 true true) result
        && at 1 (is_account 2 false false) result
        && at 2 (is_account 3 true true) result
        && at 3 (is_account 1 true true) result
        && at 4 (is_account 2 false false) result
        && at 5 (is_account 3 true true) result)

-- The keys of `Pubkey::new_unique` are distinct.
==-ne : (k j : Pubkey) → k ≢ j → (k == j) ≡ false
==-ne k j h = ground arith

test_single-passes :
    (program_id account : Pubkey)
    → account ≢ program_id
    → test_single_account_instruction program_id account ≡ true
unfolding test_single_account_instruction
test_single-passes p a h = rw (compile-eq-merged (single p a), ==-ne a p h, ==_refl a) refl

test_empty-passes : (program_id : Pubkey) → test_empty_instruction program_id ≡ true
unfolding test_empty_instruction
test_empty-passes p =
    simp (compile-eq-merged (record { program_id = p; accounts = []; bytes = [] }))

test_escalation-passes :
    (program_id account : Pubkey)
    → account ≢ program_id
    → test_privilege_escalation program_id account ≡ true
unfolding test_privilege_escalation
test_escalation-passes p a h = simp (compile-eq-merged (escalation p a), ==-ne a p h, ==_refl a)

test_duplicates-passes :
    (p a b : Pubkey) → a ≢ p → b ≢ p → a ≢ b → test_duplicate_accounts_in_instruction p a b ≡ true
unfolding test_duplicate_accounts_in_instruction
test_duplicates-passes p a b ap bp ab = simp (
  compile-eq-merged (duplicates p a b),
  ==_refl a,
  ==_refl b,
  ==-ne a p ap,
  ==-ne b p bp,
  ==-ne a b ab,
  ==-ne b a (λ e. ab (sym e)),
)

test_complex-passes :
    (p s u t : Pubkey)
    → s ≢ p
    → u ≢ p
    → t ≢ p
    → s ≢ u
    → u ≢ t
    → s ≢ t
    → test_complex_scenario p s u t ≡ true
unfolding test_complex_scenario
test_complex-passes p s u t sp up tp su ut st = simp (
  compile-eq-merged (complex p s u t),
  ==_refl u,
  ==_refl s,
  ==_refl t,
  ==-ne s p sp,
  ==-ne u p up,
  ==-ne t p tp,
  ==-ne s u su,
  ==-ne u s (λ e. su (sym e)),
  ==-ne u t ut,
  ==-ne t u (λ e. ut (sym e)),
  ==-ne s t st,
  ==-ne t s (λ e. st (sym e)),
)
