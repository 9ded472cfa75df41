-- ===== src/Outcome.antt =====
-- Panics, and methods that change an object and may panic. What was written before a panic stays
-- written, since destructors run while the stack unwinds, so the state comes back beside it.
pub mod Keeps
pub mod Yields
pub mod Triple
pub mod Alike
use seashell.Prelude.{
  ◌≡◌, refl, ap, ◌∙◌, ◌⊎◌, inl, inr, ℕ, ◌+◌, ◌%◌, ◌^◌, Bool, Option, none, some, List, [], ◌∷◌,
}
use seashell.Prelude.{ltb, if◌then◌else◌}

-- One constructor for each place of the source that can panic.
pub data Panic : Type 0 where
  -- `unwrap` on `None` and on `Err`
  unwrap_none unwrap_err : Panic
  -- `account_must`, `accounts_for_instruction`
  account_not_found : Panic
  account_not_found_for : ℕ → Panic
  -- `Scenario::try_fetch_from_rpc`, `open_read`
  rpc_not_configured failed_to_open : Panic
  -- `Sysvars::get` and `Sysvars::set`
  unknown_sysvar : ℕ → Panic
  -- `load_program_from_bytes_with_loader`
  no_runtime_environment : Panic
  failed_to_load : ℕ → Panic
  -- `load_scenario`, `load_temporary_scenario`
  no_workspace_root no_rpc_url : Panic
  -- `process_instruction`
  failed_to_configure failed_to_borrow : Panic
  -- arithmetic of a build with overflow checks, an index out of bounds
  overflow out_of_bounds : Panic
  -- `unreachable!()`
  unreachable : Panic

pub data Result {ℓ} (A : Type ℓ) : Type ℓ where
  ok : A → Result A
  panic : Panic → Result A

abbrev pub then_ok {ℓ κ} : {A : Type ℓ} {B : Type κ} → Result A → (A → Result B) → Result B
then_ok (ok a) f = f a
then_ok (panic p) f = panic p

pub ok-injective {ℓ} : {A : Type ℓ} {a b : A} → ok a ≡ ok b → a ≡ b
ok-injective e = cc

pub Result-cases {ℓ} :
    {A : Type ℓ} (r : Result A) → ((a : A) × (r ≡ ok a)) ⊎ ((p : Panic) × (r ≡ panic p))
Result-cases (ok a) = inl (a, refl)
Result-cases (panic p) = inr (p, refl)

pub then_ok-eq-ok {ℓ κ} :
    {A : Type ℓ} {B : Type κ} (r : Result A) (f : A → Result B) {b : B}
    → then_ok r f ≡ ok b
    → (a : A) × (r ≡ ok a) × (f a ≡ ok b)
then_ok-eq-ok (ok a) f e = (a, refl, e)
then_ok-eq-ok (panic p) f e = absurd (cc)

-- `option.unwrap()`, `option.expect(p)`
abbrev pub expect {ℓ} : {A : Type ℓ} → Panic → Option A → Result A
expect p none = panic p
expect p (some a) = ok a

pub expect-eq-ok {ℓ} :
    {A : Type ℓ} (p : Panic) (o : Option A) {a : A} → expect p o ≡ ok a → o ≡ some a
expect-eq-ok p none e = cc
expect-eq-ok p (some a) e = cc

-- `iter.map(f).collect()` for an `f` that may panic
abbrev pub map_result {ℓ κ} : {A : Type ℓ} {B : Type κ} → (A → Result B) → List A → Result (List B)
map_result f [] = ok []
map_result f (x ∷ xs) = then_ok (f x) λ y. then_ok (map_result f xs) λ ys. ok (y ∷ ys)

-- `a + b` on `u64`: a build with overflow checks panics, any other wraps.
unfoldable pub add_u64 : Bool → ℕ → ℕ → Result ℕ
add_u64 checks a b =
    if ltb (a + b) (2 ^ 64)
    then ok (a + b)
    else if checks
    then panic overflow
    else ok ((a + b) % 2 ^ 64)

-- A method of an object of type `S`: its result, or a panic, and the object afterwards.
abbrev pub Exec {ℓ κ} : Type ℓ → Type κ → Type (ℓ ⊔ κ)
Exec S A = S → Result A × S

module _ {ℓ κ} {S : Type ℓ} {A : Type κ} where
  abbrev pub pure : A → Exec S A
  pure a s = (ok a, s)

  abbrev pub raise : Panic → Exec S A
  raise p s = (panic p, s)

  abbrev pub lift : Result A → Exec S A
  lift r s = (r, s)

  abbrev pub gets : (S → A) → Exec S A
  gets f s = (ok (f s), s)

module _ {ℓ κ μ} {S : Type ℓ} {A : Type κ} {B : Type μ} where
  abbrev pub continue : Result A → S → (A → Exec S B) → Result B × S
  continue (ok a) s f = f a s
  continue (panic p) s f = (panic p, s)

  infixl 5 ◌>>=◌
  abbrev pub ◌>>=◌ : Exec S A → (A → Exec S B) → Exec S B
  ◌>>=◌ m f s = let (r, s') = m s in continue r s' f

infixl 5 ◌>>◌
abbrev pub ◌>>◌ {ℓ κ} : {S : Type ℓ} {B : Type κ} → Exec S (Unit {0}) → Exec S B → Exec S B
m >> k = m >>= λ _. k

abbrev pub modify {ℓ} : {S : Type ℓ} → (S → S) → Exec S (Unit {0})
modify f s = (ok tt, f s)

-- A `do` block whose first step is known goes on from its outcome.
pub >>=-step {ℓ κ μ} :
    {S : Type ℓ} {A : Type κ} {B : Type μ} (m : Exec S A) (f : A → Exec S B) (s : S) {r : Result A}
    {s' : S}
    → m s ≡ (r, s')
    → (m >>= f) s ≡ continue r s' f
>>=-step m f s e = ap (λ (p : Result _ × _). continue p.0 p.1 f) e

-- The method returns when it is called in this state.
abbrev pub Returns {ℓ κ} : {S : Type ℓ} {A : Type κ} → Exec S A → S → Type (ℓ ⊔ κ)
Returns {S} {A} m s = (a : A) × (s' : S) × (m s ≡ (ok a, s'))

pub Returns-bind {ℓ κ μ} :
    {S : Type ℓ} {A : Type κ} {B : Type μ} (m : Exec S A) (f : A → Exec S B) (s : S)
    → Returns m s
    → ((a : A) (s' : S) → Returns (f a) s')
    → Returns (m >>= f) s
Returns-bind m f s (a, s', e) k = let (b, t, e') = k a s' in (b, t, >>=-step m f s e ∙ e')
