-- ===== src/Outcome/Yields.antt =====
-- What holds of the value that a method returns, if it returns one.
use seashell.Prelude.{◌≡◌}
use mathlib.Core.Path.{subst}
use seashell.Outcome.{Result, ok, panic, Exec, continue, ◌>>=◌, pure}

abbrev pub Good {ℓ κ} : {A : Type ℓ} → (A → Type κ) → Result A → Type κ
Good Q (ok a) = Q a
Good Q (panic p) = Unit

pub record Yields {ℓ κ μ} {S : Type ℓ} {A : Type κ} (Q : A → Type μ) (m : Exec S A)
    : Type (ℓ ⊔ μ) where
  pub of : (s : S) → Good Q (m s).0

module _ {ℓ κ μ} {S : Type ℓ} {A : Type κ} {Q : A → Type μ} where
  pub Yields-pure : (a : A) → Q a → Yields Q (pure {S = S} a)
  Yields-pure a h = record { of = λ s. h }

  pub Yields-ok : (m : Exec S A) → Yields Q m → {s t : S} {a : A} → m s ≡ (ok a, t) → Q a
  Yields-ok m y {s} e = subst (λ (p : Result A × S). Good Q p.0) e (y.of s)

module _ {ℓ κ ν μ π} {S : Type ℓ} {A : Type κ} {B : Type ν} {P : A → Type π} {Q : B → Type μ} where
  continue-Good :
      (r : Result A) (f : A → Exec S B) (s : S)
      → Good P r
      → ((a : A) → P a → Yields Q (f a))
      → Good Q (continue r s f).0
  continue-Good (ok a) f s h k = (k a h).of s
  continue-Good (panic p) f s h k = tt

  pub Yields-bind :
      (m : Exec S A) (f : A → Exec S B)
      → Yields P m
      → ((a : A) → P a → Yields Q (f a))
      → Yields Q (m >>= f)
  Yields-bind m f y k = record { of = λ s. let (r, s') = m s in continue-Good r f s' (y.of s) k }

any-Good {ℓ} : {A : Type ℓ} (r : Result A) → Good (λ _. Unit {0}) r
any-Good (ok a) = tt
any-Good (panic p) = tt

-- nothing said of the first step
pub Yields-any {ℓ κ} : {S : Type ℓ} {A : Type κ} (m : Exec S A) → Yields (λ _. Unit {0}) m
Yields-any m = record { of = λ s. any-Good (m s).0 }
