-- ===== src/Outcome/Keeps.antt =====
-- Invariants of methods that may panic: one rule for each way to build a method.
use seashell.Prelude.{Bool, true, false, Option, none, some, if◌then◌else◌}
use seashell.Outcome.{Result, ok, panic, Exec, continue, ◌>>=◌, pure, lift}

-- The method keeps `P`, whether it returns or panics.
pub record Keeps {ℓ κ μ} {S : Type ℓ} {A : Type κ} (P : S → Type μ) (m : Exec S A)
    : Type (ℓ ⊔ μ) where
  pub at : (s : S) → P s → P (m s).1

module _ {ℓ κ μ} {S : Type ℓ} {A : Type κ} {P : S → Type μ} where
  pub Keeps-lift : (r : Result A) → Keeps P (lift r)
  Keeps-lift r = record { at = λ s h. h }

  pub Keeps-pure : (a : A) → Keeps P (pure a)
  Keeps-pure a = record { at = λ s h. h }

  pub Keeps-if : (b : Bool) (m n : Exec S A) → Keeps P m → Keeps P n → Keeps P (if b then m else n)
  Keeps-if true m n km kn = km
  Keeps-if false m n km kn = kn

module _ {ℓ κ ν μ} {S : Type ℓ} {A : Type κ} {B : Type ν} {P : S → Type μ} where
  pub continue_rule :
      (r : Result A) (f : A → Exec S B)
      → ((a : A) → Keeps P (f a))
      → (s : S) → P s
      → P (continue r s f).1
  continue_rule (ok a) f kf s h = (kf a).at s h
  continue_rule (panic p) f kf s h = h

  pub Keeps-bind :
      (m : Exec S A) (f : A → Exec S B) → Keeps P m → ((a : A) → Keeps P (f a)) → Keeps P (m >>= f)
  Keeps-bind m f km kf = record {
    at = λ s h. let (r, s') = m s in continue_rule r f kf s' (km.at s h);
  }

  pub Keeps-option :
      (o : Option A) (m : Exec S B) (f : A → Exec S B)
      → Keeps P m
      → ((a : A) → Keeps P (f a))
      → Keeps P (elim o [ none ↦ m | some a ↦ f a ])
  Keeps-option none m f km kf = km
  Keeps-option (some a) m f km kf = kf a
