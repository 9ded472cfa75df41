-- ===== src/Outcome/Triple.antt =====
-- Pre- and postconditions of methods that may panic.
use seashell.Prelude.{◌≡◌, refl, Bool, true, false, if◌then◌else◌}
use mathlib.Core.Path.{subst}
use seashell.Outcome.{Result, ok, panic, Exec, continue, ◌>>=◌, pure, lift, gets}
use seashell.Outcome.Keeps.{Keeps}

-- How a call ended: with a value, or with a panic, of which nothing is said.
abbrev pub Ends {ℓ κ μ} : {S : Type ℓ} {A : Type κ} → (A → S → Type μ) → Result A × S → Type μ
Ends Q (ok a, s) = Q a s
Ends Q (panic p, s) = Unit

-- From a state with `P`, the method panics, or returns a value and a state with `Q`.
pub record Triple {ℓ κ μ ν} {S : Type ℓ} {A : Type κ} (P : S → Type μ) (m : Exec S A)
    (Q : A → S → Type ν) : Type (ℓ ⊔ μ ⊔ ν) where
  pub by : (s : S) → P s → Ends Q (m s)

module _ {ℓ κ μ ν} {S : Type ℓ} {A : Type κ} {P : S → Type μ} {Q : A → S → Type ν} where
  pub Triple-ok : {m : Exec S A} {s t : S} {a : A} → Triple P m Q → P s → m s ≡ (ok a, t) → Q a t
  Triple-ok {s} t h e = subst (Ends Q) e (t.by s h)

  pub Triple-pure : (a : A) → ((s : S) → P s → Q a s) → Triple P (pure a) Q
  Triple-pure a h = record { by = h }

  pub Triple-if :
      (b : Bool) (m n : Exec S A)
      → (b ≡ true → Triple P m Q)
      → (b ≡ false → Triple P n Q)
      → Triple P (if b then m else n) Q
  Triple-if true m n km kn = km refl
  Triple-if false m n km kn = kn refl

  pub Triple-lift :
      (r : Result A) → ((a : A) (s : S) → r ≡ ok a → P s → Q a s) → Triple P (lift r) Q
  Triple-lift (ok a) h = record { by = λ s. h a s refl }
  Triple-lift (panic p) h = record { by = λ s _. tt }

pub Ends-any {ℓ κ μ} :
    {S : Type ℓ} {A : Type κ} (Q : S → Type μ) (r : Result A) (s : S) → Q s → Ends (λ _. Q) (r, s)
Ends-any Q (ok a) s h = h
Ends-any Q (panic p) s h = tt

module _ {ℓ κ μ} {S : Type ℓ} {A : Type κ} {P : S → Type μ} where
  pub Triple-gets : (f : S → A) → Triple P (gets f) (λ _. P)
  Triple-gets f = record { by = λ s h. h }

  -- a function of the state that may panic
  pub Triple-read : (f : S → Result A) → Triple P (λ s. lift (f s) s) (λ _. P)
  Triple-read f = record { by = λ s h. Ends-any P (f s) s h }

Ends-frame {ℓ κ ν π} :
    {S : Type ℓ} {A : Type κ} (Q : A → S → Type ν) (C : Type π) (r : Result A) (s : S)
    → Ends Q (r, s)
    → C
    → Ends (λ a t. Q a t × C) (r, s)
Ends-frame Q C (ok a) s h c = (h, c)
Ends-frame Q C (panic p) s h c = tt

module _ {ℓ κ μ ν π} {S : Type ℓ} {A : Type κ} {P : S → Type μ} {Q : A → S → Type ν} where
  pub Triple-pre :
      {P' : S → Type π} {m : Exec S A} → ((s : S) → P' s → P s) → Triple P m Q → Triple P' m Q
  Triple-pre k t = record { by = λ s h. t.by s (k s h) }

  -- A fact that does not speak of the state is at hand.
  pub Triple-given : {C : Type π} {m : Exec S A} → (C → Triple P m Q) → Triple (λ s. P s × C) m Q
  Triple-given k = record { by = λ s h. (k h.1).by s h.0 }

  -- What does not speak of the state is kept.
  pub Triple-frame :
      (C : Type π) (m : Exec S A) → Triple P m Q → Triple (λ s. P s × C) m (λ a s. Q a s × C)
  Triple-frame C m t = record {
    by = λ s h. let (r, s') = m s in Ends-frame Q C r s' (t.by s h.0) h.1;
  }

module _ {ℓ κ κ' ν π} {S : Type ℓ} {A : Type κ} {B : Type κ'} {Q : A → S → Type ν}
    {R : B → S → Type π} where
  continue-Ends :
      (r : Result A) (s : S) (f : A → Exec S B)
      → Ends Q (r, s)
      → ((a : A) → Triple (Q a) (f a) R)
      → Ends R (continue r s f)
  continue-Ends (ok a) s f h k = (k a).by s h
  continue-Ends (panic p) s f h k = tt

  pub Triple-bind {μ} :
      {P : S → Type μ} (m : Exec S A) (f : A → Exec S B)
      → Triple P m Q
      → ((a : A) → Triple (Q a) (f a) R)
      → Triple P (m >>= f) R
  Triple-bind m f t k = record {
    by = λ s h. let (r, s') = m s in continue-Ends r s' f (t.by s h) k;
  }

pub Ends-map {ℓ κ μ ν} :
    {S : Type ℓ} {A : Type κ} {Q : A → S → Type μ} {R : A → S → Type ν}
    → ((a : A) (s : S) → Q a s → R a s)
    → (p : Result A × S) → Ends Q p
    → Ends R p
Ends-map k (ok a, s) h = k a s h
Ends-map k (panic p, s) h = tt

pub Triple-keeps {ℓ κ μ} :
    {S : Type ℓ} {A : Type κ} {P : S → Type μ} (m : Exec S A) → Keeps P m → Triple P m (λ _. P)
Triple-keeps {P} m k = record { by = λ s h. let (r, s') = m s in Ends-any P r s' (k.at s h) }

-- A method of a part, called on the whole.
pub Ends-lift {ℓ κ μ ν} :
    {S : Type ℓ} {T : Type κ} {A : Type μ} (Q : T → Type ν) (put : S → T) (r : Result A) (s : S)
    → Ends (λ _ t. Q (put t)) (r, s)
    → Ends (λ _. Q) (r, put s)
Ends-lift Q put (ok a) s h = h
Ends-lift Q put (panic p) s h = tt
