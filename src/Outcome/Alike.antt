-- ===== src/Outcome/Alike.antt =====
-- Methods that cannot tell related states apart: one rule for each way to build a method.
use mathlib.Core.Path.{subst}
use seashell.Prelude.{◌≡◌, refl, Bool, true, false, Option, none, some, if◌then◌else◌}
use seashell.Outcome.{Result, ok, panic, Exec, continue, ◌>>=◌, pure, lift}

-- The outcomes are the same, and the states are related again.
abbrev pub Related {ℓ κ μ} :
    {S : Type ℓ} {A : Type κ} → (S → S → Type μ) → Result A × S → Result A × S → Type (κ ⊔ μ)
Related R (r, s) (r', s') = (r ≡ r') × R s s'

-- The method gives the same outcome in related states, and leaves related states.
pub record Blind {ℓ κ μ} {S : Type ℓ} {A : Type κ} (R : S → S → Type μ) (m : Exec S A)
    : Type (ℓ ⊔ κ ⊔ μ) where
  pub at : (s t : S) → R s t → Related R (m s) (m t)

module _ {ℓ κ μ} {S : Type ℓ} {A : Type κ} {R : S → S → Type μ} where
  pub Blind-lift : (r : Result A) → Blind R (lift r)
  Blind-lift r = record { at = λ s t h. (refl, h) }

  pub Blind-pure : (a : A) → Blind R (pure a)
  Blind-pure a = record { at = λ s t h. (refl, h) }

  pub Blind-if : (b : Bool) (m n : Exec S A) → Blind R m → Blind R n → Blind R (if b then m else n)
  Blind-if true m n bm bn = bm
  Blind-if false m n bm bn = bn

  -- the state is only read
  pub Blind-read :
      (f : S → Result A) → ((s t : S) → R s t → f s ≡ f t) → Blind R (λ s. lift (f s) s)
  Blind-read f same = record { at = λ s t h. (same s t h, h) }

module _ {ℓ κ ν μ} {S : Type ℓ} {A : Type κ} {B : Type ν} {R : S → S → Type μ} where
  continue_same :
      (r : Result A) (f : A → Exec S B)
      → ((a : A) → Blind R (f a))
      → (s t : S) → R s t
      → Related R (continue r s f) (continue r t f)
  continue_same (ok a) f bf s t h = (bf a).at s t h
  continue_same (panic p) f bf s t h = (refl, h)

  pub continue_Related :
      (p q : Result A × S) (f : A → Exec S B)
      → Related R p q
      → ((a : A) → Blind R (f a))
      → Related R (continue p.0 p.1 f) (continue q.0 q.1 f)
  continue_Related (r, s) (r', t) f (e, h) bf =
      subst (λ (x : Result A). Related R (continue r s f) (continue x t f)) e
        (continue_same r f bf s t h)

  pub Blind-bind :
      (m : Exec S A) (f : A → Exec S B) → Blind R m → ((a : A) → Blind R (f a)) → Blind R (m >>= f)
  Blind-bind m f bm bf = record { at = λ s t h. continue_Related (m s) (m t) f (bm.at s t h) bf }

  pub Blind-option :
      (o : Option A) (m : Exec S B) (f : A → Exec S B)
      → Blind R m
      → ((a : A) → Blind R (f a))
      → Blind R (elim o [ none ↦ m | some a ↦ f a ])
  Blind-option none m f bm bf = bm
  Blind-option (some a) m f bm bf = bf a
