-- ===== src/Prelude/Order.antt =====
-- Maps as a `HashMap` has them: the order of the entries tells nothing.
use Prim.Native.Nat.{ℕ}
use mathlib.Core.Path.{◌≡◌, refl, ap, ◌∙◌, sym, subst}
use mathlib.Core.Option.{some}
use mathlib.Core.List.{◌∷◌, Permᴰ}
use native.Mathlib.Omega.{arith}
use seashell.Prelude.Tests.{◌==◌, if◌then◌else◌}
use seashell.Prelude.Map.{Map, lookup, HasDistinctKeys}

module _ {ℓ} {V : Type ℓ} where
  swapped :
      (a b : ℕ × V) (l : Map V)
      → HasDistinctKeys (a ∷ b ∷ l)
      → HasDistinctKeys (b ∷ a ∷ l) × ((k : ℕ) → lookup k (b ∷ a ∷ l) ≡ lookup k (a ∷ b ∷ l))
  swapped a b l h = ((ground arith, (ground arith, h.1.1)), λ k. ground arith)

  -- Entries with distinct keys are found in any order.
  pub lookup-any_order :
      {m n : Map V}
      → Permᴰ m n
      → HasDistinctKeys m
      → HasDistinctKeys n × ((k : ℕ) → lookup k n ≡ lookup k m)
  lookup-any_order Permᴰ.nil h = (tt, λ k. refl)
  lookup-any_order (Permᴰ.cons {a} {b} {l₁} {l₂} e p) (fresh, h) =
      let (h', same) = lookup-any_order p h in
      let key : a.0 ≡ b.0 = ap (λ (w : ℕ × V). w.0) e in
      (
        (ap (λ j. lookup j l₂) (sym key) ∙ same a.0 ∙ fresh, h'),
        λ k i. if k == (sym e i).0 then some (sym e i).1 else same k i,
      )
  lookup-any_order (Permᴰ.swap {a} {b} {a'} {b'} {l} e f) h =
      subst
        (λ (w : (ℕ × V) × (ℕ × V)).
          HasDistinctKeys (w.0 ∷ w.1 ∷ l)
          × ((k : ℕ) → lookup k (w.0 ∷ w.1 ∷ l) ≡ lookup k (a ∷ b ∷ l)))
        (λ i. (f i, e i)) (swapped a b l h)
  lookup-any_order (Permᴰ.trans p q) h =
      let (h', same) = lookup-any_order p h in
      let (h'', same') = lookup-any_order q h' in (h'', λ k. same' k ∙ same k)
