-- ===== src/Prelude/Map.antt =====
-- Rust's `HashMap` and `IndexMap` over keys that are numbers: an association list in insertion
-- order. Statements about a `HashMap` use lookups only, since its order is not specified.
use Prim.Native.Nat.{ℕ}
use mathlib.Core.Path.{◌≡◌, refl}
use mathlib.Core.Logic.{◌≢◌}
use mathlib.Core.Bool.{Bool}
use mathlib.Core.Option.{Option, none, some}
use mathlib.Core.List.{List, [], ◌∷◌}
use native.Mathlib.Omega.{arith}
use seashell.Prelude.Tests.{◌==◌, if◌then◌else◌}

abbrev pub Map {ℓ} : Type ℓ → Type ℓ
Map V = List (ℕ × V)

module _ {ℓ} {V : Type ℓ} where
  -- `map.get(k)`
  abbrev pub lookup : ℕ → Map V → Option V
  lookup k [] = none
  lookup k ((j, v) ∷ m) = if k == j then some v else lookup k m

  -- `map.insert(k, v)`
  abbrev pub insert : ℕ → V → Map V → Map V
  insert k v [] = (k, v) ∷ []
  insert k v (e ∷ m) = if k == e.0 then (k, v) ∷ m else e ∷ insert k v m

  -- `map.retain(|_, v| keep(v))`
  abbrev pub retain : (V → Bool) → Map V → Map V
  retain keep [] = []
  retain keep (e ∷ m) = let rest = retain keep m in if keep e.1 then e ∷ rest else rest

  -- `iter.collect()` into a map: a later pair replaces an earlier one with its key
  abbrev pub collect_into : Map V → List (ℕ × V) → Map V
  collect_into m [] = m
  collect_into m ((k, v) ∷ l) = collect_into (insert k v m) l

  -- No key stands twice.
  abbrev pub HasDistinctKeys : Map V → Type ℓ
  HasDistinctKeys [] = Unit
  HasDistinctKeys ((k, v) ∷ m) = (lookup k m ≡ none) × HasDistinctKeys m

-- `map.entry(k).and_modify(f).or_insert(v)`
abbrev pub upsert {ℓ} : {V : Type ℓ} → ℕ → (V → V) → V → Map V → Map V
upsert k f v [] = (k, v) ∷ []
upsert k f v (e ∷ m) = if k == e.0 then (e.0, f e.1) ∷ m else e ∷ upsert k f v m

module _ {ℓ} {V : Type ℓ} where
  pub lookup-insert :
      (j k : ℕ) (v : V) (m : Map V)
      → lookup j (insert k v m) ≡ (if j == k then some v else lookup j m)
  lookup-insert j k v [] = refl
  lookup-insert j k v (e ∷ m) = ground (arith, lookup-insert j k v m)

  pub lookup-insert_self : (k : ℕ) (v : V) (m : Map V) → lookup k (insert k v m) ≡ some v
  lookup-insert_self k v m = ground (arith, lookup-insert k k v m)

  pub lookup-insert_ne :
      (j k : ℕ) (v : V) (m : Map V) → j ≢ k → lookup j (insert k v m) ≡ lookup j m
  lookup-insert_ne j k v m h = ground (arith, lookup-insert j k v m)

  pub insert-HasDistinctKeys :
      (k : ℕ) (v : V) (m : Map V) → HasDistinctKeys m → HasDistinctKeys (insert k v m)
  insert-HasDistinctKeys k v [] h = (refl, tt)
  insert-HasDistinctKeys k v (e ∷ m) h =
      ground (arith, insert-HasDistinctKeys k v m h.1, lookup-insert e.0 k v m)

  lookup-retain-none :
      (keep : V → Bool) (k : ℕ) (m : Map V) → lookup k m ≡ none → lookup k (retain keep m) ≡ none
  lookup-retain-none keep k [] h = refl
  lookup-retain-none keep k (e ∷ m) h = ground (arith, lookup-retain-none keep k m)

  pub retain-HasDistinctKeys :
      (keep : V → Bool) (m : Map V) → HasDistinctKeys m → HasDistinctKeys (retain keep m)
  retain-HasDistinctKeys keep [] h = tt
  retain-HasDistinctKeys keep (e ∷ m) h =
      ground (arith, retain-HasDistinctKeys keep m h.1, lookup-retain-none keep e.0 m)

  -- What the test lets through of what a lookup finds.
  abbrev pub kept : (V → Bool) → Option V → Option V
  kept keep none = none
  kept keep (some v) = if keep v then some v else none

  pub lookup-retain :
      (keep : V → Bool) (k : ℕ) (m : Map V)
      → HasDistinctKeys m
      → lookup k (retain keep m) ≡ kept keep (lookup k m)
  lookup-retain keep k [] h = refl
  lookup-retain keep k (e ∷ m) h =
      ground (arith, lookup-retain keep k m h.1, lookup-retain-none keep e.0 m)

  pub lookup-collect_into-none :
      (k : ℕ) (l m : Map V) → lookup k l ≡ none → lookup k (collect_into m l) ≡ lookup k m
  lookup-collect_into-none k [] m h = refl
  lookup-collect_into-none k (e ∷ l) m h =
      ground (arith, lookup-collect_into-none k l (insert e.0 e.1 m), lookup-insert k e.0 e.1 m)

  -- The first of two, where there is one.
  abbrev pub or_else : Option V → Option V → Option V
  or_else (some v) o = some v
  or_else none o = o

  -- Of pairs with distinct keys, collecting keeps each.
  pub lookup-collect_into :
      (k : ℕ) (l m : Map V)
      → HasDistinctKeys l
      → lookup k (collect_into m l) ≡ or_else (lookup k l) (lookup k m)
  lookup-collect_into k [] m h = refl
  lookup-collect_into k (e ∷ l) m h =
      ground (arith, lookup-collect_into k l (insert e.0 e.1 m) h.1, lookup-insert k e.0 e.1 m)

  pub collect_into-HasDistinctKeys :
      (l m : Map V) → HasDistinctKeys m → HasDistinctKeys (collect_into m l)
  collect_into-HasDistinctKeys [] m h = h
  collect_into-HasDistinctKeys (e ∷ l) m h =
      collect_into-HasDistinctKeys l (insert e.0 e.1 m) (insert-HasDistinctKeys e.0 e.1 m h)

  abbrev pub found_or : Option V → (V → V) → V → V
  found_or none f v = v
  found_or (some w) f v = f w

  pub lookup-upsert :
      (j k : ℕ) (f : V → V) (v : V) (m : Map V)
      → lookup j (upsert k f v m)
        ≡ (if j == k then some (found_or (lookup k m) f v) else lookup j m)
  lookup-upsert j k f v [] = refl
  lookup-upsert j k f v (e ∷ m) = ground (arith, lookup-upsert j k f v m)
