-- ===== src/Prelude/Slices.antt =====
-- Little-endian numbers and slices of bytes, as the standard library of Rust has them.
use Prim.Native.Nat.{ℕ, zero, suc, ◌+◌, ◌-◌, ◌*◌, ◌/◌, ◌%◌, ◌^◌, ◌<◌}
use mathlib.Core.Path.{◌≡◌}
use mathlib.Core.Bool.{not, ◌&&◌}
use mathlib.Core.Option.{Option, none, some}
use mathlib.Core.List.{List, [], ◌∷◌, ◌++◌}
use native.Mathlib.Omega.{arith}
use seashell.Prelude.Tests.{◌==◌, ltb, if◌then◌else◌}
use seashell.Prelude.Lists.{length}

-- `n.to_le_bytes()` of a number that is `width` bytes wide
abbrev pub to_le_bytes : ℕ → ℕ → List ℕ
to_le_bytes zero n = []
to_le_bytes (suc width) n = (n % 256) ∷ to_le_bytes width (n / 256)

-- `from_le_bytes(bytes)`
abbrev pub from_le_bytes : List ℕ → ℕ
from_le_bytes [] = 0
from_le_bytes (b ∷ bytes) = b + 256 * from_le_bytes bytes

module _ {ℓ} {A : Type ℓ} where
  abbrev pub take : ℕ → List A → List A
  take zero l = []
  take (suc n) [] = []
  take (suc n) (x ∷ l) = x ∷ take n l

  abbrev pub drop : ℕ → List A → List A
  drop zero l = l
  drop (suc n) [] = []
  drop (suc n) (x ∷ l) = drop n l

  -- `data[first..last]`, unless it is out of range
  abbrev pub slice : ℕ → ℕ → List A → Option (List A)
  slice first last l =
      if not (ltb last first) && not (ltb (length l) last)
      then some (take (last - first) (drop first l))
      else none

  -- `data[first..last].copy_from_slice(source)`, unless it is out of range or of another length
  abbrev pub copy_from_slice : ℕ → ℕ → List A → List A → Option (List A)
  copy_from_slice first last source l =
      if not (ltb last first) && not (ltb (length l) last) && (length source == last - first)
      then some (take first l ++ source ++ drop last l)
      else none

-- A number that fits is read back.
pub from_le_bytes-to_le_bytes :
    (width n : ℕ) → n < 256 ^ width → from_le_bytes (to_le_bytes width n) ≡ n
from_le_bytes-to_le_bytes zero n h = omega arith
from_le_bytes-to_le_bytes (suc width) n h =
    let power : 256 ^ suc width ≡ 256 * 256 ^ width = omega arith in
    let rest : from_le_bytes (to_le_bytes width (n / 256)) ≡ n / 256 =
      from_le_bytes-to_le_bytes width (n / 256) (omega arith) in
    omega arith
