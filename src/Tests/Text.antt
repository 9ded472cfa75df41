-- ===== src/Tests/Text.antt =====
-- Text forms for the small instance: a key as so many letters, bytes as their text forms, each with
-- its end marked.
use Prim.Native.Char.{code}
use Prim.Native.String.{String, [], ◌∷◌}
use mathlib.Core.List.{[] as no_bytes, ◌∷◌ as ◌then◌}
use seashell.Prelude.{ℕ, zero, suc, ◌+◌, ◌≡◌, refl, ap, ◌∙◌, arith, ◌==◌, if◌then◌else◌}
use seashell.Instruction.{Bytes}

abbrev unary : ℕ → String → String
unary zero rest = rest
unary (suc n) rest = "a" ∷ unary n rest

abbrev pub key_text : ℕ → String
key_text n = unary n []

abbrev pub key_of : String → ℕ
key_of [] = 0
key_of (c ∷ s) = suc (key_of s)

-- Base 58 is not decoded: the codes of the letters are added.
abbrev pub sum_of : String → ℕ
sum_of [] = 0
sum_of (c ∷ s) = code c + sum_of s

abbrev pub bytes_text : Bytes → String
bytes_text no_bytes = []
bytes_text (b then bs) = unary b ("b" ∷ bytes_text bs)

abbrev read_bytes : ℕ → String → Bytes
read_bytes n [] = no_bytes
read_bytes n (c ∷ s) = if code c == 98 then (n then read_bytes 0 s) else read_bytes (suc n) s

abbrev pub bytes_of : String → Bytes
bytes_of = read_bytes 0

pub key_of-key_text : (n : ℕ) → key_of (key_text n) ≡ n
key_of-key_text zero = refl
key_of-key_text (suc n) = ap suc (key_of-key_text n)

read_bytes-unary :
    (n b : ℕ) (s : String) → read_bytes n (unary b ("b" ∷ s)) ≡ ((n + b) then read_bytes 0 s)
read_bytes-unary n zero s = ground arith
read_bytes-unary n (suc b) s =
    read_bytes-unary (suc n) b s ∙ ap (λ m. m then read_bytes 0 s) (omega arith)

pub bytes_of-bytes_text : (b : Bytes) → bytes_of (bytes_text b) ≡ b
bytes_of-bytes_text no_bytes = refl
bytes_of-bytes_text (b then bs) =
    read_bytes-unary 0 b (bytes_text bs)
    ∙ ap (λ n. n then bytes_of (bytes_text bs)) (omega arith)
    ∙ ap (λ l. b then l) (bytes_of-bytes_text bs)
