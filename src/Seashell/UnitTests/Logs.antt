-- ===== src/Seashell/UnitTests/Logs.antt =====
-- crates/seashell-core/tests: what the integration tests read from the log lines.
use Prim.Native.Char.{code}
use Prim.Native.String.{String, [] as end_of_text, ◌∷◌ as ◌then◌, len, slice}
use text.Mathlib.Text.{◌==◌ as str_eq}
use mathlib.Core.Option.{get_or}
use seashell.Prelude.{
  ℕ, ◌+◌, ◌-◌, ◌*◌, ◌^◌, Bool, true, false, ◌&&◌, ◌||◌, ◌==◌, Option, none, some, List, [], ◌∷◌,
  ltb, set, replicate, if◌then◌else◌,
}
use seashell.Prelude.Int.{ℤ, pos, negsuc, as_i64}
use seashell.Instruction.{Pubkey}
use seashell.Sdk.{Clock}

-- `text.strip_prefix(prefix)`
abbrev strip_prefix : String → String → Option String
strip_prefix text prefix =
    if str_eq (slice text 0 (len prefix)) prefix
    then some (slice text (len prefix) (len text))
    else none

-- What follows the last occurrence of a separator that does not overlap itself.
abbrev after_last : String → String → Option String
after_last separator end_of_text = none
after_last separator (c then text) = elim (after_last separator text) [
  | some rest ↦ some rest
  | none ↦ strip_prefix (c then text) separator
]

-- `line.split("Program log: ").last()`
abbrev logged : String → String
logged line = get_or (after_last "Program log: " line) line

-- the assertions in the loop over the zipped texts and keys
abbrev pub in_order : (Pubkey → String) → List String → List Pubkey → Bool
in_order display (line ∷ lines) (k ∷ keys) =
    str_eq (logged line) (display k) && in_order display lines keys
in_order display lines keys = true

-- `lines.iter().skip(1)`
abbrev pub skip_1 : List String → List String
skip_1 [] = []
skip_1 (line ∷ lines) = lines

-- `text.split_once(separator)`
abbrev split_once : String → String → Option (String × String)
split_once separator end_of_text = none
split_once separator (c then text) = elim (strip_prefix (c then text) separator) [
  | some rest ↦ some (end_of_text, rest)
  | none ↦ elim (split_once separator text) [
    | none ↦ none
    | some (before, rest) ↦ some (c then before, rest)
  ]
]

abbrev digits : ℕ → String → Option ℕ
digits n end_of_text = some n
digits n (c then text) =
    let rest = digits (10 * n + (code c - 48)) text in
    if ltb (code c) 48 || ltb 57 (code c) then none else rest

-- `text.parse()` at `u64`: decimal digits, after a plus sign or none
abbrev parse_digits : String → Option ℕ
parse_digits end_of_text = none
parse_digits (c then text) = digits 0 (c then text)

abbrev parse_u64 : String → Option ℕ
parse_u64 text = elim (parse_digits (get_or (strip_prefix text "+") text)) [
  | none ↦ none
  | some n ↦ if ltb n (2 ^ 64) then some n else none
]

-- the position of a name in `vals`
abbrev place : String → Option ℕ
place name =
    if str_eq name "Slot"
    then some 0
    else if str_eq name "Epoch"
    then some 1
    else if str_eq name "Epoch Start Timestamp"
    then some 2
    else if str_eq name "Leader Schedule Epoch"
    then some 3
    else if str_eq name "Timestamp"
    then some 4
    else none

-- `text.split(':').next()`
abbrev before_colon : String → String
before_colon text = elim (split_once ":" text) [ none ↦ text | some (before, rest) ↦ before ]

abbrev store : Option ℕ → Option ℕ → List ℕ → List ℕ
store (some i) (some n) vals = set vals i n
store i n vals = vals

-- the body of the loop in `parse_logs`
abbrev parse_log : String → List ℕ → List ℕ
parse_log log vals = elim (strip_prefix log "Program log: ") [
  | none ↦ vals
  | some v ↦ elim (split_once ": " v) [
    | none ↦ vals
    | some (name, n) ↦ store (place (before_colon v)) (parse_u64 n) vals
  ]
]

abbrev parse_each : List String → List ℕ → List ℕ
parse_each [] vals = vals
parse_each (log ∷ lines) vals = parse_each lines (parse_log log vals)

unfoldable pub parse_logs : List String → List ℕ
parse_logs lines = parse_each lines (replicate 5 0)

abbrev int_eq : ℤ → ℤ → Bool
int_eq (pos a) (pos b) = a == b
int_eq (negsuc a) (negsuc b) = a == b
int_eq _ _ = false

-- the five values, those of `expected_clock`
abbrev pub are_expected : List ℕ → Clock → Bool
are_expected (slot ∷ epoch ∷ epoch_start ∷ leader ∷ timestamp ∷ []) expected =
    (slot == expected.slot)
    && (epoch == expected.epoch)
    && int_eq (as_i64 epoch_start) expected.epoch_start_timestamp
    && (leader == expected.leader_schedule_epoch)
    && int_eq (as_i64 timestamp) expected.unix_timestamp
are_expected vals expected = false
