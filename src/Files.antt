-- ===== src/Files.antt =====
-- The file system, as far as crates/seashell-core/src/scenario.rs uses it through `std::fs`.
use Prim.Native.String.{String}
use text.Mathlib.Text.{◌==◌ as str_eq}
use text.Mathlib.TextPositions.{eq_refl}
use seashell.Prelude.{◌≡◌, Bool, true, false, if◌then◌else◌}
use seashell.Instruction.{Bytes}

-- What stands at a path: nothing, something that cannot be opened for reading, or a file.
pub data Entry : Type 0 where
  absent unreadable : Entry
  file : Bytes → Entry

-- `can_write` says whether opening the path with `write`, `truncate` and `create` succeeds once
-- `create_dir_all` has been tried on its parent.
pub record Files : Type 0 where
  pub entry : String → Entry
  pub can_write : String → Bool

-- `path.exists()`
abbrev pub exists : Entry → Bool
exists absent = false
exists unreadable = true
exists (file b) = true

-- the file truncated and written anew
unfoldable pub write_file : String → Bytes → Files → Files
write_file p b fs = record fs { entry = λ q. if str_eq q p then file b else fs.entry q }

pub entry-write_file : (p : String) (b : Bytes) (fs : Files) → (write_file p b fs).entry p ≡ file b
unfolding write_file
entry-write_file p b fs = rw (eq_refl p)
