-- ===== src/Seashell/Environment/Deployed.antt =====
-- Programs that are looked for in a directory.
use Prim.Native.String.{String}
use seashell.Prelude.{
  ◌≡◌, refl, ap, ◌∙◌, Bool, true, false, Option, none, some, List, [], ◌∷◌, ◌++◌, map, any, arith,
}
use seashell.Outcome.{ok, Exec, ◌>>=◌, pure}
use seashell.Instruction.{Pubkey, Bytes}
use seashell.Sdk.{Sdk}
use seashell.Seashell.{Seashell, load_program_from_bytes}
use seashell.Seashell.Environment.{
  Environment, DirEntry, Outcome, is_program, load_entries, program_directory,
  load_program_from_environment,
}

-- No element passes the test: neither the first nor one of the others.
any_none_cons {ℓ} :
    {A : Type ℓ} (p : A → Bool) (x : A) (xs : List A)
    → any p (x ∷ xs) ≡ false
    → (p x ≡ false) × (any p xs ≡ false)
any_none_cons p x xs h = ground arith

module _ (sdk : Sdk) (program_name : String) (program_id : Pubkey) where
  -- Entries of other names are passed over.
  load_entries-others :
      (before : List DirEntry) (rest : List (Option DirEntry)) (s : Seashell sdk)
      → any (is_program program_name) before ≡ false
      → load_entries sdk program_name program_id (map some before ++ rest) s
        ≡ load_entries sdk program_name program_id rest s
  unfolding load_entries
  load_entries-others [] rest s h = refl
  load_entries-others (entry ∷ before) rest s h =
      let (other, others) = any_none_cons (is_program program_name) entry before h in
      rw other (load_entries-others before rest s others)

  load_entries-none :
      (entries : List DirEntry) (s : Seashell sdk)
      → any (is_program program_name) entries ≡ false
      → load_entries sdk program_name program_id (map some entries) s ≡ (ok none, s)
  unfolding load_entries
  load_entries-none [] s h = refl
  load_entries-none (entry ∷ entries) s h =
      let (other, others) = any_none_cons (is_program program_name) entry entries h in
      rw other (load_entries-none entries s others)

  load_entries-one :
      (before after : List DirEntry) (entry : DirEntry) (bytes : Bytes) (s : Seashell sdk)
      → is_program program_name entry ≡ true
      → entry.contents ≡ some bytes
      → any (is_program program_name) before ≡ false
      → any (is_program program_name) after ≡ false
      → load_entries sdk program_name program_id
          (map some before ++ (some entry ∷ map some after))
          s
        ≡ (load_program_from_bytes sdk program_id bytes >>= λ _. pure none) s
  unfolding load_entries
  load_entries-one before after entry bytes s named read h h' =
      let same : load_entries sdk program_name program_id (map some after) ≡ pure none =
        λ i t. load_entries-none after t h' i in
      load_entries-others before (some entry ∷ map some after) s h
      ∙ rw (named, read)
          (ap
            (λ (k : Exec (Seashell sdk) (Outcome sdk)).
              (load_program_from_bytes sdk program_id bytes >>= λ _. k) s)
            same)

  module _ (env : Environment) (directory : String) (s : Seashell sdk)
      (found : program_directory env ≡ ok (some directory)) where
    -- If the directory can be listed and one entry has the program's name and can be read, its
    -- bytes are loaded as the program, whatever else the directory has; then there is no error.
    pub load_program_found :
        (before after : List DirEntry) (entry : DirEntry) (bytes : Bytes)
        → env.read_dir directory ≡ some (map some before ++ (some entry ∷ map some after))
        → is_program program_name entry ≡ true
        → entry.contents ≡ some bytes
        → any (is_program program_name) before ≡ false
        → any (is_program program_name) after ≡ false
        → load_program_from_environment sdk env program_name program_id s
          ≡ (load_program_from_bytes sdk program_id bytes >>= λ _. pure none) s
    unfolding load_program_from_environment
    load_program_found before after entry bytes listed named read h h' =
        rw (found, listed) (load_entries-one before after entry bytes s named read h h')

    -- If the directory can be listed and no entry has the program's name, nothing is loaded or
    -- changed, and no error is returned.
    pub load_program_missing :
        (entries : List DirEntry)
        → env.read_dir directory ≡ some (map some entries)
        → any (is_program program_name) entries ≡ false
        → load_program_from_environment sdk env program_name program_id s ≡ (ok none, s)
    unfolding load_program_from_environment
    load_program_missing entries listed h = rw (found, listed) (load_entries-none entries s h)
