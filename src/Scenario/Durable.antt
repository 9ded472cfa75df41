-- ===== src/Scenario/Durable.antt =====
-- Scenarios that a file was loaded into: what keeps them ready to be saved.
use Prim.Native.String.{String}
use mathlib.Core.Option
use mathlib.Core.Path.{subst}
use seashell.Prelude.{
  ℕ, ◌≡◌, refl, ap, inl, inr, Bool-cases, ◌∙◌, Bool, true, false, Option, some, List, [], ◌∷◌,
  arith,
}
use seashell.Prelude.Map.{
  Map, lookup, collect_into, HasDistinctKeys, insert-HasDistinctKeys, lookup-collect_into,
  collect_into-HasDistinctKeys,
}
use seashell.Outcome.{Result, then_ok, ok, panic, ok-injective, Result-cases}
use seashell.Instruction.{Pubkey}
use seashell.Sdk.{Sdk, Account}
use seashell.Files.{Files, exists}
use seashell.Scenario.{Scenario, insert_account, try_fetch_from_rpc}
use seashell.Scenario.Persist.{map_values, read_json_gz, read_entries, from_file}
use seashell.Scenario.Fetch.{cache, fetch_rule}

module _ {ℓ κ} {V : Type ℓ} {W : Type κ} where
  pub lookup-map_values :
      (f : V → W) (k : ℕ) (m : Map V) → lookup k (map_values f m) ≡ Option.map f (lookup k m)
  lookup-map_values f k [] = refl
  lookup-map_values f k (e ∷ m) = ground (arith, lookup-map_values f k m)

  pub map_values-HasDistinctKeys :
      (f : V → W) (m : Map V) → HasDistinctKeys m → HasDistinctKeys (map_values f m)
  map_values-HasDistinctKeys f [] h = tt
  map_values-HasDistinctKeys f (e ∷ m) h =
      (lookup-map_values f e.0 m ∙ ap (Option.map f) h.0, map_values-HasDistinctKeys f m h.1)

pub lookup-collected {ℓ} :
    {V : Type ℓ} (k : ℕ) (l : Map V) → HasDistinctKeys l → lookup k (collect_into [] l) ≡ lookup k l
lookup-collected k l h = ground (arith, lookup-collect_into k l [] h)

module _ (sdk : Sdk) where
  open sdk use {Shared, from_account}

  -- The map was read, and looks up like `m`.
  abbrev pub Holds : Result (Map Shared) → Map Shared → Type 0
  Holds (ok n) m = (k : Pubkey) → lookup k n ≡ lookup k m
  Holds (panic p) m = ⊥

  -- A scenario loaded from `path`: as long as it is not marked, the file holds its accounts.
  pub record IsDurable (path : String) (fs : Files) (s : Scenario sdk) : Type 0 where
    pub persists : s.should_persist ≡ true
    pub located : s.path ≡ some path
    pub distinct : HasDistinctKeys s.entries
    pub synced : s.dirty ≡ false → Holds (read_entries sdk path fs) s.entries

  -- A scenario with a node, or without one: what `from_file_with_rpc` adds to `from_file`.
  abbrev pub with_client : Option sdk.RpcClient → Scenario sdk → Scenario sdk
  with_client client s = record s { rpc_client = client }

  -- the calls that change a scenario
  pub data Call : Type 0 where
    fetch : Pubkey → Call
    insert_call : Pubkey → Shared → Call

  unfoldable pub run : List Call → Scenario sdk → Scenario sdk
  run [] s = s
  run (fetch k ∷ calls) s = run calls (try_fetch_from_rpc sdk k s).1
  run (insert_call k x ∷ calls) s = run calls (insert_account sdk k x s)

  module _ (path : String) (fs : Files) where
    cache-IsDurable :
        (k : Pubkey) (s : Scenario sdk) (x : Shared)
        → IsDurable path fs s
        → IsDurable path fs (cache sdk k x s)
    cache-IsDurable k s x h = record {
      persists = h.persists;
      located = h.located;
      distinct = insert-HasDistinctKeys k x s.entries h.distinct;
      synced = λ e. cc;
    }

    pub fetch-IsDurable :
        (k : Pubkey) (s : Scenario sdk)
        → IsDurable path fs s
        → IsDurable path fs (try_fetch_from_rpc sdk k s).1
    fetch-IsDurable k s h =
        fetch_rule sdk k (IsDurable path fs)
          (λ s' c d. record {
            persists = d.persists;
            located = d.located;
            distinct = d.distinct;
            synced = d.synced;
          })
          (cache-IsDurable k) s h

    pub run-IsDurable :
        (calls : List Call) (s : Scenario sdk)
        → IsDurable path fs s
        → IsDurable path fs (run calls s)
    unfolding run insert_account
    run-IsDurable [] s h = h
    run-IsDurable (fetch k ∷ calls) s h =
        run-IsDurable calls (try_fetch_from_rpc sdk k s).1 (fetch-IsDurable k s h)
    run-IsDurable (insert_call k x ∷ calls) s h =
        run-IsDurable calls (cache sdk k x s) (cache-IsDurable k s x h)

    collected-HasDistinctKeys :
        (r : Result (Map Account)) {m : Map Shared}
        → then_ok r (λ accounts. ok (collect_into [] (map_values from_account accounts))) ≡ ok m
        → HasDistinctKeys m
    collected-HasDistinctKeys (ok accounts) e =
        subst HasDistinctKeys (ok-injective e)
          (collect_into-HasDistinctKeys (map_values from_account accounts) [] tt)
    collected-HasDistinctKeys (panic p) e = cc

    pub read_entries-HasDistinctKeys :
        {m : Map Shared} → read_entries sdk path fs ≡ ok m → HasDistinctKeys m
    unfolding read_entries
    read_entries-HasDistinctKeys {m} e = elim (Bool-cases (exists (fs.entry path))) [
      | inl there ↦ collected-HasDistinctKeys (read_json_gz sdk path fs) (rw there at e)
      | inr missing ↦
          let e' : ok [] ≡ ok m = rw missing at e in subst HasDistinctKeys (ok-injective e') tt
    ]

    pub from_file-IsDurable :
        (allow : Bool) {s : Scenario sdk} → from_file sdk path allow fs ≡ ok s → IsDurable path fs s
    unfolding from_file
    from_file-IsDurable allow {s} e = elim (Result-cases (read_entries sdk path fs)) [
      | inl (m, read) ↦ subst (IsDurable path fs) (ok-injective (rw read at e)) (record {
        persists = refl;
        located = refl;
        distinct = read_entries-HasDistinctKeys read;
        synced = λ _. rw read (λ k. refl);
      })
      | inr (p, failed) ↦ absurd (cc)
    ]

    -- A node does not matter for that.
    pub with_client-IsDurable :
        (client : Option sdk.RpcClient) (s : Scenario sdk)
        → IsDurable path fs s
        → IsDurable path fs (with_client client s)
    with_client-IsDurable client s h = record {
      persists = h.persists;
      located = h.located;
      distinct = h.distinct;
      synced = h.synced;
    }
