-- ===== src/Seashell/Processing/Memoize.antt =====
-- What is in the database after a memoized instruction: the accounts that were reported.
use mathlib.Core.Logic.{◌≢◌}
use mathlib.Core.Option.{some-injective}
use native.Mathlib.Decide.{ℕ_discrete}
use seashell.Prelude.{
  ℕ, ◌≡◌, refl, sym, ap, ◌∙◌, true, false, ◌⊎◌, inl, inr, Option, none, some, List, [], ◌∷◌, arith,
}
use seashell.Prelude.Map.{lookup, lookup-insert}
use seashell.Outcome.{pure, expect-eq-ok, failed_to_borrow}
use seashell.Outcome.Triple.{
  Triple, Triple-pure, Triple-if, Triple-lift, Triple-bind, Triple-pre, Triple-given, Ends-any,
}
use seashell.Instruction.{Pubkey}
use seashell.Sdk.{Sdk, Account}
use seashell.Sysvars.{is_sysvar}
use seashell.AccountsDb
use seashell.AccountsDb.{AccountsDb}
use seashell.Seashell.{Seashell, set_account_from_account_shared_data}
use seashell.Seashell.Process.{memoized, write_back, post_account, post_accounts}

other_of {ℓ κ} : {A : Type ℓ} {B : Type κ} → ¬ A → A ⊎ B → B
other_of n (inl a) = absurd (n a)
other_of n (inr b) = b

module _ (sdk : Sdk) (context : sdk.TransactionContext) (k : Pubkey) (i : ℕ) (x : sdk.Shared)
    (plain : is_sysvar sdk k ≡ false) (found : sdk.find_index_of_account context k ≡ some i)
    (borrowed : sdk.try_borrow context i ≡ some x) where
  open sdk use {Shared, to_account, find_index_of_account, try_borrow}

  abbrev pub Memo : Seashell sdk → Type 0
  Memo t = t.config.memoize ≡ true

  -- The database has the account that the context holds for the key.
  abbrev pub Stored : Seashell sdk → Type 0
  Stored t = lookup k t.accounts_db.accounts ≡ some x

  abbrev borrow_at : Option ℕ → Option Shared
  borrow_at none = none
  borrow_at (some n) = try_borrow context n

  set_account-Stored :
      (j : Pubkey) (y : Shared) (db : AccountsDb sdk)
      → (j ≡ k → y ≡ x)
      → (j ≡ k) ⊎ (lookup k db.accounts ≡ some x)
      → lookup k (AccountsDb.set_account sdk j y db).1.accounts ≡ some x
  unfolding AccountsDb.set_account
  set_account-Stored j y db same h = ground (arith, lookup-insert k j y db.accounts)

  -- Writing back the account of a key stores it if the key is `k`, and keeps it stored if it was.
  memoized-Stored :
      (j : Pubkey) (y : Shared)
      → (j ≡ k → y ≡ x)
      → Triple (λ t. Memo t × ((j ≡ k) ⊎ Stored t)) (memoized sdk j y) (λ _ t. Memo t × Stored t)
  unfolding set_account_from_account_shared_data
  memoized-Stored j y same = record {
    by = λ t h.
        (Triple-if {P = λ u. Memo u × ((j ≡ k) ⊎ Stored u)} t.config.memoize
            (set_account_from_account_shared_data sdk j y) (pure tt)
            (λ on. record {
              by = λ u g.
                  let (r, db) = AccountsDb.set_account sdk j y u.accounts_db in
                  Ends-any (λ v. Memo v × Stored v) r (record u { accounts_db = db })
                    (g.0, set_account-Stored j y u.accounts_db same g.1);
            })
            (λ off. absurd (cc))).by
          t h;
  }

  -- What is reported for a key that may be `k`.
  abbrev About : Pubkey → Pubkey × Account → Type 0
  About j e = (e.0 ≡ j) × (j ≡ k → e.1 ≡ to_account x)

  write_back-Stored :
      (j : Pubkey) (before : Shared) (o : Option ℕ)
      → find_index_of_account context j ≡ o
      → Triple
          (λ t. Memo t × ((j ≡ k) ⊎ Stored t))
          (write_back sdk context j before o)
          (λ e t. (Memo t × Stored t) × About j e)
  unfolding write_back
  write_back-Stored j before none e =
      let apart : j ≢ k = λ same. cc (e, ap (find_index_of_account context) same, found) in
      Triple-pure (j, to_account before)
        (λ t h. ((h.0, other_of apart h.1), (refl, λ same. absurd (apart same))))
  write_back-Stored j before (some n) e =
      Triple-bind _ _
        (Triple-lift {Q = λ y t. (Memo t × ((j ≡ k) ⊎ Stored t)) × (try_borrow context n ≡ some y)}
          _ (λ y t got h. (h, expect-eq-ok failed_to_borrow (try_borrow context n) got)))
        (λ y. Triple-given λ got.
          let same : j ≡ k → y ≡ x = λ p. some-injective y x (
            sym got
            ∙ ap (λ o. borrow_at o) (sym e ∙ ap (find_index_of_account context) p ∙ found)
            ∙ borrowed) in
          Triple-bind _ _ (memoized-Stored j y same)
            (λ _. Triple-pure (j, to_account y) (λ t h. (h, (refl, λ p. ap to_account (same p))))))

  -- What a result and the state after it have for the key.
  abbrev pub Kept : List (Pubkey × Account) → Seashell sdk → Type 0
  Kept after t = Memo t × ((a : Account) → lookup k after ≡ some a → (a ≡ to_account x) × Stored t)

  report_head :
      (j : Pubkey) (e : Pubkey × Account) (rest : List (Pubkey × Account))
      → About j e
      → ((a : Account) → lookup k rest ≡ some a → a ≡ to_account x)
      → (a : Account) → lookup k (e ∷ rest) ≡ some a
      → a ≡ to_account x
  report_head j e rest about later a r = ground (arith, later a, about.0, about.1)

  report_tail :
      (e : Pubkey × Account) (rest : List (Pubkey × Account))
      → k ≢ e.0
      → (a : Account) → lookup k (e ∷ rest) ≡ some a
      → lookup k rest ≡ some a
  report_tail e rest h a r = ground arith

  memoized-Memo : (j : Pubkey) (y : Shared) → Triple Memo (memoized sdk j y) (λ _. Memo)
  unfolding set_account_from_account_shared_data
  memoized-Memo j y = record {
    by = λ t h.
        (Triple-if {P = Memo} t.config.memoize (set_account_from_account_shared_data sdk j y)
            (pure tt)
            (λ on. record {
              by = λ u g.
                  let (r, db) = AccountsDb.set_account sdk j y u.accounts_db in
                  Ends-any Memo r (record u { accounts_db = db }) g;
            })
            (λ off. Triple-pure tt (λ u g. g))).by
          t h;
  }

  -- Once stored, the account stays stored, and what is reported for the key is that account.
  post_accounts-stays :
      (accounts : List (Pubkey × Shared))
      → Triple
          (λ t. Memo t × Stored t)
          (post_accounts sdk context accounts)
          (λ after t.
            (Memo t × Stored t) × ((a : Account) → lookup k after ≡ some a → a ≡ to_account x))
  unfolding post_accounts post_account
  post_accounts-stays [] = Triple-pure [] (λ t h. (h, λ a e. absurd (cc)))
  post_accounts-stays ((j, before) ∷ accounts) =
      Triple-bind _ _
        (Triple-pre (λ t h. (h.0, inr h.1))
          (write_back-Stored j before (find_index_of_account context j) refl))
        (λ e. Triple-given λ about.
          Triple-bind _ _ (post_accounts-stays accounts)
            (λ rest. Triple-pure (e ∷ rest) (λ t h. (h.0, report_head j e rest about h.1))))

  write_back-Memo :
      (j : Pubkey) (before : Shared) (o : Option ℕ)
      → Triple Memo (write_back sdk context j before o) (λ e t. Memo t × (e.0 ≡ j))
  unfolding write_back set_account_from_account_shared_data
  write_back-Memo j before none = Triple-pure (j, to_account before) (λ t h. (h, refl))
  write_back-Memo j before (some n) =
      Triple-bind _ _ (Triple-lift {Q = λ _. Memo} _ (λ y t got h. h)) (λ y.
        Triple-bind _ _ (memoized-Memo j y) (λ _. Triple-pure (j, to_account y) (λ t h. (h, refl))))

  pub post_accounts-Kept :
      (accounts : List (Pubkey × Shared)) → Triple Memo (post_accounts sdk context accounts) Kept
  unfolding post_accounts post_account
  post_accounts-Kept [] = Triple-pure [] (λ t h. (h, λ a e. absurd (cc)))
  post_accounts-Kept ((j, before) ∷ accounts) = elim (ℕ_discrete j k) [
    | yes same ↦
        Triple-bind _ _
          (Triple-pre (λ t h. (h, inl same))
            (write_back-Stored j before (find_index_of_account context j) refl))
          (λ e. Triple-given λ about. Triple-bind _ _ (post_accounts-stays accounts) (λ rest.
            Triple-pure (e ∷ rest)
              (λ t h. (h.0.0, λ a r. (report_head j e rest about h.1 a r, h.0.1)))))
    | no differ ↦ Triple-bind _ _ (write_back-Memo j before (find_index_of_account context j)) (λ e.
        Triple-given λ about. Triple-bind _ _ (post_accounts-Kept accounts) (λ rest.
          Triple-pure (e ∷ rest) (λ t h.
            (h.0, λ a r. h.1 a (report_tail e rest (λ p. differ (sym about ∙ sym p)) a r)))))
  ]
