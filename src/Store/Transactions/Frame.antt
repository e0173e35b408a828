-- ===== src/Store/Transactions/Frame.antt =====
-- What an operation in a transaction changes, whether it succeeds or throws.
use libklio.Prelude.{ℕ, ◌≡◌, refl, Option, none, some, arith, Bool-cases, inl, inr}
use libklio.Exec.{Exec, Result, ok, err, pure, continue, ◌>>=◌}
use libklio.Store.{Store, Records, Call, run}
use libklio.Store.Transactions.{
  in_transaction, auto_start, auto_start_transaction, auto_commit_transaction,
}

module _ {D : Type 0} where
  -- The outcome differs from the store in the members of the derived class alone.
  abbrev pub OnlyDb : {A : Type 0} → Store D → Result A × Store D → Type 0
  OnlyDb s out = (d : D) × (out.1 ≡ record s { db = d })

  run-OnlyDb : {A : Type 0} (call : Call D A) (s : Store D) → OnlyDb s (run call s)
  run-OnlyDb call s = ((call s).1, refl)

  continue-OnlyDb :
      {A B : Type 0} (result : Result A) (f : A → Exec (Store D) B) (s : Store D)
      → ((a : A) → OnlyDb s (f a s))
      → OnlyDb s (continue result f s)
  continue-OnlyDb (ok a) f s h = h a
  continue-OnlyDb (err e) f s h = (s.db, refl)

  pub bind-OnlyDb :
      {A B : Type 0} (first : Exec (Store D) A) (f : A → Exec (Store D) B) (s : Store D)
      → OnlyDb s (first s)
      → ((a : A) (d : D) → OnlyDb (record s { db = d }) (f a (record s { db = d })))
      → OnlyDb s ((first >>= f) s)
  bind-OnlyDb first f s (d, e) h =
      rw e (continue-OnlyDb (first s).0 f (record s { db = d }) (λ a. h a d))

module _ {D : Type 0} (r : Records D) where
  auto_start-OnlyDb : (t : Option ℕ) (s : Store D) → OnlyDb s (auto_start r t s)
  unfolding auto_start
  auto_start-OnlyDb none s = (s.db, refl)
  auto_start-OnlyDb (some t) s = elim (Bool-cases s.auto_commit) [
    | inl by_itself ↦ ((r.start t s).1, ground arith)
    | inr manual ↦ (s.db, ground arith)
  ]

  auto_commit-OnlyDb : (t : Option ℕ) (s : Store D) → OnlyDb s (auto_commit_transaction r t s)
  unfolding auto_commit_transaction
  auto_commit-OnlyDb none s = (s.db, refl)
  auto_commit-OnlyDb (some t) s = elim (Bool-cases s.auto_commit) [
    | inl by_itself ↦ ((r.commit t s).1, ground arith)
    | inr manual ↦ (s.db, ground arith)
  ]

  pub in_transaction-OnlyDb :
      {A : Type 0} (body : Exec (Store D) A) (s : Store D)
      → ((d : D) → OnlyDb (record s { db = d }) (body (record s { db = d })))
      → OnlyDb s (in_transaction r body s)
  unfolding in_transaction
  in_transaction-OnlyDb body s h =
      bind-OnlyDb (auto_start_transaction r) _ s
        (bind-OnlyDb (run r.get_transaction_handler) (auto_start r) s
          (run-OnlyDb r.get_transaction_handler s) λ t d. auto_start-OnlyDb t (record s { db = d }))
        λ t d.
          bind-OnlyDb body _ (record s { db = d }) (h d)
            λ a e.
              bind-OnlyDb (auto_commit_transaction r t) (λ _. pure a) (record s { db = e })
                (auto_commit-OnlyDb t (record s { db = e })) λ _ f. (f, refl)

  -- An operation that makes one call of the derived class in a transaction.
  pub call-OnlyDb : (call : Call D Unit) (s : Store D) → OnlyDb s (in_transaction r (run call) s)
  call-OnlyDb call s = in_transaction-OnlyDb (run call) s λ d. run-OnlyDb call (record s { db = d })
