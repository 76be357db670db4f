-- ===== src/Tables/Settled.antt =====
-- Handlers that either succeed and keep an invariant of the tables, or throw and change nothing.
use mathlib.Core.Path.{subst}
use sage_store.Prelude.{String, Bool, ◌≡◌, ◌∙◌, refl, sym, false, some}
use sage_store.Exec.{Result, ok, err, Exec, pure, lift, throw_if, ◌>>=◌, ◌>>◌}
use sage_store.Exec.Ensures.{
  Ensures, ensures-lift, ensures-throw_if, ensures-bind, ensures-pure, ensures_weaken,
}
use sage_store.DataSpecs.{empty_response}
use sage_store.Repositories.{RepositoryManager, or_roll_back, run_in_transaction}
use sage_store.Tables.{Tables}
use sage_store.Tables.Laws.{Views, Written, Committed, IsTransactional}

module _ {S : Type 0} (v : Views S) (P : Tables → Type 0) (before : S) where
  -- How a handler ends that began with the tables of `before`.
  abbrev pub Settled : {A : Type 0} → Result A → S → Type 0
  Settled (ok _) s' = P (v.view s')
  Settled (err _) s' = v.view s' ≡ v.view before

  pub Written-Settled :
      (m : Exec S (Unit {0})) (t : Tables)
      → Ensures m before (Written v t before)
      → P t
      → Ensures m before Settled
  Written-Settled m t w after = ensures_weaken w go
    where
      go : (r : Result (Unit {0})) (s' : S) → Written v t before r s' → Settled r s'
      go (ok _) s' e = subst P (sym e.0) after
      go (err _) s' e = e.0

  pub Settled-respond :
      (m : Exec S (Unit {0}))
      → Ensures m before Settled
      → Ensures (m >> pure empty_response) before Settled
  Settled-respond m h = ensures-bind m before _ h (λ e s' p. p) (λ _ s' p. ensures-pure _ s' p)

  pub Settled-lift :
      {A B : Type 0} (r : Result A) (f : A → Exec S B)
      → ((a : A) → r ≡ ok a → Ensures (f a) before Settled)
      → Ensures (lift r >>= f) before Settled
  Settled-lift r f next = ensures-lift r f before (λ _. refl) next

  pub Settled-throw_if :
      {B : Type 0} (b : Bool) (c m : String) (k : Exec S B)
      → (b ≡ false → Ensures k before Settled)
      → Ensures (throw_if b c m >> k) before Settled
  Settled-throw_if b c m k next = ensures-throw_if b c m k before (λ _. refl) next

-- A transaction that began with the tables of `before` is open: a rollback brings them back.
module _ {S : Type 0} (v : Views S) (P : Tables → Type 0) (before : S) where
  -- How the body of a transaction ends.
  abbrev pub Ended : {A : Type 0} → Result A → S → Type 0
  Ended (ok _) s' = P (v.view s') × (v.saved s' ≡ some (v.view before))
  Ended (err _) s' = v.saved s' ≡ some (v.view before)

  pub Written-Ended :
      (m : Exec S (Unit {0})) (s : S) (t : Tables)
      → Ensures m s (Written v t s)
      → v.saved s ≡ some (v.view before)
      → P t
      → Ensures m s Ended
  Written-Ended m s t w kept after = ensures_weaken w go
    where
      go : (r : Result (Unit {0})) (s' : S) → Written v t s r s' → Ended r s'
      go (ok _) s' e = (subst P (sym e.0) after, e.1 ∙ kept)
      go (err _) s' e = e.1 ∙ kept

  module _ (r : RepositoryManager S) (t : IsTransactional v r.db_manager) where
    -- How a transaction ends before a failure is rolled back.
    abbrev Closing : Result (Unit {0}) → S → Type 0
    Closing (ok _) s' = P (v.view s')
    Closing (err _) s' = v.saved s' ≡ some (v.view before)

    commit-Closing :
        (s : S)
        → P (v.view s)
        → v.saved s ≡ some (v.view before)
        → Ensures r.db_manager.commit_transaction s Closing
    commit-Closing s after kept = ensures_weaken (t.commit_lem s) go
      where
        go : (o : Result (Unit {0})) (s' : S) → Committed v s o s' → Closing o s'
        go (ok _) s' e = subst P (sym e.0) after
        go (err _) s' e = e.1 ∙ kept

    or_roll_back-Settled :
        (o : Result (Unit {0}) × S)
        → Closing o.0 o.1
        → Settled v P before (or_roll_back r.db_manager o).0 (or_roll_back r.db_manager o).1
    unfolding or_roll_back
    or_roll_back-Settled (ok a, s) h = h
    or_roll_back-Settled (err e, s) h = t.rollback_lem s _ h

    -- A transaction settles: its body's failure is rolled back.
    pub run_in_transaction-Settled :
        (operation : Exec S (Unit {0}))
        → ((s' : S)
            → v.view s' ≡ v.view before
            → v.saved s' ≡ some (v.view before)
            → Ensures operation s' Ended)
        → Ensures (run_in_transaction r operation) before (Settled v P before)
    unfolding run_in_transaction
    run_in_transaction-Settled operation body =
        ensures-bind r.db_manager.begin_transaction before _ (t.begin_lem before)
          (λ e s' began. began)
          (λ _ s' began. record {
            holds =
                or_roll_back-Settled _
                  (ensures-bind operation s' (λ _. r.db_manager.commit_transaction)
                    (body s' began.0 began.1) (λ e s'' kept. kept)
                    (λ _ s'' ended. commit-Closing s'' ended.0 ended.1)).holds;
          })
