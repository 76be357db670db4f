-- ===== src/Tables/Transactions.antt =====
-- Rules for a transaction and for a loop of writes: what they keep of the tables.
use mathlib.Core.Path.{subst}
use sage_store.Prelude.{◌≡◌, ◌∙◌, some, sym, List, [], ◌∷◌}
use sage_store.Exec.{Result, ok, err, Exec, for_each}
use sage_store.Exec.Ensures.{Ensures, ensures-bind, ensures_weaken}
use sage_store.Repositories.{RepositoryManager, or_roll_back, run_in_transaction}
use sage_store.Tables.{Tables}
use sage_store.Tables.Laws.{Views, Written, Committed, IsTransactional}

-- A loop keeps what each round keeps.
pub ensures-for_each :
    {S A : Type 0} (P : S → Type 0) (f : A → Exec S (Unit {0}))
    → ((x : A) (s : S) → P s → Ensures (f x) s (λ _ s'. P s'))
    → (xs : List A) (s : S) → P s
    → Ensures (for_each xs f) s (λ _ s'. P s')
unfolding for_each
ensures-for_each P f keep [] s h = record { holds = h }
ensures-for_each P f keep (x ∷ xs) s h =
    ensures-bind (f x) s _ (keep x s h) (λ e s' p. p) (λ _ s' p. ensures-for_each P f keep xs s' p)

module _ {S : Type 0} (v : Views S) (P : Tables → Type 0) where
  -- The property holds now, and will if the transaction is rolled back.
  abbrev pub Both : S → Type 0
  Both s = P (v.view s) × ((t : Tables) × (v.saved s ≡ some t) × P t)

  pub write_keeps_pair :
      (m : Exec S (Unit {0})) (s : S) (t : Tables)
      → Ensures m s (Written v t s)
      → Both s
      → P t
      → Ensures m s (λ _ s'. Both s')
  write_keeps_pair m s t w before after = ensures_weaken w go
    where
      go : (r : Result (Unit {0})) (s' : S) → Written v t s r s' → Both s'
      go (ok _) s' e =
          let (t0, open_since, then) = before.1 in
          (subst P (sym e.0) after, (t0, e.1 ∙ open_since, then))
      go (err _) s' e =
          let (t0, open_since, then) = before.1 in
          (subst P (sym e.0) before.0, (t0, e.1 ∙ open_since, then))

  module _ (r : RepositoryManager S) (t : IsTransactional v r.db_manager) where
    -- The property holds now, or will if the failure is rolled back.
    abbrev Closing : Result (Unit {0}) → S → Type 0
    Closing (ok _) s = P (v.view s)
    Closing (err _) s = Both s

    or_roll_back_keeps :
        (o : Result (Unit {0}) × S) → Closing o.0 o.1 → P (v.view (or_roll_back r.db_manager o).1)
    unfolding or_roll_back
    or_roll_back_keeps (ok a, s) h = h
    or_roll_back_keeps (err e, s) h =
        let (t0, open_since, then) = h.1 in subst P (sym (t.rollback_lem s t0 open_since)) then

    commit_keeps : (s : S) → Both s → Ensures r.db_manager.commit_transaction s Closing
    commit_keeps s b = ensures_weaken (t.commit_lem s) go
      where
        go : (o : Result (Unit {0})) (s' : S) → Committed v s o s' → Closing o s'
        go (ok _) s' e = subst P (sym e.0) b.0
        go (err _) s' e =
            let (t0, open_since, then) = b.1 in
            (subst P (sym e.0) b.0, (t0, e.1 ∙ open_since, then))

    pub transaction_keeps :
        (operation : Exec S (Unit {0})) (s : S)
        → P (v.view s)
        → ((s' : S) → v.view s' ≡ v.view s → Both s' → Ensures operation s' (λ _ s''. Both s''))
        → Ensures (run_in_transaction r operation) s (λ _ s'. P (v.view s'))
    unfolding run_in_transaction
    transaction_keeps operation s h keep =
        ensures-bind r.db_manager.begin_transaction s _ (t.begin_lem s)
          (λ e s' began. subst P (sym began) h)
          (λ _ s' began. record {
            holds =
                or_roll_back_keeps _
                  (ensures-bind operation s' (λ _. r.db_manager.commit_transaction)
                    (keep s' began.0 (subst P (sym began.0) h, (v.view s, began.1, h)))
                    (λ e s'' b. b) (λ _ s'' b. commit_keeps s'' b)).holds;
          })
