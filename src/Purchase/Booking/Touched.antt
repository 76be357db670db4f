-- ===== src/Purchase/Booking/Touched.antt =====
-- Which product types a plan of a receipt is about, and whom its stocks name.
use sage_store.Prelude.{
  ℕ, String, Bool, ◌≡◌, ◌⊎◌, ◌∙◌, sym, refl, ap, ◌||◌, true, false, inl, inr, List, [], ◌∷◌, Option,
  some, any, ◌==◌, eq_iff, arith, if◌then◌else◌,
}
use mathlib.Core.Path.{subst, fun_ext}
use sage_store.Prelude.Assoc.{find, find-assign}
use sage_store.Prelude.Decimal.{to_string}
use sage_store.Exec.{Result, ok, err, and_then}
use sage_store.Exec.Ensures.{Ensures, ensures-lift, ensures-bind, ensures-pure}
use sage_store.Entities.{PurchaseOrderRecord}
use sage_store.Repositories.{RepositoryManager}
use sage_store.Purchase.Requests.{add_quantities}
use sage_store.Purchase.Receipt.{
  PlannedStockMutation, Plan, receive, plan_record, plan_records, empty_plan,
}
use sage_store.Purchase.Booking.Planned.{is_some}

-- The plan has a stock for the product types `seen`, and for no other, and each names the employee.
pub record IsTouched (employee : String) (seen : String → Bool) (plan : Plan) : Type 0 where
  pub names : (p : String) → is_some (find p plan.stocks) ≡ seen p
  pub employed :
      (p : String) (m : PlannedStockMutation)
      → find p plan.stocks ≡ some m
      → m.stock.employee_id ≡ employee

pub empty_plan-IsTouched : (employee : String) → IsTouched employee (λ _. false) empty_plan
unfolding find
empty_plan-IsTouched employee = record { names = λ p. refl; employed = λ p m h. absurd (cc h) }

receive-employed :
    (employee quantity : String) (m m' : PlannedStockMutation)
    → receive employee quantity m ≡ ok m'
    → m'.stock.employee_id ≡ employee
unfolding receive
receive-employed employee quantity m m' h =
    go (add_quantities m.stock.quantity_available quantity) h
  where
    go :
        (o : Result ℕ)
        → and_then o (λ sum. ok (record m {
          stock = record m.stock { quantity_available = to_string sum; employee_id = employee };
        }))
          ≡ ok m'
        → m'.stock.employee_id ≡ employee
    go (err x) h = absurd (cc h)
    go (ok sum) h = ground arith

pick :
    (b : Bool) (o : Option PlannedStockMutation) (m x : PlannedStockMutation)
    → (if b then some m else o) ≡ some x
    → (m ≡ x) ⊎ (o ≡ some x)
pick true o m x h = inl (cc h)
pick false o m x h = inr h

assigned_employed :
    (b : Bool) (o o' : Option PlannedStockMutation) (m x : PlannedStockMutation) (employee : String)
    → o' ≡ (if b then some m else o)
    → o' ≡ some x
    → m.stock.employee_id ≡ employee
    → (o ≡ some x → x.stock.employee_id ≡ employee)
    → x.stock.employee_id ≡ employee
assigned_employed b o o' m x employee e there new old = elim (pick b o m x (sym e ∙ there)) [
  | inl same ↦ ap (λ (y : PlannedStockMutation). y.stock.employee_id) (sym same) ∙ new
  | inr before ↦ old before
]

module _ {S : Type 0} (r : RepositoryManager S) (employee : String) where
  abbrev pub Touches : (String → Bool) → Result Plan → S → Type 0
  Touches seen (ok plan) s' = IsTouched employee seen plan
  Touches seen (err _) s' = Unit {0}

  plan_record-Touches :
      (seen : String → Bool) (plan : Plan) (l : PurchaseOrderRecord) (s : S)
      → IsTouched employee seen plan
      → Ensures (plan_record r employee l plan) s (Touches (λ q. seen q || q == l.product_type_id))
  unfolding plan_record
  plan_record-Touches seen plan l s h =
      ensures-bind {P = λ _ _. Unit {0}} _ s _ (record { holds = tt }) (λ e s' _. tt)
        λ _ s1 _.
          ensures-bind {P = λ _ _. Unit {0}} _ s1 _ (record { holds = tt }) (λ e s' _. tt)
            λ m s2 _.
              ensures-lift (receive employee l.quantity m) _ s2 (λ _. tt)
                λ m' e. ensures-pure _ s2 (record {
                  names = λ p. ground (
                    arith,
                    find-assign l.product_type_id p m' plan.stocks,
                    eq_iff p l.product_type_id,
                    eq_iff l.product_type_id p,
                    h.names p,
                  );
                  employed = λ p x there.
                      assigned_employed (l.product_type_id == p) (find p plan.stocks) _ m' x
                        employee (find-assign l.product_type_id p m' plan.stocks) there
                        (receive-employed employee l.quantity m m' e) (h.employed p x);
                })

  pub plan_records-Touches :
      (lines : List PurchaseOrderRecord) (seen : String → Bool) (plan : Plan) (s : S)
      → IsTouched employee seen plan
      → Ensures
          (plan_records r employee lines plan)
          s
          (Touches (λ q. seen q || any (λ l. q == l.product_type_id) lines))
  unfolding plan_records any
  plan_records-Touches [] seen plan s h =
      ensures-pure plan s (subst (λ n. IsTouched employee n plan) (fun_ext (λ q. ground arith)) h)
  plan_records-Touches (l ∷ rest) seen plan s h =
      let same : (q : String)
          → (seen q || q == l.product_type_id) || any (λ x. q == x.product_type_id) rest
            ≡ seen q || any (λ x. q == x.product_type_id) (l ∷ rest) =
        λ q. ground arith in
      ensures-bind (plan_record r employee l plan) s _ (plan_record-Touches seen plan l s h)
        (λ e s' _. tt)
        (λ next s' one.
          subst (λ n. Ensures (plan_records r employee rest next) s' (Touches n)) (fun_ext same)
            (plan_records-Touches rest (λ q. seen q || q == l.product_type_id) next s' one))
