-- ===== src/Purchase/Planning.antt =====
-- Planning a receipt only reads the database.
use sage_store.Prelude.{String, ◌≡◌, refl, sym, Option, none, some, List, [], ◌∷◌}
use sage_store.Prelude.Assoc.{find}
use mathlib.Core.Path.{subst}
use sage_store.Exec.{Result}
use sage_store.Exec.Ensures.{Ensures, ensures-lift, ensures-pure, ensures-bind}
use sage_store.Entities.{PurchaseOrderRecord}
use sage_store.Repositories.{RepositoryManager}
use sage_store.Tables.{Affinity}
use sage_store.Tables.Laws.{Views, IsDatabase}
use sage_store.Tables.Rules.{ensures-entity_exists, ensures-get_by_field}
use sage_store.Purchase.Receipt.{
  PlannedStockMutation, Plan, receive, planned_mutation, plan_record, plan_records,
}

module _ {S : Type 0} (r : RepositoryManager S) {a : Affinity} {v : Views S}
    (d : IsDatabase a v r) where
  -- The state at the end is that of the beginning.
  abbrev Same : {A : Type 0} → S → Result A → S → Type 0
  Same s _ s' = s' ≡ s

  planned_mutation-Same :
      (o : Option PlannedStockMutation) (p employee : String) (s : S)
      → Ensures (planned_mutation r o p employee) s (Same s)
  unfolding planned_mutation
  planned_mutation-Same none p employee s =
      ensures-get_by_field d.inventory "productTypeId" p _ s refl (ensures-pure _ s refl)
  planned_mutation-Same (some m) p employee s = ensures-pure m s refl

  plan_record-Same :
      (employee : String) (l : PurchaseOrderRecord) (plan : Plan) (s : S)
      → Ensures (plan_record r employee l plan) s (Same s)
  unfolding plan_record
  plan_record-Same employee l plan s =
      ensures-entity_exists d.product_types _ _ _ _ _ s refl (λ _. refl)
        λ _.
          ensures-bind
            (planned_mutation r (find l.product_type_id plan.stocks) l.product_type_id employee) s _
            (planned_mutation-Same (find l.product_type_id plan.stocks) l.product_type_id employee
              s)
            (λ e s' same. same)
            λ m s' same.
              ensures-lift (receive employee l.quantity m) _ s' (λ _. same)
                λ received _. ensures-pure _ s' same

  pub plan_records-Same :
      (employee : String) (lines : List PurchaseOrderRecord) (plan : Plan) (s : S)
      → Ensures (plan_records r employee lines plan) s (Same s)
  unfolding plan_records
  plan_records-Same employee [] plan s = ensures-pure plan s refl
  plan_records-Same employee (l ∷ rest) plan s =
      ensures-bind (plan_record r employee l plan) s _ (plan_record-Same employee l plan s)
        (λ e s' same. same)
        (λ next s' same.
          subst (λ (u : S). Ensures (plan_records r employee rest next) u (Same s)) (sym same)
            (plan_records-Same employee rest next s))
