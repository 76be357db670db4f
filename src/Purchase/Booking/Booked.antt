-- ===== src/Purchase/Booking/Booked.antt =====
-- The plan of a receipt, of what its line items have and for whom.
use sage_store.Prelude.{◌+◌, ◌||◌, String, ◌≡◌, false, List, any, not, ◌==◌}
use sage_store.Exec.{Result}
use sage_store.Exec.Ensures.{Ensures}
use sage_store.Entities.{PurchaseOrderRecord}
use sage_store.Repositories.{RepositoryManager}
use sage_store.Tables.{Affinity, inventory_columns}
use sage_store.Tables.Laws.{Views, IsDatabase}
use sage_store.Tables.Unique.{IsUnique}
use sage_store.Purchase.Receipt.{Plan, empty_plan, plan_records}
use sage_store.Purchase.Booking.{ordered}
use sage_store.Purchase.Booking.Plans.{Plans, empty_plan-IsPlan, plan_records-Plans}
use sage_store.Purchase.Booking.Touched.{Touches, empty_plan-IsTouched, plan_records-Touches}

module _ {S : Type 0} (r : RepositoryManager S) {a : Affinity} {v : Views S} (d : IsDatabase a v r)
    (before : S)
    (unique : IsUnique a (inventory_columns a) "productTypeId" (v.view before).inventory) where
  -- A plan books what the line items have, and is about their product types.
  abbrev pub Booked : String → List PurchaseOrderRecord → Result Plan → S → Type 0
  Booked employee lines o s' =
      Plans r d before unique (λ q. 0 + ordered q lines) o s'
      × Touches r employee (λ q. false || any (λ l. q == l.product_type_id) lines) o s'

  pub plan_records-Booked :
      (employee : String) (lines : List PurchaseOrderRecord)
      → any (λ l. not (a.integer l.product_type_id == l.product_type_id)) lines ≡ false
      → Ensures (plan_records r employee lines empty_plan) before (Booked employee lines)
  plan_records-Booked employee lines kept = record {
    holds = (
      (plan_records-Plans r d before unique (λ _. 0) empty_plan employee lines
          (empty_plan-IsPlan a _) kept).holds,
      (plan_records-Touches r employee lines (λ _. false) empty_plan before
          (empty_plan-IsTouched employee)).holds,
    );
  }
