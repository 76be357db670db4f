-- ===== src/Purchase/Booking/Success.antt =====
-- A receipt that nothing stands against is not refused: it comes to the transaction that books it.
use sage_store.Prelude.{◌||◌, ◌+◌, ◌≤◌, String, ◌≡◌, false, List, ◌∷◌, any, not, ◌==◌, is_empty}
use sage_store.Prelude.Assoc.{find}
use sage_store.Exec.{Result, ok, Exec, for_each, ◌>>◌}
use sage_store.Exec.Ensures.{Ensures}
use sage_store.DataSpecs.{Dataset}
use sage_store.Entities.{PurchaseOrder}
use sage_store.Repositories.{RepositoryManager, run_in_transaction}
use sage_store.ModuleUtils.{llong_max, is_digits, get_required_positive_integer}
use sage_store.Tables.{Affinity}
use sage_store.Tables.Laws.{Views, IsDatabase}
use sage_store.Tables.Rules.{rows_by}
use sage_store.Purchase.Status.{component, normalize_order_status}
use sage_store.Purchase.Receipt.{Plan, write_mutation}
use sage_store.Purchase.Booking.{stocked, ordered}
use sage_store.Purchase.Booking.Planned.{IsPlan}
use sage_store.Purchase.Booking.Touched.{IsTouched, Touches}
use sage_store.Purchase.Booking.Returns.{IsBookable, Returning}

module _ {S : Type 0} (r : RepositoryManager S) {a : Affinity} {v : Views S} (d : IsDatabase a v r)
    (before : S) where
  -- The request names an employee and an order that is open and has line items, of product types that
  -- there are; what is in stock and what comes in are numbers whose sums fit a `long long`.
  pub record IsReceivable (request : Dataset) : Type 0 where
    pub key : String
    pub employee : String
    pub order : PurchaseOrder
    pub others : List PurchaseOrder
    pub status : String
    pub id_field : get_required_positive_integer request "id" component ≡ ok key
    pub employee_field : get_required_positive_integer request "employeeId" component ≡ ok employee
    pub employed : is_empty (rows_by d.employees "id" employee before) ≡ false
    pub named : rows_by d.purchase_orders "id" key before ≡ order ∷ others
    pub status_read : normalize_order_status order.status ≡ ok status
    pub was_open : (status == "Received") ≡ false
    pub some_lines : is_empty (rows_by d.purchase_order_records "orderId" key before) ≡ false
    pub bookable : IsBookable r d before (rows_by d.purchase_order_records "orderId" key before)
    pub stock_digits :
        any (λ e. not (is_digits e.quantity_available)) (v.view before).inventory ≡ false
    pub fits :
        (p : String)
        → stocked p (v.view before).inventory
            + ordered p (rows_by d.purchase_order_records "orderId" key before)
          ≤ llong_max

  -- The receipt is the transaction that writes a plan, which books every line item, and then the order.
  abbrev pub IsBooked : (request : Dataset) → IsReceivable request → Exec S (Unit {0}) → Type 0
  IsBooked request h receipt =
      (plan : Plan) × IsPlan a (v.view before).inventory
        (λ p. ordered p (rows_by d.purchase_order_records "orderId" h.key before)) plan
      × IsTouched h.employee
          (λ p.
            any (λ l. p == l.product_type_id)
              (rows_by d.purchase_order_records "orderId" h.key before))
          plan
      × (receipt before
          ≡ run_in_transaction r
              (for_each plan.order (λ p. write_mutation r (find p plan.stocks))
                >> r.purchase_orders.update (record h.order { status = "Received" }))
              before)

  -- Planning ends with a plan that books the line items for the employee.
  abbrev Planned : (request : Dataset) → IsReceivable request → Result Plan → S → Type 0
  Planned request h o s' =
      Returning
        (λ plan s'.
          (s' ≡ before)
          × IsPlan a (v.view before).inventory
              (λ p. 0 + ordered p (rows_by d.purchase_order_records "orderId" h.key before)) plan)
        o s'
      × Touches r h.employee
          (λ p.
            false
            || any (λ l. p == l.product_type_id)
                (rows_by d.purchase_order_records "orderId" h.key before))
          o s'
