-- ===== src/Purchase/Booking/Receipts.antt =====
-- A receipt is atomic, books every line item of its order, and touches no other stock.
use mathlib.Core.Path.{subst}
use sage_store.Prelude.{
  ℕ, ◌+◌, String, ◌≡◌, ◌≢◌, ◌∙◌, refl, sym, ap, false, List, ◌∷◌, select, any, not, ◌==◌, eq_iff,
  arith,
}
use sage_store.Exec.{ok, Exec, ◌>>◌}
use sage_store.Exec.Ensures.{Ensures, ensures-lift, ensures-throw_if, ensures-bind}
use sage_store.Entities.{PurchaseOrder, PurchaseOrderRecord}
use sage_store.DataSpecs.{Dataset}
use sage_store.Repositories.{RepositoryManager, run_in_transaction}
use sage_store.ModuleUtils.{get_required_positive_integer, get_optional_dataset_value}
use sage_store.ModuleUtils.Integers.{get_required_positive_integer_iff}
use sage_store.Tables.{Tables, Affinity, update_rows, purchase_order_columns, inventory_columns}
use sage_store.Tables.Laws.{Views, IsDatabase}
use sage_store.Tables.Rows.{found}
use sage_store.Tables.Rules.{ensures-entity_exists, ensures-get_by_field}
use sage_store.Tables.Settled.{Settled, Written-Ended, run_in_transaction-Settled}
use sage_store.Tables.Unique.{IsUnique, any-select}
use sage_store.Purchase.Status.{component, normalize_order_status}
use sage_store.Purchase.Receipt.{Plan, empty_plan, plan_records, write_plan, receive_order}
use sage_store.Purchase.Rules.{ensures-not_received, ensures-order_by_id}
use sage_store.Purchase.Booking.{stocked, ordered}
use sage_store.Purchase.Booking.Planned.{IsPlan}
use sage_store.Purchase.Booking.Writes.{IsWritten}
use sage_store.Purchase.Booking.Touched.{IsTouched}
use sage_store.Purchase.Booking.Booked.{plan_records-Booked}
use sage_store.Purchase.Booking.Restocked.{IsRestocked, plan-AreRewritten, plan-IsRestocked}
use sage_store.Purchase.Booking.Writing.{Writing, write_all-Ended}

-- What a receipt makes of the tables `t`.
pub record IsReceipt (a : Affinity) (request : Dataset) (t t' : Tables) : Type 0 where
  pub order : PurchaseOrder
  pub others : List PurchaseOrder
  pub named :
      found (purchase_order_columns a) (get_optional_dataset_value request "id") t.purchase_orders
      ≡ order ∷ others
  pub was_open : normalize_order_status order.status ≢ ok "Received"
  pub tables : t' ≡ record t {
    inventory = t'.inventory;
    purchase_orders =
        update_rows
          (purchase_order_columns a)
          (record order { status = "Received" })
          t.purchase_orders;
  }
  -- the line items of the order
  pub lines : List PurchaseOrderRecord
  pub of_order :
      lines
      ≡ select
          (λ l. a.integer (get_optional_dataset_value request "id") == l.order_id)
          t.purchase_order_records
  pub stocks :
      IsRestocked a (get_optional_dataset_value request "employeeId") lines t.inventory t'.inventory
  pub booked : (p : String) → stocked p t'.inventory ≡ stocked p t.inventory + ordered p lines

module _ {S : Type 0} (r : RepositoryManager S) {a : Affinity} {v : Views S} (d : IsDatabase a v r)
    (before : S) where
  module _ (unique : IsUnique a (inventory_columns a) "productTypeId" (v.view before).inventory)
      (stored : any
          (λ l. not (a.integer l.product_type_id == l.product_type_id))
          (v.view before).purchase_order_records
        ≡ false) where
    start :
        (booked : String → ℕ) (plan : Plan) (h : IsPlan a (v.view before).inventory booked plan)
        → IsWritten a (v.view before).inventory booked plan.order (v.view before).inventory
    start booked plan h = record {
      unique = unique;
      pending = λ p _. refl;
      done = λ p gone. ground (arith, h.in_order p, h.absent p);
    }

    -- The line items of the order that has this id.
    abbrev lines_of : String → List PurchaseOrderRecord
    lines_of key = select (λ l. a.integer key == l.order_id) (v.view before).purchase_order_records

    -- The plan and the order, written in one transaction.
    abbrev book : PurchaseOrder → Plan → Exec S (Unit {0})
    book order plan =
        run_in_transaction r
          (write_plan r plan >> r.purchase_orders.update (record order { status = "Received" }))

    transaction-IsReceipt :
        (request : Dataset) (order : PurchaseOrder) (others : List PurchaseOrder) (plan : Plan)
        → found
            (purchase_order_columns a)
            (get_optional_dataset_value request "id")
            (v.view before).purchase_orders
          ≡ order ∷ others
        → normalize_order_status order.status ≢ ok "Received"
        → IsPlan a
            (v.view before).inventory
            (λ q. 0 + ordered q (lines_of (get_optional_dataset_value request "id")))
            plan
        → IsTouched
            (get_optional_dataset_value request "employeeId")
            (λ q.
              any
                (λ l. q == l.product_type_id)
                (lines_of (get_optional_dataset_value request "id")))
            plan
        → Ensures (book order plan) before (Settled v (IsReceipt a request (v.view before)) before)
    unfolding write_plan
    transaction-IsReceipt request order others plan named was_open h touched =
        run_in_transaction-Settled v (IsReceipt a request (v.view before)) before r d.transactions _
          λ s' viewed saved.
            ensures-bind _ s' _
              (write_all-Ended r d before _ plan h plan.order s' h.once
                (λ p among. sym (h.in_order p) ∙ among)
                (subst (Writing r d before _ plan h plan.order) (sym viewed)
                  (refl, start _ plan h, plan-AreRewritten a _ _ plan h))
                saved)
              (λ e u ended. ended)
              (λ _ u ended.
                Written-Ended v (IsReceipt a request (v.view before)) before _ u _
                  (d.purchase_orders.update_lem (record order { status = "Received" }) u) ended.1
                  (record {
                    order = order;
                    others = others;
                    named = named;
                    was_open = was_open;
                    tables =
                        ap
                          (λ (t : Tables). record t {
                            purchase_orders =
                                update_rows (purchase_order_columns a)
                                  (record order { status = "Received" }) t.purchase_orders;
                          })
                          ended.0.0;
                    lines = lines_of (get_optional_dataset_value request "id");
                    of_order = refl;
                    stocks = plan-IsRestocked a _ _ _ _ plan h touched ended.0.2;
                    booked = λ p. unfold any in omega (arith, ended.0.1.done p refl);
                  }))

    receive_order-Receives :
        (request : Dataset)
        → Ensures
            (receive_order r request)
            before
            (Settled v (IsReceipt a request (v.view before)) before)
    unfolding receive_order
    receive_order-Receives request =
        ensures-lift (get_required_positive_integer request "id" component) _ before (λ _. refl)
          λ key read.
            ensures-lift (get_required_positive_integer request "employeeId" component) _ before
              (λ _. refl)
              λ employee read_employee.
                ensures-entity_exists d.employees _ _ _ _ _ before refl (λ _. refl)
                  λ _.
                    ensures-order_by_id d.purchase_orders refl key _ before (λ _. refl)
                      λ order others named.
                        ensures-not_received order _ _ before (λ _. refl)
                          λ status n not_yet.
                            ensures-get_by_field d.purchase_order_records "orderId" key _ before
                              refl
                              (ensures-throw_if _ _ _ _ before (λ _. refl)
                                λ _.
                                  ensures-bind (plan_records r employee (lines_of key) empty_plan)
                                    before _
                                    (plan_records-Booked r d before unique employee (lines_of key)
                                      (any-select _ _ _ stored))
                                    (λ e s' same. ap v.view same.0)
                                    (λ plan s' planned.
                                      let field =
                                        ((get_required_positive_integer_iff request "id" component
                                            key).0
                                          read).1 in
                                      let employee_field =
                                        ((get_required_positive_integer_iff request "employeeId"
                                            component employee).0
                                          read_employee).1 in
                                      subst
                                        (λ u.
                                          Ensures (book order plan) u (
                                            Settled v (IsReceipt a request (v.view before)) before))
                                        (sym planned.0.0)
                                        (transaction-IsReceipt request order others plan
                                          (rw field named)
                                          (λ received.
                                            absurd (
                                              ground
                                                (arith, eq_iff status "Received", received, n)))
                                          (subst
                                            (λ k.
                                              IsPlan a (v.view before).inventory
                                                (λ q. 0 + ordered q (lines_of k)) plan)
                                            (sym field) planned.0.1)
                                          (subst
                                            (λ k.
                                              IsTouched
                                                (get_optional_dataset_value request "employeeId")
                                                (λ q.
                                                  any (λ l. q == l.product_type_id) (lines_of k))
                                                plan)
                                            (sym field)
                                            (subst
                                              (λ e.
                                                IsTouched e
                                                  (λ q.
                                                    any (λ l. q == l.product_type_id)
                                                      (lines_of key))
                                                  plan)
                                              (sym employee_field) planned.1)))))

    -- Where no two stocks are of one product type, ids are unique, and ids and the product types of
    -- line items are as their columns store them: a receipt either succeeds, and then the order that
    -- the request names, which was not received, is; every product type of its line items has one
    -- stock, which is that before or a new one, with what they have of it more, and the employee of
    -- the request; every other product type has the stocks that it had; and the other tables are as
    -- they were. Or it throws, and the tables are as they were, also if a write fails half-way.
    pub receive_order-IsReceipt :
        (request : Dataset)
        → Settled v
            (IsReceipt a request (v.view before))
            before
            (receive_order r request before).0
            (receive_order r request before).1
    receive_order-IsReceipt request = (receive_order-Receives request).holds
