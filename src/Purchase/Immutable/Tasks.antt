-- ===== src/Purchase/Immutable/Tasks.antt =====
-- A received order stays as it is, whatever is requested.
use sage_store.Prelude.{String, Bool, ◌≡◌, refl, is_blank, ◌==◌}
use sage_store.Exec.{ok, Exec, pure, ◌>>◌}
use sage_store.Exec.Ensures.{
  Ensures, ensures-bind, ensures-if, ensures-pure, ensures-raise, ensures-bind_if, ensures-method,
}
use sage_store.Entities.{PurchaseOrder}
use sage_store.DataSpecs.{RequestData, empty_response}
use sage_store.Repositories.{RepositoryManager}
use sage_store.Tables.{Affinity}
use sage_store.Tables.Laws.{Views, IsDatabase}
use sage_store.Tables.Rules.{ensures-get_by_field, ensures-get_all}
use sage_store.Purchase.{
  get_orders, get_order_records, orders_task, order_records_task, receipts_task, execute_task,
}
use sage_store.Purchase.Status.{normalize_order_status}
use sage_store.Purchase.Immutable.{
  HasOrder, Kept, add_order-Kept, edit_order-Kept, delete_order-Kept,
}
use sage_store.Purchase.Immutable.Lines.{
  add_order_record-Kept, edit_order_record-Kept, delete_order_record-Kept,
}
use sage_store.Purchase.Immutable.Receipts.{receive_order-Kept}

module _ {S : Type 0} (stod_returns : String → Bool) (r : RepositoryManager S) {a : Affinity}
    {v : Views S} (d : IsDatabase a v r) (id : String) (o : PurchaseOrder)
    (received : normalize_order_status o.status ≡ ok "Received") where
  get_orders-Kept :
      (s : S)
      → HasOrder a id o (v.view s)
      → Ensures (get_orders stod_returns r) s (Kept stod_returns r d id o received)
  unfolding get_orders
  get_orders-Kept s h = ensures-get_all d.purchase_orders _ s (ensures-pure _ s h)

  get_order_records-Kept :
      (key : String) (s : S)
      → HasOrder a id o (v.view s)
      → Ensures (get_order_records stod_returns r key) s (Kept stod_returns r d id o received)
  unfolding get_order_records
  get_order_records-Kept key s h =
      ensures-bind_if (is_blank key) _ _ _ s
        (ensures-get_all d.purchase_order_records _ s (ensures-pure _ s h))
        (ensures-get_by_field d.purchase_order_records "orderId" key _ s refl (ensures-pure _ s h))

  respond-Kept :
      (m : Exec S (Unit {0})) (s : S)
      → Ensures m s (Kept stod_returns r d id o received)
      → Ensures (m >> pure empty_response) s (Kept stod_returns r d id o received)
  respond-Kept m s h = ensures-bind m s _ h (λ e s' p. p) (λ _ s' p. ensures-pure _ s' p)

  orders_task-Kept :
      (request : RequestData) (s : S)
      → HasOrder a id o (v.view s)
      → Ensures (orders_task stod_returns r request) s (Kept stod_returns r d id o received)
  unfolding orders_task
  orders_task-Kept request s h =
      ensures-method request.method _ _ _ _ _ s (get_orders-Kept s h)
        (respond-Kept _ s (add_order-Kept stod_returns r d id o received request.dataset s h))
        (respond-Kept _ s
          (edit_order-Kept stod_returns r d id o received request.dataset request.resource_id s h))
        (respond-Kept _ s
          (delete_order-Kept stod_returns r d id o received request.resource_id s h))
        (ensures-raise _ _ s h)

  order_records_task-Kept :
      (request : RequestData) (s : S)
      → HasOrder a id o (v.view s)
      → Ensures (order_records_task stod_returns r request) s (Kept stod_returns r d id o received)
  unfolding order_records_task
  order_records_task-Kept request s h =
      ensures-method request.method _ _ _ _ _ s (get_order_records-Kept request.resource_id s h)
        (respond-Kept _ s
          (add_order_record-Kept stod_returns r d id o received request.dataset s h))
        (respond-Kept _ s (
          edit_order_record-Kept stod_returns r d id o received request.dataset request.resource_id
            s h))
        (respond-Kept _ s
          (delete_order_record-Kept stod_returns r d id o received request.resource_id s h))
        (ensures-raise _ _ s h)

  execute_task-Kept :
      (request : RequestData) (s : S)
      → HasOrder a id o (v.view s)
      → Ensures (execute_task stod_returns r request) s (Kept stod_returns r d id o received)
  unfolding execute_task receipts_task
  execute_task-Kept request s h =
      ensures-if (request.submodule == "orders") _ _ s (λ _. orders_task-Kept request s h)
        λ _.
          ensures-if (request.submodule == "order-records") _ _ s
            (λ _. order_records_task-Kept request s h)
            λ _.
              ensures-if (request.submodule == "receipts") _ _ s
                (λ _.
                  ensures-if (request.method == "POST") _ _ s
                    (λ _.
                      respond-Kept _ s
                        (receive_order-Kept stod_returns r d id o received request.dataset s h))
                    (λ _. ensures-raise _ _ s h))
                (λ _. ensures-raise _ _ s h)

  -- An order whose status is read as Received, and which is the one order that its id finds, is
  -- still that, field by field, after any request to the purchase module, whether the request
  -- returns or throws: it can be neither edited, nor deleted, nor received again.
  pub received_order_stays :
      (request : RequestData) (s : S)
      → HasOrder a id o (v.view s)
      → HasOrder a id o (v.view (execute_task stod_returns r request s).1)
  received_order_stays request s h = (execute_task-Kept request s h).holds
