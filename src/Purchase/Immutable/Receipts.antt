-- ===== src/Purchase/Immutable/Receipts.antt =====
-- A received order stays as it is when another order is received, also if that is rolled back.
use sage_store.Prelude.{String, Bool, ◌≡◌, refl, ◌∙◌, Option, none, some}
use sage_store.Prelude.Assoc.{find}
use sage_store.Exec.{ok}
use sage_store.Exec.Ensures.{Ensures, ensures-lift, ensures-throw_if, ensures-bind, ensures-if}
use sage_store.Entities.{PurchaseOrder}
use sage_store.DataSpecs.{Dataset}
use sage_store.Repositories.{RepositoryManager}
use sage_store.ModuleUtils.{get_required_positive_integer}
use sage_store.Tables.{Affinity, purchase_order_columns}
use sage_store.Tables.Laws.{Views, IsDatabase}
use sage_store.Tables.Rows.{found-update_other, integer-id-found}
use sage_store.Tables.Rules.{ensures-entity_exists, ensures-get_by_field}
use sage_store.Tables.Transactions.{Both, ensures-for_each, write_keeps_pair, transaction_keeps}
use sage_store.Purchase.Status.{component, normalize_order_status}
use sage_store.Purchase.Receipt.{
  PlannedStockMutation, empty_plan, plan_records, write_mutation, write_plan, receive_order,
}
use sage_store.Purchase.Planning.{plan_records-Same}
use sage_store.Purchase.Rules.{ensures-not_received, ensures-order_by_id}
use sage_store.Purchase.Immutable.{orders-IsKeyed, HasOrder, Kept, other_order}

module _ {S : Type 0} (stod_returns : String → Bool) (r : RepositoryManager S) {a : Affinity}
    {v : Views S} (d : IsDatabase a v r) (id : String) (o : PurchaseOrder)
    (received : normalize_order_status o.status ≡ ok "Received") where
  write_mutation-Both :
      (m : Option PlannedStockMutation) (s : S)
      → Both v (HasOrder a id o) s
      → Ensures (write_mutation r m) s (λ _ s'. Both v (HasOrder a id o) s')
  unfolding write_mutation
  write_mutation-Both none s h = record { holds = h }
  write_mutation-Both (some m) s h =
      ensures-if m.create _ _ s
        (λ _. write_keeps_pair v (HasOrder a id o) _ s _ (d.inventory.add_lem m.stock s) h h.0)
        (λ _. write_keeps_pair v (HasOrder a id o) _ s _ (d.inventory.update_lem m.stock s) h h.0)

  pub receive_order-Kept :
      (request : Dataset) (s : S)
      → HasOrder a id o (v.view s)
      → Ensures (receive_order r request) s (Kept stod_returns r d id o received)
  unfolding receive_order write_plan
  receive_order-Kept request s h =
      ensures-lift (get_required_positive_integer request "id" component) _ s (λ _. h)
        λ key _.
          ensures-lift (get_required_positive_integer request "employeeId" component) _ s (λ _. h)
            λ employee _.
              ensures-entity_exists d.employees _ _ _ _ _ s refl (λ _. h)
                λ _.
                  ensures-order_by_id d.purchase_orders refl key _ s (λ _. h)
                    λ old rest e.
                      ensures-not_received old _ _ s (λ _. h)
                        λ status n ne.
                          ensures-get_by_field d.purchase_order_records "orderId" key _ s refl (
                            ensures-throw_if _ _ _ _ s (λ _. h)
                              λ _.
                                ensures-bind (plan_records r employee _ empty_plan) s _
                                  (plan_records-Same r d employee _ empty_plan s)
                                  (λ e s' same. rw same h)
                                  (λ plan s' same.
                                    transaction_keeps v (HasOrder a id o) r d.transactions _ s'
                                      (rw same h)
                                      λ s'' began both.
                                        ensures-bind _ s'' _
                                          (ensures-for_each (Both v (HasOrder a id o)) _
                                            (λ p u b. write_mutation-Both (find p plan.stocks) u b)
                                            plan.order s'' both)
                                          (λ e u b. b)
                                          (λ _ u b.
                                            write_keeps_pair v (HasOrder a id o) _ u _
                                              (d.purchase_orders.update_lem
                                                (record old { status = "Received" }) u)
                                              b
                                              (found-update_other a (purchase_order_columns a)
                                                  (orders-IsKeyed a) id
                                                  (record old { status = "Received" }) _
                                                  (rw
                                                    (integer-id-found a (purchase_order_columns a)
                                                      (orders-IsKeyed a) key old rest _ e)
                                                    (other_order stod_returns r d id o received key
                                                      status old rest s h e n ne))
                                                ∙ b.0))))
