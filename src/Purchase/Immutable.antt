-- ===== src/Purchase/Immutable.antt =====
-- A purchase order that is received stays as it is: no request to the purchase module changes or
-- deletes it, whether the request succeeds or throws.
pub mod Lines
pub mod Receipts
pub mod Tasks
use sage_store.Prelude.{
  String, Bool, ◌≡◌, refl, ◌∙◌, false, String-cases, inl, inr, Option, none, some, List, [], ◌∷◌,
  is_blank, ◌==◌, eq_iff, arith,
}
use sage_store.Prelude.Assoc.{find}
use sage_store.Exec.{Result, ok, throw, Exec, pure, ◌>>=◌, ◌>>◌}
use sage_store.Exec.Ensures.{
  Ensures, ensures-lift, ensures-throw_if, ensures-bind, ensures-if, ensures-pure, ensures-raise,
  ensures-bind_if, ensures-method,
}
use sage_store.Entities.{PurchaseOrder, PurchaseOrderRecord}
use sage_store.DataSpecs.{Dataset, RequestData, empty_response}
use sage_store.Repositories.{RepositoryManager}
use sage_store.ModuleUtils.{ensure_resource_id, get_required_positive_integer}
use sage_store.Tables.{Tables, Affinity, purchase_order_columns}
use sage_store.Tables.Laws.{Views, IsDatabase}
use sage_store.Tables.Rows.{
  IsKeyed, found, found_same, found-update_other, found-delete_other, found-add_other,
  integer-id-found,
}
use sage_store.Tables.Rules.{
  rows_by, ensures-entity_exists, ensures-get_by_field, ensures-get_all, written_keeps,
}
use sage_store.Tables.Transactions.{Both, ensures-for_each, write_keeps_pair, transaction_keeps}
use sage_store.Purchase.{
  ensure_order_status_can_be_set_manually, first_record, get_orders, add_order, edit_order,
  delete_order, add_order_record, edit_order_record, delete_order_record, get_order_records,
  orders_task, order_records_task, receipts_task, execute_task,
}
use sage_store.Purchase.Status.{component, normalize_order_status}
use sage_store.Purchase.Requests.{build_order, build_order_record}
use sage_store.Purchase.Receipt.{
  PlannedStockMutation, empty_plan, plan_records, write_mutation, write_plan, receive_order,
}
use sage_store.Purchase.Planning.{plan_records-Same}
use sage_store.Purchase.Rules.{id-build_order, ensures-not_received, ensures-order_by_id}

pub orders-IsKeyed : (a : Affinity) → IsKeyed a (purchase_order_columns a)
orders-IsKeyed a = record { by_id = λ _ _. refl; id_with_id = λ _ _. refl }

-- The id finds this order, and no other.
abbrev pub HasOrder : Affinity → String → PurchaseOrder → Tables → Type 0
HasOrder a id o t = found (purchase_order_columns a) id t.purchase_orders ≡ o ∷ []

module _ {S : Type 0} (stod_returns : String → Bool) (r : RepositoryManager S) {a : Affinity}
    {v : Views S} (d : IsDatabase a v r) (id : String) (o : PurchaseOrder)
    (received : normalize_order_status o.status ≡ ok "Received") where
  abbrev pub Kept : {A : Type 0} → Result A → S → Type 0
  Kept _ s = HasOrder a id o (v.view s)

  -- An order that is not received is another order.
  pub other_order :
      (key status : String) (order : PurchaseOrder) (rest : List PurchaseOrder) (s : S)
      → HasOrder a id o (v.view s)
      → rows_by d.purchase_orders "id" key s ≡ order ∷ rest
      → normalize_order_status order.status ≡ ok status
      → (status == "Received") ≡ false
      → (a.integer id == a.integer key) ≡ false
  other_order key status order rest s h e n ne =
      elim (String-cases (a.integer id) (a.integer key)) [
        | inl same ↦ absurd (
            ground (
              arith,
              found_same a (purchase_order_columns a) (orders-IsKeyed a) id key
                  (v.view s).purchase_orders same,
              eq_iff status "Received",
            ))
        | inr other ↦ other
      ]

  pub add_order-Kept :
      (request : Dataset) (s : S)
      → HasOrder a id o (v.view s)
      → Ensures (add_order stod_returns r request) s Kept
  unfolding add_order ensure_order_status_can_be_set_manually
  add_order-Kept request s h =
      ensures-lift (build_order request "") _ s (λ _. h)
        λ order built.
          ensures-throw_if _ _ _ _ s (λ _. h)
            λ _.
              ensures-entity_exists d.users _ _ _ _ _ s refl (λ _. h)
                λ _.
                  ensures-entity_exists d.suppliers _ _ _ _ _ s refl (λ _. h)
                    λ _.
                      written_keeps v (HasOrder a id o) (r.purchase_orders.add order) s _
                        (d.purchase_orders.add_lem order s) h
                        (found-add_other a (purchase_order_columns a) (orders-IsKeyed a) id _ order
                          o _ (d.purchase_orders.new_id_fresh order s) h)

  pub edit_order-Kept :
      (request : Dataset) (key : String) (s : S)
      → HasOrder a id o (v.view s)
      → Ensures (edit_order stod_returns r request key) s Kept
  unfolding edit_order ensure_order_status_can_be_set_manually
  edit_order-Kept request key s h =
      ensures-lift (ensure_resource_id key component "Purchase order") _ s (λ _. h)
        λ _ _.
          ensures-order_by_id d.purchase_orders refl key _ s (λ _. h)
            λ old rest e.
              ensures-not_received old _ _ s (λ _. h)
                λ status n ne.
                  ensures-lift (build_order request key) _ s (λ _. h)
                    λ order built.
                      ensures-throw_if _ _ _ _ s (λ _. h)
                        λ _.
                          ensures-entity_exists d.users _ _ _ _ _ s refl (λ _. h)
                            λ _.
                              ensures-entity_exists d.suppliers _ _ _ _ _ s refl (λ _. h)
                                λ _.
                                  written_keeps v (HasOrder a id o) (r.purchase_orders.update order)
                                    s _ (d.purchase_orders.update_lem order s) h
                                    (found-update_other a (purchase_order_columns a)
                                        (orders-IsKeyed a) id order _
                                        (rw (id-build_order request key order built)
                                          (other_order key status old rest s h e n ne))
                                      ∙ h)

  -- What does not touch the orders keeps them.
  delete_line-Both :
      (l : PurchaseOrderRecord) (s : S)
      → Both v (HasOrder a id o) s
      → Ensures
          (r.purchase_order_records.delete_resource l.id)
          s
          (λ _ s'. Both v (HasOrder a id o) s')
  delete_line-Both l s h =
      write_keeps_pair v (HasOrder a id o) _ s _
        (d.purchase_order_records.delete_resource_lem l.id s) h h.0

  pub delete_order-Kept :
      (key : String) (s : S)
      → HasOrder a id o (v.view s)
      → Ensures (delete_order stod_returns r key) s Kept
  unfolding delete_order
  delete_order-Kept key s h =
      ensures-lift (ensure_resource_id key component "Purchase order") _ s (λ _. h)
        λ _ _.
          ensures-order_by_id d.purchase_orders refl key _ s (λ _. h)
            λ old rest e.
              ensures-not_received old _ _ s (λ _. h)
                λ status n ne.
                  ensures-get_by_field d.purchase_order_records "orderId" key _ s refl (
                    ensures-bind _ s _
                      (ensures-for_each (λ s'. HasOrder a id o (v.view s')) _
                        (λ l s' p.
                          written_keeps v (HasOrder a id o) _ s' _
                            (d.purchase_order_records.delete_resource_lem l.id s') p p)
                        _ s h)
                      (λ e s' p. p)
                      (λ _ s' p.
                        written_keeps v (HasOrder a id o) (r.purchase_orders.delete_resource key) s'
                          _ (d.purchase_orders.delete_resource_lem key s') p
                          (found-delete_other (a) (purchase_order_columns a) (orders-IsKeyed a) id
                              key _ (other_order key status old rest s h e n ne)
                            ∙ p)))
