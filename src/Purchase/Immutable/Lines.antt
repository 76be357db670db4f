-- ===== src/Purchase/Immutable/Lines.antt =====
-- A received order stays as it is when its line items, or those of another order, are to be changed.
use sage_store.Prelude.{String, Bool, ◌≡◌, refl, List, [], ◌∷◌}
use sage_store.Exec.{Result, ok, throw, Exec, ◌>>=◌}
use sage_store.Exec.Ensures.{Ensures, ensures-lift}
use sage_store.Entities.{PurchaseOrder, PurchaseOrderRecord}
use sage_store.DataSpecs.{Dataset}
use sage_store.Repositories.{RepositoryManager}
use sage_store.ModuleUtils.{ensure_resource_id}
use sage_store.Tables.{Affinity}
use sage_store.Tables.Laws.{Views, IsDatabase}
use sage_store.Tables.Rules.{ensures-entity_exists, ensures-get_by_field, written_keeps}
use sage_store.Purchase.{first_record, add_order_record, edit_order_record, delete_order_record}
use sage_store.Purchase.Status.{component, normalize_order_status}
use sage_store.Purchase.Requests.{build_order_record}
use sage_store.Purchase.Rules.{ensures-not_received, ensures-order_by_id}
use sage_store.Purchase.Immutable.{HasOrder, Kept}

ensures-first_record :
    {S A : Type 0} {Q : Result A → S → Type 0} (lines : List PurchaseOrderRecord)
    (f : PurchaseOrderRecord → Exec S A) (s : S)
    → Q (throw component "Purchase order record does not exist") s
    → ((line : PurchaseOrderRecord) → Ensures (f line) s Q)
    → Ensures (first_record lines >>= f) s Q
unfolding first_record ◌>>=◌
ensures-first_record [] f s failed done = record { holds = failed }
ensures-first_record (line ∷ _) f s failed done = record { holds = (done line).holds }

module _ {S : Type 0} (stod_returns : String → Bool) (r : RepositoryManager S) {a : Affinity}
    {v : Views S} (d : IsDatabase a v r) (id : String) (o : PurchaseOrder)
    (received : normalize_order_status o.status ≡ ok "Received") where
  pub add_order_record-Kept :
      (request : Dataset) (s : S)
      → HasOrder a id o (v.view s)
      → Ensures (add_order_record stod_returns r request) s (Kept stod_returns r d id o received)
  unfolding add_order_record
  add_order_record-Kept request s h =
      ensures-lift (build_order_record stod_returns request "") _ s (λ _. h)
        λ line _.
          ensures-order_by_id d.purchase_orders refl line.order_id _ s (λ _. h)
            λ parent _ _.
              ensures-not_received parent _ _ s (λ _. h)
                λ _ _ _.
                  ensures-entity_exists d.product_types _ _ _ _ _ s refl (λ _. h)
                    λ _.
                      written_keeps v (HasOrder a id o) _ s _
                        (d.purchase_order_records.add_lem line s) h h

  pub edit_order_record-Kept :
      (request : Dataset) (key : String) (s : S)
      → HasOrder a id o (v.view s)
      → Ensures
          (edit_order_record stod_returns r request key)
          s
          (Kept stod_returns r d id o received)
  unfolding edit_order_record
  edit_order_record-Kept request key s h =
      ensures-lift (ensure_resource_id key component "Purchase order record") _ s (λ _. h)
        λ _ _.
          ensures-entity_exists d.purchase_order_records _ _ _ _ _ s refl (λ _. h)
            λ _. ensures-get_by_field d.purchase_order_records "id" key _ s refl (
              ensures-first_record _ _ s h λ existing.
                ensures-lift (build_order_record stod_returns request key) _ s (λ _. h)
                  λ line _.
                    ensures-order_by_id d.purchase_orders refl existing.order_id _ s (λ _. h)
                      λ parent _ _.
                        ensures-not_received parent _ _ s (λ _. h)
                          λ _ _ _.
                            ensures-order_by_id d.purchase_orders refl line.order_id _ s (λ _. h)
                              λ target _ _.
                                ensures-not_received target _ _ s (λ _. h)
                                  λ _ _ _.
                                    ensures-entity_exists d.product_types _ _ _ _ _ s refl (λ _. h)
                                      λ _.
                                        written_keeps v (HasOrder a id o) _ s _
                                          (d.purchase_order_records.update_lem line s) h h)

  pub delete_order_record-Kept :
      (key : String) (s : S)
      → HasOrder a id o (v.view s)
      → Ensures (delete_order_record stod_returns r key) s (Kept stod_returns r d id o received)
  unfolding delete_order_record
  delete_order_record-Kept key s h =
      ensures-lift (ensure_resource_id key component "Purchase order record") _ s (λ _. h)
        λ _ _.
          ensures-entity_exists d.purchase_order_records _ _ _ _ _ s refl (λ _. h)
            λ _. ensures-get_by_field d.purchase_order_records "id" key _ s refl (
              ensures-first_record _ _ s h λ existing.
                ensures-order_by_id d.purchase_orders refl existing.order_id _ s (λ _. h)
                  λ parent _ _.
                    ensures-not_received parent _ _ s (λ _. h)
                      λ _ _ _.
                        written_keeps v (HasOrder a id o) _ s _
                          (d.purchase_order_records.delete_resource_lem key s) h h)
