-- ===== src/Purchase/Rules.antt =====
-- Rules for the guards that the handlers of purchase orders share.
use sage_store.Prelude.{String, ◌≡◌, refl, true, false, List, [], ◌∷◌, ◌==◌, arith}
use sage_store.Exec.{Exception, Result, ok, err, Exec, lift, ◌>>=◌, ◌>>◌}
use sage_store.Exec.Ensures.{Ensures, ensures-lift, ensures-throw_if, ensures_assoc}
use sage_store.Entities.{PurchaseOrder}
use sage_store.DataSpecs.{Dataset}
use sage_store.Repositories.{IRepository}
use sage_store.ModuleUtils.{ensure_entity_exists}
use sage_store.Tables.{Tables, Columns}
use sage_store.Tables.Laws.{Views, IsTable}
use sage_store.Tables.Rules.{rows_by, ensures-entity_exists, ensures-get_by_field}
use sage_store.Purchase.Status.{component, normalize_order_status}
use sage_store.Purchase.Requests.{build_order}
use sage_store.Purchase.Receipt.{first_order, get_order_by_id, ensure_order_is_not_received}

-- The entity that is built from a request has the id of the request.
pub id-build_order :
    (request : Dataset) (resource_id : String) (order : PurchaseOrder)
    → build_order request resource_id ≡ ok order
    → order.id ≡ resource_id
unfolding build_order
id-build_order request resource_id order h = ground arith

module _ {S A : Type 0} {Q : Result A → S → Type 0} where
  pub ensures-not_received :
      (order : PurchaseOrder) (message : String) (k : Exec S A) (s : S)
      → ((e : Exception) → Q (err e) s)
      → ((status : String)
          → normalize_order_status order.status ≡ ok status
          → (status == "Received") ≡ false
          → Ensures k s Q)
      → Ensures (ensure_order_is_not_received order message >> k) s Q
  unfolding ensure_order_is_not_received
  ensures-not_received order message k s failed done =
      ensures_assoc (lift (normalize_order_status order.status)) _ (λ _. k) s
        (ensures-lift (normalize_order_status order.status) _ s failed (λ status e.
          ensures-throw_if (status == "Received") component message k s (λ _. failed _)
            (done status e)))

module _ {S A : Type 0} {Q : Result A → S → Type 0} where
  ensures-first_order :
      (orders : List PurchaseOrder) (f : PurchaseOrder → Exec S A) (s : S)
      → ((e : Exception) → Q (err e) s)
      → ((order : PurchaseOrder) (rest : List PurchaseOrder)
          → orders ≡ order ∷ rest
          → Ensures (f order) s Q)
      → Ensures (first_order orders >>= f) s Q
  unfolding first_order ◌>>=◌
  ensures-first_order [] f s failed done = record { holds = failed _ }
  ensures-first_order (order ∷ rest) f s failed done = record {
    holds = (done order rest refl).holds;
  }

module _ {S A : Type 0} {v : Views S} {get : Tables → List PurchaseOrder}
    {put : List PurchaseOrder → Tables → Tables} {c : Columns PurchaseOrder}
    {r : IRepository S PurchaseOrder} (t : IsTable v get put c r) (has_id : c.has "id" ≡ true)
    {Q : Result A → S → Type 0} where
  pub ensures-order_by_id :
      (id : String) (f : PurchaseOrder → Exec S A) (s : S)
      → ((e : Exception) → Q (err e) s)
      → ((order : PurchaseOrder) (rest : List PurchaseOrder)
          → rows_by t "id" id s ≡ order ∷ rest
          → Ensures (f order) s Q)
      → Ensures (get_order_by_id r id >>= f) s Q
  unfolding get_order_by_id
  ensures-order_by_id id f s failed done =
      ensures_assoc (ensure_entity_exists r "id" id component "Purchase order does not exist") _ f s
        (ensures-entity_exists t "id" id component "Purchase order does not exist" _ s has_id
          (λ _. failed _)
          (λ _.
            ensures_assoc (r.get_by_field "id" id) first_order f s
              (ensures-get_by_field t "id" id _ s has_id (ensures-first_order _ f s failed done))))
