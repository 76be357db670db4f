-- ===== src/Inventory/Unique/Tasks.antt =====
-- The invariant of the inventory module, for the requests to it.
use sage_store.Prelude.{String, refl, ◌==◌}
use sage_store.Exec.Ensures.{ensures-pure, ensures-raise, ensures-if, ensures-method}
use sage_store.DataSpecs.{Dataset, RequestData}
use sage_store.Repositories.{RepositoryManager}
use sage_store.Tables.{Affinity}
use sage_store.Tables.Laws.{Views, IsDatabase}
use sage_store.Tables.Rules.{ensures-get_by_field, ensures-get_all}
use sage_store.Tables.Settled.{
  Settled, Written-Settled, Settled-respond, Settled-lift, Settled-throw_if,
}
use sage_store.Inventory.Requests.{build_supplier_product}
use sage_store.Inventory.{
  get_product_types, get_stocks, get_supplier_products, add_supplier_product, edit_supplier_product,
  delete_supplier_product, product_types_task, stocks_task, supplier_products_task, execute_task,
}
use sage_store.Inventory.Unique.{
  IsStocked, Settles, add_product_type-Settles, edit_product_type-Settles,
  delete_product_type-Settles, add_stock-Settles, edit_stock-Settles, delete_stock-Settles,
}

module _ {S : Type 0} (r : RepositoryManager S) {a : Affinity} {v : Views S}
    (d : IsDatabase a v r) where
  -- The supplier products are another table.
  add_supplier_product-Settles :
      (request : Dataset) (s : S)
      → IsStocked a (v.view s)
      → Settles r d (add_supplier_product r request) s
  unfolding add_supplier_product
  add_supplier_product-Settles request s h =
      Settled-lift v (IsStocked a) s (build_supplier_product request "") _ λ p _.
        ensures-get_by_field d.suppliers "id" p.supplier_id _ s refl (
          Settled-throw_if v (IsStocked a) s _ _ _ _ λ _.
            ensures-get_by_field d.product_types "id" p.product_type_id _ s refl (
              Settled-throw_if v (IsStocked a) s _ _ _ _ λ _.
                Written-Settled v (IsStocked a) s _ _ (d.suppliers_product_info.add_lem p s)
                  (record { product_types = h.product_types; stocks = h.stocks })))

  edit_supplier_product-Settles :
      (request : Dataset) (id : String) (s : S)
      → IsStocked a (v.view s)
      → Settles r d (edit_supplier_product r request id) s
  unfolding edit_supplier_product
  edit_supplier_product-Settles request id s h = Settled-throw_if v (IsStocked a) s _ _ _ _ λ _.
      ensures-get_by_field d.suppliers_product_info "id" id _ s refl (
        Settled-throw_if v (IsStocked a) s _ _ _ _ λ _.
          Settled-lift v (IsStocked a) s (build_supplier_product request id) _ λ p _.
            ensures-get_by_field d.suppliers "id" p.supplier_id _ s refl (
              Settled-throw_if v (IsStocked a) s _ _ _ _ λ _.
                ensures-get_by_field d.product_types "id" p.product_type_id _ s refl (
                  Settled-throw_if v (IsStocked a) s _ _ _ _ λ _.
                    Written-Settled v (IsStocked a) s _ _ (d.suppliers_product_info.update_lem p s)
                      (record { product_types = h.product_types; stocks = h.stocks }))))

  delete_supplier_product-Settles :
      (id : String) (s : S) → IsStocked a (v.view s) → Settles r d (delete_supplier_product r id) s
  unfolding delete_supplier_product
  delete_supplier_product-Settles id s h = Settled-throw_if v (IsStocked a) s _ _ _ _ λ _.
      ensures-get_by_field d.suppliers_product_info "id" id _ s refl (
        Settled-throw_if v (IsStocked a) s _ _ _ _ λ _.
          Written-Settled v (IsStocked a) s _ _ (d.suppliers_product_info.delete_resource_lem id s)
            (record { product_types = h.product_types; stocks = h.stocks }))

  product_types_task-Settles :
      (request : RequestData) (s : S)
      → IsStocked a (v.view s)
      → Settles r d (product_types_task r request) s
  unfolding product_types_task get_product_types
  product_types_task-Settles request s h =
      ensures-method request.method _ _ _ _ _ s
        (ensures-get_all d.product_types _ s (ensures-pure _ s h))
        (Settled-respond v (IsStocked a) s _ (add_product_type-Settles r d request.dataset s h))
        (Settled-respond v (IsStocked a) s _
          (edit_product_type-Settles r d request.dataset request.resource_id s h))
        (Settled-respond v (IsStocked a) s _
          (delete_product_type-Settles r d request.resource_id s h))
        (ensures-raise _ _ s refl)

  stocks_task-Settles :
      (request : RequestData) (s : S)
      → IsStocked a (v.view s)
      → Settles r d (stocks_task r request) s
  unfolding stocks_task get_stocks
  stocks_task-Settles request s h =
      ensures-method request.method _ _ _ _ _ s
        (ensures-get_all d.inventory _ s (ensures-pure _ s h))
        (Settled-respond v (IsStocked a) s _ (add_stock-Settles r d request.dataset s h))
        (Settled-respond v (IsStocked a) s _
          (edit_stock-Settles r d request.dataset request.resource_id s h))
        (Settled-respond v (IsStocked a) s _ (delete_stock-Settles r d request.resource_id s h))
        (ensures-raise _ _ s refl)

  supplier_products_task-Settles :
      (request : RequestData) (s : S)
      → IsStocked a (v.view s)
      → Settles r d (supplier_products_task r request) s
  unfolding supplier_products_task get_supplier_products
  supplier_products_task-Settles request s h =
      ensures-method request.method _ _ _ _ _ s
        (ensures-get_all d.suppliers_product_info _ s (ensures-pure _ s h))
        (Settled-respond v (IsStocked a) s _ (add_supplier_product-Settles request.dataset s h))
        (Settled-respond v (IsStocked a) s _
          (edit_supplier_product-Settles request.dataset request.resource_id s h))
        (Settled-respond v (IsStocked a) s _
          (delete_supplier_product-Settles request.resource_id s h))
        (ensures-raise _ _ s refl)

  -- In a database where no two product types have one code, no two stocks have one product type, and
  -- the ids are unique and as their columns store them, a request to the inventory module either
  -- succeeds, and all this holds again, or throws, and the tables are as they were.
  pub execute_task-IsStocked :
      (request : RequestData) (s : S)
      → IsStocked a (v.view s)
      → Settled v (IsStocked a) s (execute_task r request s).0 (execute_task r request s).1
  unfolding execute_task
  execute_task-IsStocked request s h =
      (ensures-if (request.submodule == "product-types") _ _ s
        (λ _. product_types_task-Settles request s h)
        λ _.
          ensures-if (request.submodule == "stocks") _ _ s (λ _. stocks_task-Settles request s h)
            λ _.
              ensures-if (request.submodule == "supplier-products") _ _ s
                (λ _. supplier_products_task-Settles request s h)
                (λ _. ensures-raise _ _ s refl)).holds
