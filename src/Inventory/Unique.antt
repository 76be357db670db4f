-- ===== src/Inventory/Unique.antt =====
-- No two product types have one code, and no two stocks one product type.
pub mod Tasks
use sage_store.Prelude.{
  String, Bool, ◌≡◌, refl, true, false, not, ◌==◌, is_blank, is_empty, any, arith, List, [], ◌∷◌,
  Bool-cases, inl, inr,
}
use sage_store.Exec.{Result, ok, Exec, lift, throw_if, ◌>>=◌, ◌>>◌}
use sage_store.Exec.Ensures.{Ensures, ensures-pure, ensures-raise, ensures-if, ensures-method}
use sage_store.Entities.{ProductType, Inventory, SuppliersProductInfo}
use sage_store.DataSpecs.{Dataset, RequestData}
use sage_store.Repositories.{RepositoryManager}
use sage_store.Tables.{
  Tables, Affinity, product_type_columns, inventory_columns, suppliers_product_info_columns,
}
use sage_store.Tables.Laws.{Views, IsDatabase}
use sage_store.Tables.Rows.{IsKeyed}
use sage_store.Tables.Rules.{ensures-get_by_field, ensures-get_all}
use sage_store.Tables.Unique.{IsKeyColumn, IsUnique, add-IsUnique, update-IsUnique, delete-IsUnique}
use sage_store.Tables.Settled.{
  Settled, Written-Settled, Settled-respond, Settled-lift, Settled-throw_if,
}
use sage_store.Inventory.Requests.{
  component, build_product_type, build_stock, build_supplier_product,
}
use sage_store.Inventory.{
  get_product_types, add_product_type, edit_product_type, delete_product_type, get_stocks,
  add_stock, edit_stock, delete_stock, get_supplier_products, add_supplier_product,
  edit_supplier_product, delete_supplier_product, product_types_task, stocks_task,
  supplier_products_task, execute_task,
}

module _ (a : Affinity) where
  product_types-IsKeyed : IsKeyed a (product_type_columns a)
  product_types-IsKeyed = record { by_id = λ _ _. refl; id_with_id = λ _ _. refl }

  pub stocks-IsKeyed : IsKeyed a (inventory_columns a)
  stocks-IsKeyed = record { by_id = λ _ _. refl; id_with_id = λ _ _. refl }

  code_column : IsKeyColumn (product_type_columns a) "code" (λ e. e.code) (λ v. v)
  code_column = record { by_key = λ _ _. refl; key_with_id = λ _ _. refl; key_stored = λ _. refl }

  pub product_column :
      IsKeyColumn (inventory_columns a) "productTypeId" (λ e. e.product_type_id) a.integer
  product_column = record {
    by_key = λ _ _. refl;
    key_with_id = λ _ _. refl;
    key_stored = λ _. refl;
  }

  -- One product type for a code, one stock for a product type, and ids as their columns store them.
  pub record IsStocked (t : Tables) : Type 0 where
    pub product_types : IsUnique a (product_type_columns a) "code" t.product_types
    pub stocks : IsUnique a (inventory_columns a) "productTypeId" t.inventory

-- What is built for a resource has the id of the resource.
id-build_product_type :
    (request : Dataset) (id : String) (p : ProductType)
    → build_product_type request id ≡ ok p
    → p.id ≡ id
unfolding build_product_type
id-build_product_type request id p h = ground arith

id-build_stock :
    (request : Dataset) (id : String) (p : Inventory) → build_stock request id ≡ ok p → p.id ≡ id
unfolding build_stock
id-build_stock request id p h = ground arith

not-false : (b : Bool) → not b ≡ false → b ≡ true
not-false true h = refl
not-false false h = cc

module _ {S : Type 0} (r : RepositoryManager S) {a : Affinity} {v : Views S}
    (d : IsDatabase a v r) where
  -- Succeeds with the invariant, or throws with the tables as they were.
  abbrev pub Settles : {A : Type 0} → Exec S A → S → Type 0
  Settles m s = Ensures m s (Settled v (IsStocked a) s)

  pub add_product_type-Settles :
      (request : Dataset) (s : S) → IsStocked a (v.view s) → Settles (add_product_type r request) s
  unfolding add_product_type
  add_product_type-Settles request s h =
      Settled-lift v (IsStocked a) s (build_product_type request "") _ λ p _.
        ensures-get_by_field d.product_types "code" p.code _ s refl (
          Settled-throw_if v (IsStocked a) s _ _ _ _ λ free.
            Written-Settled v (IsStocked a) s _ _ (d.product_types.add_lem p s) (record {
              product_types =
                  add-IsUnique a _ (product_types-IsKeyed a) "code" _ _ (code_column a) _ p _
                    (d.product_types.new_id_fresh p s) (not-false _ free) h.product_types;
              stocks = h.stocks;
            }))

  pub edit_product_type-Settles :
      (request : Dataset) (id : String) (s : S)
      → IsStocked a (v.view s)
      → Settles (edit_product_type r request id) s
  unfolding edit_product_type
  edit_product_type-Settles request id s h = Settled-throw_if v (IsStocked a) s _ _ _ _ λ _.
      ensures-get_by_field d.product_types "id" id _ s refl (
        Settled-throw_if v (IsStocked a) s _ _ _ _ λ _.
          Settled-lift v (IsStocked a) s (build_product_type request id) _ λ p built.
            ensures-get_by_field d.product_types "code" p.code _ s refl (
              Settled-throw_if v (IsStocked a) s _ _ _ _ λ alone.
                Written-Settled v (IsStocked a) s _ _ (d.product_types.update_lem p s) (record {
                  product_types =
                      update-IsUnique a _ (product_types-IsKeyed a) "code" _ _ (code_column a) p _
                        (rw (id-build_product_type request id p built) alone) h.product_types;
                  stocks = h.stocks;
                })))

  pub delete_product_type-Settles :
      (id : String) (s : S) → IsStocked a (v.view s) → Settles (delete_product_type r id) s
  unfolding delete_product_type
  delete_product_type-Settles id s h = Settled-throw_if v (IsStocked a) s _ _ _ _ λ _.
      ensures-get_by_field d.product_types "id" id _ s refl (
        Settled-throw_if v (IsStocked a) s _ _ _ _ λ _.
          Written-Settled v (IsStocked a) s _ _ (d.product_types.delete_resource_lem id s) (record {
            product_types =
                delete-IsUnique a _ (product_types-IsKeyed a) "code" _ _ (code_column a) id _
                  h.product_types;
            stocks = h.stocks;
          }))

  pub add_stock-Settles :
      (request : Dataset) (s : S) → IsStocked a (v.view s) → Settles (add_stock r request) s
  unfolding add_stock
  add_stock-Settles request s h = Settled-lift v (IsStocked a) s (build_stock request "") _ λ p _.
      ensures-get_by_field d.product_types "id" p.product_type_id _ s refl (
        Settled-throw_if v (IsStocked a) s _ _ _ _ λ _.
          ensures-get_by_field d.inventory "productTypeId" p.product_type_id _ s refl (
            Settled-throw_if v (IsStocked a) s _ _ _ _ λ free.
              Written-Settled v (IsStocked a) s _ _ (d.inventory.add_lem p s) (record {
                product_types = h.product_types;
                stocks =
                    add-IsUnique a _ (stocks-IsKeyed a) "productTypeId" _ _ (product_column a) _ p _
                      (d.inventory.new_id_fresh p s) (not-false _ free) h.stocks;
              })))

  pub edit_stock-Settles :
      (request : Dataset) (id : String) (s : S)
      → IsStocked a (v.view s)
      → Settles (edit_stock r request id) s
  unfolding edit_stock
  edit_stock-Settles request id s h = Settled-throw_if v (IsStocked a) s _ _ _ _ λ _.
      ensures-get_by_field d.inventory "id" id _ s refl (
        Settled-throw_if v (IsStocked a) s _ _ _ _ λ _.
          Settled-lift v (IsStocked a) s (build_stock request id) _ λ p built.
            ensures-get_by_field d.product_types "id" p.product_type_id _ s refl (
              Settled-throw_if v (IsStocked a) s _ _ _ _ λ _.
                ensures-get_by_field d.inventory "productTypeId" p.product_type_id _ s refl (
                  Settled-throw_if v (IsStocked a) s _ _ _ _ λ alone.
                    Written-Settled v (IsStocked a) s _ _ (d.inventory.update_lem p s) (record {
                      product_types = h.product_types;
                      stocks =
                          update-IsUnique a _ (stocks-IsKeyed a) "productTypeId" _ _
                            (product_column a) p _ (rw (id-build_stock request id p built) alone)
                            h.stocks;
                    }))))

  pub delete_stock-Settles :
      (id : String) (s : S) → IsStocked a (v.view s) → Settles (delete_stock r id) s
  unfolding delete_stock
  delete_stock-Settles id s h = Settled-throw_if v (IsStocked a) s _ _ _ _ λ _.
      ensures-get_by_field d.inventory "id" id _ s refl (
        Settled-throw_if v (IsStocked a) s _ _ _ _ λ _.
          Written-Settled v (IsStocked a) s _ _ (d.inventory.delete_resource_lem id s) (record {
            product_types = h.product_types;
            stocks =
                delete-IsUnique a _ (stocks-IsKeyed a) "productTypeId" _ _ (product_column a) id _
                  h.stocks;
          }))
