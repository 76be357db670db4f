-- ===== src/Client/Responses/Inventory.antt =====
-- ApiManager.cpp reads the tables that the server sends: product types, stocks and supplier products.
use sage_store.Prelude.{◌≡◌, ◌∙◌, refl, ap, List, [], ◌∷◌, some}
use sage_store.DataSpecs.{Dataset, table_response}
use sage_store.DataSpecs.Columns.{cells_of}
use sage_store.Inventory.{
  product_type_keys, product_type_cells, stock_keys, stock_cells, supplier_product_keys,
  supplier_product_cells,
}
use sage_store.Entities.{ProductType, Inventory, SuppliersProductInfo}
use sage_store.Client.{get}
use sage_store.Client.Endpoints
use sage_store.Client.Tables.{cell}
use sage_store.Client.Tables.Listed.{Fits, SameLookups, map_id, read_table-table_response}
use sage_store.DataSpecs.{empty_columns}
use sage_store.Prelude.Assoc.{find}
use sage_store.Client.Signals.{product_types_list, stocks_list, supplier_products_list}
use sage_store.Client.Handlers.Inventory.{
  handle_product_types_list, handle_product_types_list_row, handle_product_types,
  handle_stocks_list, handle_stocks_list_row, handle_stocks, handle_supplier_products_list,
  handle_supplier_products_list_row, handle_supplier_products,
}
use sage_store.Client.Responses.{handle_response}
use sage_store.Client.Responses.Shown.{shown_of}

handle_product_types_list-Fits : Fits product_type_keys product_type_cells (
    ("id", λ e. e.id)
    ∷ ("code", λ e. e.code)
    ∷ ("barcode", λ e. e.barcode)
    ∷ ("name", λ e. e.name)
    ∷ ("description", λ e. e.description)
    ∷ ("lastPrice", λ e. e.last_price)
    ∷ ("unit", λ e. e.unit)
    ∷ ("isImported", λ e. e.is_imported)
    ∷ [])
unfolding Fits cells_of empty_columns find
handle_product_types_list-Fits = (
  λ _. refl,
  refl,
  (
    λ _. refl,
    refl,
    (
      λ _. refl,
      refl,
      (
        λ _. refl,
        refl,
        (λ _. refl, refl, (λ _. refl, refl, (λ _. refl, refl, (λ _. refl, refl, tt)))),
      ),
    ),
  ),
)

pub handle_product_types_list_lem :
    (es : List ProductType) (d : Dataset)
    → SameLookups d (table_response product_type_keys product_type_cells es).dataset
    → handle_response Endpoints.inventory_product_types get d ≡ some (product_types_list (es))
unfolding handle_response handle_product_types handle_product_types_list cell
handle_product_types_list_lem es d alike =
    shown_of product_type_keys product_type_cells handle_product_types get
      (λ e. unfold cells_of in refl) es d alike
      (ap (λ s. some s)
        (read_table-table_response product_type_keys product_type_cells
            (("code", λ e. e.code)
              ∷ ("barcode", λ e. e.barcode)
              ∷ ("name", λ e. e.name)
              ∷ ("description", λ e. e.description)
              ∷ ("lastPrice", λ e. e.last_price)
              ∷ ("unit", λ e. e.unit)
              ∷ ("isImported", λ e. e.is_imported)
              ∷ [])
            "Key missing in dataset" "ProductType lists have different sizes."
            (λ r. handle_product_types_list_row r) product_types_list (λ e. e) "id" (λ e. e.id)
            handle_product_types_list-Fits (λ e. refl) es d alike
          ∙ ap product_types_list (map_id es)))

handle_stocks_list-Fits : Fits stock_keys stock_cells (
    ("id", λ e. e.id)
    ∷ ("productTypeId", λ e. e.product_type_id)
    ∷ ("quantityAvailable", λ e. e.quantity_available)
    ∷ ("employeeId", λ e. e.employee_id)
    ∷ [])
unfolding Fits cells_of empty_columns find
handle_stocks_list-Fits =
    (λ _. refl, refl, (λ _. refl, refl, (λ _. refl, refl, (λ _. refl, refl, tt))))

pub handle_stocks_list_lem :
    (es : List Inventory) (d : Dataset)
    → SameLookups d (table_response stock_keys stock_cells es).dataset
    → handle_response Endpoints.inventory_stocks get d ≡ some (stocks_list (es))
unfolding handle_response handle_stocks handle_stocks_list cell
handle_stocks_list_lem es d alike =
    shown_of stock_keys stock_cells handle_stocks get (λ e. unfold cells_of in refl) es d alike
      (ap (λ s. some s)
        (read_table-table_response stock_keys stock_cells
            (("productTypeId", λ e. e.product_type_id)
              ∷ ("quantityAvailable", λ e. e.quantity_available)
              ∷ ("employeeId", λ e. e.employee_id)
              ∷ [])
            "Key missing in dataset" "Inventory lists have different sizes."
            (λ r. handle_stocks_list_row r) stocks_list (λ e. e) "id" (λ e. e.id)
            handle_stocks_list-Fits (λ e. refl) es d alike
          ∙ ap stocks_list (map_id es)))

handle_supplier_products_list-Fits : Fits supplier_product_keys supplier_product_cells (
    ("id", λ e. e.id)
    ∷ ("supplierID", λ e. e.supplier_id)
    ∷ ("productTypeId", λ e. e.product_type_id)
    ∷ ("code", λ e. e.code)
    ∷ [])
unfolding Fits cells_of empty_columns find
handle_supplier_products_list-Fits =
    (λ _. refl, refl, (λ _. refl, refl, (λ _. refl, refl, (λ _. refl, refl, tt))))

pub handle_supplier_products_list_lem :
    (es : List SuppliersProductInfo) (d : Dataset)
    → SameLookups d (table_response supplier_product_keys supplier_product_cells es).dataset
    → handle_response Endpoints.inventory_supplier_products get d
      ≡ some (supplier_products_list (es))
unfolding handle_response handle_supplier_products handle_supplier_products_list cell
handle_supplier_products_list_lem es d alike =
    shown_of supplier_product_keys supplier_product_cells handle_supplier_products get
      (λ e. unfold cells_of in refl) es d alike
      (ap (λ s. some s)
        (read_table-table_response supplier_product_keys supplier_product_cells
            (("supplierID", λ e. e.supplier_id)
              ∷ ("productTypeId", λ e. e.product_type_id)
              ∷ ("code", λ e. e.code)
              ∷ [])
            "Key missing in dataset" "Supplier product lists have different sizes."
            (λ r. handle_supplier_products_list_row r) supplier_products_list (λ e. e) "id"
            (λ e. e.id) handle_supplier_products_list-Fits (λ e. refl) es d alike
          ∙ ap supplier_products_list (map_id es)))
