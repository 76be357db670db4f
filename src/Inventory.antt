-- ===== src/Inventory.antt =====
-- BusinessLogic/InventoryModule.cpp: product types, stocks and supplier products.
pub mod Requests
pub mod Fields
pub mod Unique
use sage_store.Prelude.{
  String, Bool, not, List, [], ◌∷◌, ◌==◌, is_blank, is_empty, any, if◌then◌else◌,
}
use sage_store.Exec.{Exec, pure, lift, raise, throw_if, ◌>>=◌, ◌>>◌}
use sage_store.DataSpecs.{Dataset, RequestData, ResponseData, empty_response, table_response}
use sage_store.Entities.{ProductType, Inventory, SuppliersProductInfo}
use sage_store.Repositories.{RepositoryManager}
use Requests.{component, build_product_type, build_stock, build_supplier_product}

abbrev pub product_type_keys : List String
product_type_keys =
    "id" ∷ "code" ∷ "barcode" ∷ "name" ∷ "description" ∷ "lastPrice" ∷ "unit" ∷ "isImported" ∷ []

abbrev pub product_type_cells : ProductType → List (String × String)
product_type_cells e =
    ("id", e.id)
    ∷ ("code", e.code)
    ∷ ("barcode", e.barcode)
    ∷ ("name", e.name)
    ∷ ("description", e.description)
    ∷ ("lastPrice", e.last_price)
    ∷ ("unit", e.unit)
    ∷ ("isImported", e.is_imported)
    ∷ []

abbrev pub stock_keys : List String
stock_keys = "id" ∷ "productTypeId" ∷ "quantityAvailable" ∷ "employeeId" ∷ []

abbrev pub stock_cells : Inventory → List (String × String)
stock_cells e =
    ("id", e.id)
    ∷ ("productTypeId", e.product_type_id)
    ∷ ("quantityAvailable", e.quantity_available)
    ∷ ("employeeId", e.employee_id)
    ∷ []

abbrev pub supplier_product_keys : List String
supplier_product_keys = "id" ∷ "supplierID" ∷ "productTypeId" ∷ "code" ∷ []

abbrev pub supplier_product_cells : SuppliersProductInfo → List (String × String)
supplier_product_cells e =
    ("id", e.id)
    ∷ ("supplierID", e.supplier_id)
    ∷ ("productTypeId", e.product_type_id)
    ∷ ("code", e.code)
    ∷ []

module _ {S : Type 0} (repositories : RepositoryManager S) where
  open repositories use {inventory, product_types, suppliers, suppliers_product_info}

  unfoldable pub get_product_types : Exec S ResponseData
  get_product_types = do
    found ← product_types.get_all
    pure (table_response product_type_keys product_type_cells found)

  unfoldable pub add_product_type : Dataset → Exec S (Unit {0})
  add_product_type request = do
    product_type ← lift (build_product_type request "")
    existing ← product_types.get_by_field "code" product_type.code
    throw_if (not (is_empty existing)) component "Product type with this code already exists"
    product_types.add product_type

  unfoldable pub edit_product_type : Dataset → String → Exec S (Unit {0})
  edit_product_type request resource_id = do
    throw_if (is_blank resource_id) component "Product type ID is empty"
    found ← product_types.get_by_field "id" resource_id
    throw_if (is_empty found) component "Product type does not exist"
    product_type ← lift (build_product_type request resource_id)
    by_code ← product_types.get_by_field "code" product_type.code
    throw_if (any (λ existing. not (existing.id == resource_id)) by_code) component
        "Product type with this code already exists"
    product_types.update product_type

  unfoldable pub delete_product_type : String → Exec S (Unit {0})
  delete_product_type resource_id = do
    throw_if (is_blank resource_id) component "Product type ID is empty"
    found ← product_types.get_by_field "id" resource_id
    throw_if (is_empty found) component "Product type does not exist"
    product_types.delete_resource resource_id

  unfoldable pub get_stocks : Exec S ResponseData
  get_stocks = do found ← inventory.get_all; pure (table_response stock_keys stock_cells found)

  unfoldable pub add_stock : Dataset → Exec S (Unit {0})
  add_stock request = do
    stock ← lift (build_stock request "")
    products ← product_types.get_by_field "id" stock.product_type_id
    throw_if (is_empty products) component "Referenced product type does not exist"
    stocks ← inventory.get_by_field "productTypeId" stock.product_type_id
    throw_if (not (is_empty stocks)) component "Stock record for this product type already exists"
    inventory.add stock

  unfoldable pub edit_stock : Dataset → String → Exec S (Unit {0})
  edit_stock request resource_id = do
    throw_if (is_blank resource_id) component "Stock ID is empty"
    found ← inventory.get_by_field "id" resource_id
    throw_if (is_empty found) component "Stock record does not exist"
    stock ← lift (build_stock request resource_id)
    products ← product_types.get_by_field "id" stock.product_type_id
    throw_if (is_empty products) component "Referenced product type does not exist"
    stocks ← inventory.get_by_field "productTypeId" stock.product_type_id
    throw_if (any (λ existing. not (existing.id == resource_id)) stocks) component
        "Stock record for this product type already exists"
    inventory.update stock

  unfoldable pub delete_stock : String → Exec S (Unit {0})
  delete_stock resource_id = do
    throw_if (is_blank resource_id) component "Stock ID is empty"
    found ← inventory.get_by_field "id" resource_id
    throw_if (is_empty found) component "Stock record does not exist"
    inventory.delete_resource resource_id

  unfoldable pub get_supplier_products : Exec S ResponseData
  get_supplier_products = do
    found ← suppliers_product_info.get_all
    pure (table_response supplier_product_keys supplier_product_cells found)

  unfoldable pub add_supplier_product : Dataset → Exec S (Unit {0})
  add_supplier_product request = do
    mapping ← lift (build_supplier_product request "")
    suppliers_found ← suppliers.get_by_field "id" mapping.supplier_id
    throw_if (is_empty suppliers_found) component "Referenced supplier does not exist"
    products ← product_types.get_by_field "id" mapping.product_type_id
    throw_if (is_empty products) component "Referenced product type does not exist"
    suppliers_product_info.add mapping

  unfoldable pub edit_supplier_product : Dataset → String → Exec S (Unit {0})
  edit_supplier_product request resource_id = do
    throw_if (is_blank resource_id) component "Supplier product mapping ID is empty"
    found ← suppliers_product_info.get_by_field "id" resource_id
    throw_if (is_empty found) component "Supplier product mapping does not exist"
    mapping ← lift (build_supplier_product request resource_id)
    suppliers_found ← suppliers.get_by_field "id" mapping.supplier_id
    throw_if (is_empty suppliers_found) component "Referenced supplier does not exist"
    products ← product_types.get_by_field "id" mapping.product_type_id
    throw_if (is_empty products) component "Referenced product type does not exist"
    suppliers_product_info.update mapping

  unfoldable pub delete_supplier_product : String → Exec S (Unit {0})
  delete_supplier_product resource_id = do
    throw_if (is_blank resource_id) component "Supplier product mapping ID is empty"
    found ← suppliers_product_info.get_by_field "id" resource_id
    throw_if (is_empty found) component "Supplier product mapping does not exist"
    suppliers_product_info.delete_resource resource_id

  -- `executeTask` for each submodule
  unfoldable pub product_types_task : RequestData → Exec S ResponseData
  product_types_task request =
      if request.method == "GET"
      then get_product_types
      else if request.method == "POST"
      then add_product_type request.dataset >> pure empty_response
      else if request.method == "PUT"
      then edit_product_type request.dataset request.resource_id >> pure empty_response
      else if request.method == "DELETE"
      then delete_product_type request.resource_id >> pure empty_response
      else raise component "Unrecognized method"

  unfoldable pub stocks_task : RequestData → Exec S ResponseData
  stocks_task request =
      if request.method == "GET"
      then get_stocks
      else if request.method == "POST"
      then add_stock request.dataset >> pure empty_response
      else if request.method == "PUT"
      then edit_stock request.dataset request.resource_id >> pure empty_response
      else if request.method == "DELETE"
      then delete_stock request.resource_id >> pure empty_response
      else raise component "Unrecognized method"

  unfoldable pub supplier_products_task : RequestData → Exec S ResponseData
  supplier_products_task request =
      if request.method == "GET"
      then get_supplier_products
      else if request.method == "POST"
      then add_supplier_product request.dataset >> pure empty_response
      else if request.method == "PUT"
      then edit_supplier_product request.dataset request.resource_id >> pure empty_response
      else if request.method == "DELETE"
      then delete_supplier_product request.resource_id >> pure empty_response
      else raise component "Unrecognized method"

  unfoldable pub execute_task : RequestData → Exec S ResponseData
  execute_task request =
      if request.submodule == "product-types"
      then product_types_task request
      else if request.submodule == "stocks"
      then stocks_task request
      else if request.submodule == "supplier-products"
      then supplier_products_task request
      else raise component "Unrecognized inventory task"
