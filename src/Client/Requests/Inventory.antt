-- ===== src/Client/Requests/Inventory.antt =====
-- ApiManager.cpp: the requests for product types, stocks and supplier products.
use sage_store.Prelude.{String, [], ◌∷◌}
use sage_store.Entities.{Inventory, ProductType, SuppliersProductInfo}
use sage_store.Client.{get, post, put, del, ClientRequest, request}
use sage_store.Client.Endpoints.{
  inventory_product_types, inventory_stocks, inventory_supplier_products,
}

unfoldable pub get_product_types : ClientRequest
get_product_types = request inventory_product_types get [] ""

unfoldable pub create_product_type : ProductType → ClientRequest
create_product_type product_type =
    request inventory_product_types post
      (("code", product_type.code ∷ [])
        ∷ ("barcode", product_type.barcode ∷ [])
        ∷ ("name", product_type.name ∷ [])
        ∷ ("description", product_type.description ∷ [])
        ∷ ("lastPrice", product_type.last_price ∷ [])
        ∷ ("unit", product_type.unit ∷ [])
        ∷ ("isImported", product_type.is_imported ∷ [])
        ∷ [])
      ""

unfoldable pub edit_product_type : ProductType → ClientRequest
edit_product_type product_type =
    request inventory_product_types put
      (("code", product_type.code ∷ [])
        ∷ ("barcode", product_type.barcode ∷ [])
        ∷ ("name", product_type.name ∷ [])
        ∷ ("description", product_type.description ∷ [])
        ∷ ("lastPrice", product_type.last_price ∷ [])
        ∷ ("unit", product_type.unit ∷ [])
        ∷ ("isImported", product_type.is_imported ∷ [])
        ∷ [])
      product_type.id

unfoldable pub delete_product_type : String → ClientRequest
delete_product_type id = request inventory_product_types del [] id

unfoldable pub get_stocks : ClientRequest
get_stocks = request inventory_stocks get [] ""

unfoldable pub create_stock : Inventory → ClientRequest
create_stock stock =
    request inventory_stocks post
      (("productTypeId", stock.product_type_id ∷ [])
        ∷ ("quantityAvailable", stock.quantity_available ∷ [])
        ∷ ("employeeId", stock.employee_id ∷ [])
        ∷ [])
      ""

unfoldable pub edit_stock : Inventory → ClientRequest
edit_stock stock =
    request inventory_stocks put
      (("productTypeId", stock.product_type_id ∷ [])
        ∷ ("quantityAvailable", stock.quantity_available ∷ [])
        ∷ ("employeeId", stock.employee_id ∷ [])
        ∷ [])
      stock.id

unfoldable pub delete_stock : String → ClientRequest
delete_stock id = request inventory_stocks del [] id

unfoldable pub get_supplier_products : ClientRequest
get_supplier_products = request inventory_supplier_products get [] ""

unfoldable pub create_supplier_product : SuppliersProductInfo → ClientRequest
create_supplier_product supplier_product =
    request inventory_supplier_products post
      (("supplierID", supplier_product.supplier_id ∷ [])
        ∷ ("productTypeId", supplier_product.product_type_id ∷ [])
        ∷ ("code", supplier_product.code ∷ [])
        ∷ [])
      ""

unfoldable pub edit_supplier_product : SuppliersProductInfo → ClientRequest
edit_supplier_product supplier_product =
    request inventory_supplier_products put
      (("supplierID", supplier_product.supplier_id ∷ [])
        ∷ ("productTypeId", supplier_product.product_type_id ∷ [])
        ∷ ("code", supplier_product.code ∷ [])
        ∷ [])
      supplier_product.id

unfoldable pub delete_supplier_product : String → ClientRequest
delete_supplier_product id = request inventory_supplier_products del [] id
