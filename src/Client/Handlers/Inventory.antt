-- ===== src/Client/Handlers/Inventory.antt =====
-- ApiManager.cpp: the handlers of responses about product types, stocks and supplier products.
use sage_store.Prelude.{String, List, [], ◌∷◌, Option, some}
use sage_store.DataSpecs.{Dataset}
use sage_store.Entities.{Inventory, ProductType, SuppliersProductInfo}
use sage_store.Client.{Method, get, post, put, del}
use sage_store.Client.Signals.{
  Signal, product_type_created, product_type_deleted, product_type_edited, product_types_list,
  stock_created, stock_deleted, stock_edited, stocks_list, supplier_product_created,
  supplier_product_deleted, supplier_product_edited, supplier_products_list,
}
use sage_store.Client.Tables.{Row, cell, read_table}

abbrev pub handle_product_types_list_keys : List String
handle_product_types_list_keys =
    "id" ∷ "code" ∷ "barcode" ∷ "name" ∷ "description" ∷ "lastPrice" ∷ "unit" ∷ "isImported" ∷ []

abbrev pub handle_product_types_list_row : Row → ProductType
handle_product_types_list_row r = record {
  id = cell 0 r;
  code = cell 1 r;
  barcode = cell 2 r;
  name = cell 3 r;
  description = cell 4 r;
  last_price = cell 5 r;
  unit = cell 6 r;
  is_imported = cell 7 r;
}

unfoldable pub handle_product_types_list : Dataset → Signal
unfolding read_table
handle_product_types_list d =
    read_table "Key missing in dataset" "ProductType lists have different sizes."
      handle_product_types_list_keys d (λ r. handle_product_types_list_row r) product_types_list

unfoldable pub handle_product_types : Method → Dataset → Option Signal
unfolding handle_product_types_list
handle_product_types get d = some (handle_product_types_list d)
handle_product_types post d = some product_type_created
handle_product_types put d = some product_type_edited
handle_product_types del d = some product_type_deleted

abbrev pub handle_stocks_list_keys : List String
handle_stocks_list_keys = "id" ∷ "productTypeId" ∷ "quantityAvailable" ∷ "employeeId" ∷ []

abbrev pub handle_stocks_list_row : Row → Inventory
handle_stocks_list_row r = record {
  id = cell 0 r;
  product_type_id = cell 1 r;
  quantity_available = cell 2 r;
  employee_id = cell 3 r;
}

unfoldable pub handle_stocks_list : Dataset → Signal
unfolding read_table
handle_stocks_list d =
    read_table "Key missing in dataset" "Inventory lists have different sizes."
      handle_stocks_list_keys d (λ r. handle_stocks_list_row r) stocks_list

unfoldable pub handle_stocks : Method → Dataset → Option Signal
unfolding handle_stocks_list
handle_stocks get d = some (handle_stocks_list d)
handle_stocks post d = some stock_created
handle_stocks put d = some stock_edited
handle_stocks del d = some stock_deleted

abbrev pub handle_supplier_products_list_keys : List String
handle_supplier_products_list_keys = "id" ∷ "supplierID" ∷ "productTypeId" ∷ "code" ∷ []

abbrev pub handle_supplier_products_list_row : Row → SuppliersProductInfo
handle_supplier_products_list_row r = record {
  id = cell 0 r;
  supplier_id = cell 1 r;
  product_type_id = cell 2 r;
  code = cell 3 r;
}

unfoldable pub handle_supplier_products_list : Dataset → Signal
unfolding read_table
handle_supplier_products_list d =
    read_table "Key missing in dataset" "Supplier product lists have different sizes."
      handle_supplier_products_list_keys d (λ r. handle_supplier_products_list_row r)
      supplier_products_list

unfoldable pub handle_supplier_products : Method → Dataset → Option Signal
unfolding handle_supplier_products_list
handle_supplier_products get d = some (handle_supplier_products_list d)
handle_supplier_products post d = some supplier_product_created
handle_supplier_products put d = some supplier_product_edited
handle_supplier_products del d = some supplier_product_deleted
