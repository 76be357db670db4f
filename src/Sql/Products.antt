-- ===== src/Sql/Products.antt =====
-- Database/: the statements of the repositories of product types and what belongs to them.
use Prim.Native.String.{◌++◌}
use sage_store.Prelude.{[], ◌∷◌}
use sage_store.Entities.{SuppliersProductInfo, ProductType, Inventory, ProductInfo}
use sage_store.Sql.{Queries, get_string}

-- SuppliersProductInfoRepository.cpp
unfoldable pub suppliers_product_info_queries : Queries SuppliersProductInfo
unfolding get_string
suppliers_product_info_queries = record {
  add_query = λ _.
      "INSERT INTO " ++ "SuppliersProductInfo"
      ++ " (supplierID, productTypeId, code) VALUES (?, ?, ?);";
  add_params = λ e. e.supplier_id ∷ e.product_type_id ∷ e.code ∷ [];
  update_query =
      "UPDATE " ++ "SuppliersProductInfo"
      ++ " SET supplierID = ?, productTypeId = ?, code = ? WHERE id = ?;";
  update_params = λ e. e.supplier_id ∷ e.product_type_id ∷ e.code ∷ e.id ∷ [];
  delete_query = "DELETE FROM " ++ "SuppliersProductInfo" ++ " WHERE id = ?;";
  by_field_query = λ field.
      "SELECT id, supplierID, productTypeId, code FROM " ++ "SuppliersProductInfo" ++ " WHERE "
      ++ field ++ " = ?;";
  all_query = "SELECT id, supplierID, productTypeId, code FROM " ++ "SuppliersProductInfo" ++ ";";
  from_row = λ r. record {
    id = get_string r 0;
    supplier_id = get_string r 1;
    product_type_id = get_string r 2;
    code = get_string r 3;
  };
}

-- ProductTypeRepository.cpp
unfoldable pub product_type_queries : Queries ProductType
unfolding get_string
product_type_queries = record {
  add_query = λ _.
      "INSERT INTO " ++ "ProductType"
      ++ " (code, barcode, name, description, lastPrice, unit, isImported) VALUES (?, ?, ?, ?, ?, ?, ?);";
  add_params =
      λ e. e.code ∷ e.barcode ∷ e.name ∷ e.description ∷ e.last_price ∷ e.unit ∷ e.is_imported ∷ [];
  update_query =
      "UPDATE " ++ "ProductType"
      ++ " SET code = ?, barcode = ?, name = ?, description = ?, lastPrice = ?, unit = ?, isImported = ? WHERE id = ?;";
  update_params = λ e.
      e.code ∷ e.barcode ∷ e.name ∷ e.description ∷ e.last_price ∷ e.unit ∷ e.is_imported ∷ e.id
      ∷ [];
  delete_query = "DELETE FROM " ++ "ProductType" ++ " WHERE id = ?;";
  by_field_query = λ field.
      "SELECT id, code, barcode, name, description, lastPrice, unit, isImported FROM "
      ++ "ProductType" ++ " WHERE " ++ field ++ " = ?;";
  all_query =
      "SELECT id, code, barcode, name, description, lastPrice, unit, isImported FROM "
      ++ "ProductType" ++ ";";
  from_row = λ r. record {
    id = get_string r 0;
    code = get_string r 1;
    barcode = get_string r 2;
    name = get_string r 3;
    description = get_string r 4;
    last_price = get_string r 5;
    unit = get_string r 6;
    is_imported = get_string r 7;
  };
}

-- InventoryRepository.cpp
unfoldable pub inventory_queries : Queries Inventory
unfolding get_string
inventory_queries = record {
  add_query = λ _.
      "INSERT INTO " ++ "Inventory"
      ++ " (productTypeId, quantityAvailable, employeeId) VALUES (?, ?, ?);";
  add_params = λ e. e.product_type_id ∷ e.quantity_available ∷ e.employee_id ∷ [];
  update_query =
      "UPDATE " ++ "Inventory"
      ++ " SET productTypeId = ?, quantityAvailable = ?, employeeId = ? WHERE id = ?;";
  update_params = λ e. e.product_type_id ∷ e.quantity_available ∷ e.employee_id ∷ e.id ∷ [];
  delete_query = "DELETE FROM " ++ "Inventory" ++ " WHERE id = ?;";
  by_field_query = λ field.
      "SELECT id, productTypeId, quantityAvailable, employeeId FROM " ++ "Inventory" ++ " WHERE "
      ++ field ++ " = ?;";
  all_query = "SELECT id, productTypeId, quantityAvailable, employeeId FROM " ++ "Inventory" ++ ";";
  from_row = λ r. record {
    id = get_string r 0;
    product_type_id = get_string r 1;
    quantity_available = get_string r 2;
    employee_id = get_string r 3;
  };
}

-- ProductInfoRepository.cpp
unfoldable pub product_info_queries : Queries ProductInfo
unfolding get_string
product_info_queries = record {
  add_query = λ _.
      "INSERT INTO " ++ "ProductInfo" ++ " (id, productTypeId, name, value) "
      ++ "VALUES (?, ?, ?, ?);";
  add_params = λ e. e.id ∷ e.product_type_id ∷ e.name ∷ e.value ∷ [];
  update_query =
      "UPDATE " ++ "ProductInfo" ++ " SET id = ?, productTypeId = ?, name = ? value = ?;";
  update_params = λ e. e.id ∷ e.product_type_id ∷ e.name ∷ e.value ∷ [];
  delete_query = "DELETE FROM " ++ "ProductInfo" ++ " WHERE id = ?;";
  by_field_query = λ field.
      "SELECT productTypeId, name, value FROM " ++ "ProductInfo" ++ " WHERE " ++ field ++ " = ?;";
  all_query = "SELECT id, productTypeId, name, value FROM  " ++ "ProductInfo" ++ " ;";
  from_row = λ r. record {
    id = get_string r 0;
    product_type_id = get_string r 1;
    name = get_string r 2;
    value = get_string r 3;
  };
}
