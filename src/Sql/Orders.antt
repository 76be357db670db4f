-- ===== src/Sql/Orders.antt =====
-- Database/: the statements of the repositories of orders and their line items.
use Prim.Native.String.{◌++◌}
use sage_store.Prelude.{[], ◌∷◌}
use sage_store.Entities.{SaleOrder, SalesOrderRecord, PurchaseOrder, PurchaseOrderRecord}
use sage_store.Sql.{Queries, get_string}

-- SaleOrderRepository.cpp
unfoldable pub sale_order_queries : Queries SaleOrder
unfolding get_string
sale_order_queries = record {
  add_query = λ _.
      "INSERT INTO " ++ "SaleOrder"
      ++ " (date, userId, contactId, employeeId, status) VALUES (?, ?, ?, ?, ?);";
  add_params = λ e. e.date ∷ e.user_id ∷ e.contact_id ∷ e.employee_id ∷ e.status ∷ [];
  update_query =
      "UPDATE " ++ "SaleOrder"
      ++ " SET date = ?, userId = ?, contactId = ?, employeeId = ?, status = ? WHERE id = ?;";
  update_params = λ e. e.date ∷ e.user_id ∷ e.contact_id ∷ e.employee_id ∷ e.status ∷ e.id ∷ [];
  delete_query = "DELETE FROM " ++ "SaleOrder" ++ " WHERE id = ?;";
  by_field_query = λ field.
      "SELECT id, date, userId, contactId, employeeId, status FROM " ++ "SaleOrder" ++ " WHERE "
      ++ field ++ " = ?;";
  all_query = "SELECT id, date, userId, contactId, employeeId, status FROM " ++ "SaleOrder" ++ ";";
  from_row = λ r. record {
    id = get_string r 0;
    date = get_string r 1;
    user_id = get_string r 2;
    contact_id = get_string r 3;
    employee_id = get_string r 4;
    status = get_string r 5;
  };
}

-- SalesOrderRecordRepository.cpp
unfoldable pub sales_order_record_queries : Queries SalesOrderRecord
unfolding get_string
sales_order_record_queries = record {
  add_query = λ _.
      "INSERT INTO " ++ "SalesOrderRecord"
      ++ " (orderId, productTypeId, quantity, price) VALUES (?, ?, ?, ?);";
  add_params = λ e. e.order_id ∷ e.product_type_id ∷ e.quantity ∷ e.price ∷ [];
  update_query =
      "UPDATE " ++ "SalesOrderRecord"
      ++ " SET orderId = ?, productTypeId = ?, quantity = ?, price = ? WHERE id = ?;";
  update_params = λ e. e.order_id ∷ e.product_type_id ∷ e.quantity ∷ e.price ∷ e.id ∷ [];
  delete_query = "DELETE FROM " ++ "SalesOrderRecord" ++ " WHERE id = ?;";
  by_field_query = λ field.
      "SELECT id, orderId, productTypeId, quantity, price FROM " ++ "SalesOrderRecord" ++ " WHERE "
      ++ field ++ " = ?;";
  all_query =
      "SELECT id, orderId, productTypeId, quantity, price FROM " ++ "SalesOrderRecord" ++ ";";
  from_row = λ r. record {
    id = get_string r 0;
    order_id = get_string r 1;
    product_type_id = get_string r 2;
    quantity = get_string r 3;
    price = get_string r 4;
  };
}

-- PurchaseOrderRepository.cpp
unfoldable pub purchase_order_queries : Queries PurchaseOrder
unfolding get_string
purchase_order_queries = record {
  add_query = λ _.
      "INSERT INTO " ++ "PurchaseOrder"
      ++ " (date, userId, supplierId, status) VALUES (?, ?, ?, ?);";
  add_params = λ e. e.date ∷ e.user_id ∷ e.supplier_id ∷ e.status ∷ [];
  update_query =
      "UPDATE " ++ "PurchaseOrder"
      ++ " SET date = ?, userId = ?, supplierId = ?, status = ? WHERE id = ?;";
  update_params = λ e. e.date ∷ e.user_id ∷ e.supplier_id ∷ e.status ∷ e.id ∷ [];
  delete_query = "DELETE FROM " ++ "PurchaseOrder" ++ " WHERE id = ?;";
  by_field_query = λ field.
      "SELECT id, date, userId, supplierId, status FROM " ++ "PurchaseOrder" ++ " WHERE " ++ field
      ++ " = ?;";
  all_query = "SELECT id, date, userId, supplierId, status FROM " ++ "PurchaseOrder" ++ ";";
  from_row = λ r. record {
    id = get_string r 0;
    date = get_string r 1;
    user_id = get_string r 2;
    supplier_id = get_string r 3;
    status = get_string r 4;
  };
}

-- PurchaseOrderRecordRepository.cpp
unfoldable pub purchase_order_record_queries : Queries PurchaseOrderRecord
unfolding get_string
purchase_order_record_queries = record {
  add_query = λ _.
      "INSERT INTO " ++ "PurchaseOrderRecord"
      ++ " (orderId, productTypeId, quantity, price) VALUES (?, ?, ?, ?);";
  add_params = λ e. e.order_id ∷ e.product_type_id ∷ e.quantity ∷ e.price ∷ [];
  update_query =
      "UPDATE " ++ "PurchaseOrderRecord"
      ++ " SET orderId = ?, productTypeId = ?, quantity = ?, price = ? WHERE id = ?;";
  update_params = λ e. e.order_id ∷ e.product_type_id ∷ e.quantity ∷ e.price ∷ e.id ∷ [];
  delete_query = "DELETE FROM " ++ "PurchaseOrderRecord" ++ " WHERE id = ?;";
  by_field_query = λ field.
      "SELECT id, orderId, productTypeId, quantity, price FROM " ++ "PurchaseOrderRecord"
      ++ " WHERE " ++ field ++ " = ?;";
  all_query =
      "SELECT id, orderId, productTypeId, quantity, price FROM " ++ "PurchaseOrderRecord" ++ ";";
  from_row = λ r. record {
    id = get_string r 0;
    order_id = get_string r 1;
    product_type_id = get_string r 2;
    quantity = get_string r 3;
    price = get_string r 4;
  };
}
