-- ===== src/Client/Signals.antt =====
-- The signals of ApiManager.hpp by which the user interface is told.
use sage_store.Prelude.{String, List}
use sage_store.Entities.{
  Contact, Employee, Inventory, Log, ProductType, PurchaseOrder, PurchaseOrderRecord, Role,
  SaleOrder, SalesOrderRecord, Supplier, SuppliersProductInfo, User,
}

pub data Signal : Type 0 where
  ready : Signal
  login_success : String → String → Signal
  user_added : Signal
  user_edited : Signal
  user_deleted : Signal
  users_list : List User → Signal
  roles_list : List Role → Signal
  role_created : Signal
  role_edited : Signal
  role_deleted : Signal
  product_types_list : List ProductType → Signal
  product_type_created : Signal
  product_type_edited : Signal
  product_type_deleted : Signal
  stocks_list : List Inventory → Signal
  stock_created : Signal
  stock_edited : Signal
  stock_deleted : Signal
  supplier_products_list : List SuppliersProductInfo → Signal
  supplier_product_created : Signal
  supplier_product_edited : Signal
  supplier_product_deleted : Signal
  contacts_list : List Contact → Signal
  contact_created : Signal
  contact_edited : Signal
  contact_deleted : Signal
  suppliers_list : List Supplier → Signal
  supplier_created : Signal
  supplier_edited : Signal
  supplier_deleted : Signal
  employees_list : List Employee → Signal
  employee_created : Signal
  employee_edited : Signal
  employee_deleted : Signal
  purchase_orders_list : List PurchaseOrder → Signal
  purchase_order_created : Signal
  purchase_order_edited : Signal
  purchase_order_deleted : Signal
  purchase_order_records_list : List PurchaseOrderRecord → Signal
  purchase_order_record_created : Signal
  purchase_order_record_edited : Signal
  purchase_order_record_deleted : Signal
  purchase_receipt_posted : Signal
  sales_orders_list : List SaleOrder → Signal
  sales_order_created : Signal
  sales_order_edited : Signal
  sales_order_deleted : Signal
  sales_order_records_list : List SalesOrderRecord → Signal
  sales_order_record_created : Signal
  sales_order_record_edited : Signal
  sales_order_record_deleted : Signal
  logs_list : List Log → Signal
  sales_analytics_ready : List (String × String) → Signal
  inventory_analytics_ready : List (String × String) → Signal
  error_occurred : String → Signal
