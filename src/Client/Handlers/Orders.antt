-- ===== src/Client/Handlers/Orders.antt =====
-- ApiManager.cpp: the handlers of responses about orders and their line items.
use sage_store.Prelude.{String, List, [], ◌∷◌, Option, some}
use sage_store.DataSpecs.{Dataset}
use sage_store.Entities.{PurchaseOrder, PurchaseOrderRecord, SaleOrder, SalesOrderRecord}
use sage_store.Client.{Method, get, post, put, del}
use sage_store.Client.Signals.{
  Signal, purchase_order_created, purchase_order_deleted, purchase_order_edited,
  purchase_order_record_created, purchase_order_record_deleted, purchase_order_record_edited,
  purchase_order_records_list, purchase_orders_list, sales_order_created, sales_order_deleted,
  sales_order_edited, sales_order_record_created, sales_order_record_deleted,
  sales_order_record_edited, sales_order_records_list, sales_orders_list,
}
use sage_store.Client.Tables.{Row, cell, read_table}

abbrev pub handle_purchase_orders_list_keys : List String
handle_purchase_orders_list_keys = "id" ∷ "date" ∷ "userId" ∷ "supplierId" ∷ "status" ∷ []

abbrev pub handle_purchase_orders_list_row : Row → PurchaseOrder
handle_purchase_orders_list_row r = record {
  id = cell 0 r;
  date = cell 1 r;
  user_id = cell 2 r;
  supplier_id = cell 3 r;
  status = cell 4 r;
}

unfoldable pub handle_purchase_orders_list : Dataset → Signal
unfolding read_table
handle_purchase_orders_list d =
    read_table "Key missing in dataset" "Purchase order lists have different sizes."
      handle_purchase_orders_list_keys d (λ r. handle_purchase_orders_list_row r)
      purchase_orders_list

unfoldable pub handle_purchase_orders : Method → Dataset → Option Signal
unfolding handle_purchase_orders_list
handle_purchase_orders get d = some (handle_purchase_orders_list d)
handle_purchase_orders post d = some purchase_order_created
handle_purchase_orders put d = some purchase_order_edited
handle_purchase_orders del d = some purchase_order_deleted

abbrev pub handle_purchase_order_records_list_keys : List String
handle_purchase_order_records_list_keys =
    "id" ∷ "orderId" ∷ "productTypeId" ∷ "quantity" ∷ "price" ∷ []

abbrev pub handle_purchase_order_records_list_row : Row → PurchaseOrderRecord
handle_purchase_order_records_list_row r = record {
  id = cell 0 r;
  order_id = cell 1 r;
  product_type_id = cell 2 r;
  quantity = cell 3 r;
  price = cell 4 r;
}

unfoldable pub handle_purchase_order_records_list : Dataset → Signal
unfolding read_table
handle_purchase_order_records_list d =
    read_table "Key missing in dataset" "Purchase order record lists have different sizes."
      handle_purchase_order_records_list_keys d (λ r. handle_purchase_order_records_list_row r)
      purchase_order_records_list

unfoldable pub handle_purchase_order_records : Method → Dataset → Option Signal
unfolding handle_purchase_order_records_list
handle_purchase_order_records get d = some (handle_purchase_order_records_list d)
handle_purchase_order_records post d = some purchase_order_record_created
handle_purchase_order_records put d = some purchase_order_record_edited
handle_purchase_order_records del d = some purchase_order_record_deleted

abbrev pub handle_sales_orders_list_keys : List String
handle_sales_orders_list_keys =
    "id" ∷ "date" ∷ "userId" ∷ "contactId" ∷ "employeeId" ∷ "status" ∷ []

abbrev pub handle_sales_orders_list_row : Row → SaleOrder
handle_sales_orders_list_row r = record {
  id = cell 0 r;
  date = cell 1 r;
  user_id = cell 2 r;
  contact_id = cell 3 r;
  employee_id = cell 4 r;
  status = cell 5 r;
}

unfoldable pub handle_sales_orders_list : Dataset → Signal
unfolding read_table
handle_sales_orders_list d =
    read_table "Key missing in dataset" "Sales order lists have different sizes."
      handle_sales_orders_list_keys d (λ r. handle_sales_orders_list_row r) sales_orders_list

unfoldable pub handle_sales_orders : Method → Dataset → Option Signal
unfolding handle_sales_orders_list
handle_sales_orders get d = some (handle_sales_orders_list d)
handle_sales_orders post d = some sales_order_created
handle_sales_orders put d = some sales_order_edited
handle_sales_orders del d = some sales_order_deleted

abbrev pub handle_sales_order_records_list_keys : List String
handle_sales_order_records_list_keys =
    "id" ∷ "orderId" ∷ "productTypeId" ∷ "quantity" ∷ "price" ∷ []

abbrev pub handle_sales_order_records_list_row : Row → SalesOrderRecord
handle_sales_order_records_list_row r = record {
  id = cell 0 r;
  order_id = cell 1 r;
  product_type_id = cell 2 r;
  quantity = cell 3 r;
  price = cell 4 r;
}

unfoldable pub handle_sales_order_records_list : Dataset → Signal
unfolding read_table
handle_sales_order_records_list d =
    read_table "Key missing in dataset" "Sales order record lists have different sizes."
      handle_sales_order_records_list_keys d (λ r. handle_sales_order_records_list_row r)
      sales_order_records_list

unfoldable pub handle_sales_order_records : Method → Dataset → Option Signal
unfolding handle_sales_order_records_list
handle_sales_order_records get d = some (handle_sales_order_records_list d)
handle_sales_order_records post d = some sales_order_record_created
handle_sales_order_records put d = some sales_order_record_edited
handle_sales_order_records del d = some sales_order_record_deleted
