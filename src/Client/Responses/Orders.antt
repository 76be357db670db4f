-- ===== src/Client/Responses/Orders.antt =====
-- ApiManager.cpp reads the tables that the server sends: orders and their line items.
use sage_store.Prelude.{◌≡◌, ◌∙◌, refl, ap, List, [], ◌∷◌, some}
use sage_store.DataSpecs.{Dataset, table_response}
use sage_store.DataSpecs.Columns.{cells_of}
use sage_store.Purchase
use sage_store.Sales
use sage_store.Entities.{PurchaseOrder, PurchaseOrderRecord, SaleOrder, SalesOrderRecord}
use sage_store.Client.{get}
use sage_store.Client.Endpoints
use sage_store.Client.Tables.{cell}
use sage_store.Client.Tables.Listed.{Fits, SameLookups, map_id, read_table-table_response}
use sage_store.DataSpecs.{empty_columns}
use sage_store.Prelude.Assoc.{find}
use sage_store.Client.Signals.{
  purchase_orders_list, purchase_order_records_list, sales_orders_list, sales_order_records_list,
}
use sage_store.Client.Handlers.Orders.{
  handle_purchase_orders_list, handle_purchase_orders_list_row, handle_purchase_orders,
  handle_purchase_order_records_list, handle_purchase_order_records_list_row,
  handle_purchase_order_records, handle_sales_orders_list, handle_sales_orders_list_row,
  handle_sales_orders, handle_sales_order_records_list, handle_sales_order_records_list_row,
  handle_sales_order_records,
}
use sage_store.Client.Responses.{handle_response}
use sage_store.Client.Responses.Shown.{shown_of}

handle_purchase_orders_list-Fits : Fits Purchase.order_keys Purchase.order_cells (
    ("id", λ e. e.id)
    ∷ ("date", λ e. e.date)
    ∷ ("userId", λ e. e.user_id)
    ∷ ("supplierId", λ e. e.supplier_id)
    ∷ ("status", λ e. e.status)
    ∷ [])
unfolding Fits cells_of empty_columns find
handle_purchase_orders_list-Fits = (
  λ _. refl,
  refl,
  (λ _. refl, refl, (λ _. refl, refl, (λ _. refl, refl, (λ _. refl, refl, tt)))),
)

pub handle_purchase_orders_list_lem :
    (es : List PurchaseOrder) (d : Dataset)
    → SameLookups d (table_response Purchase.order_keys Purchase.order_cells es).dataset
    → handle_response Endpoints.purchase_orders get d ≡ some (purchase_orders_list (es))
unfolding handle_response handle_purchase_orders handle_purchase_orders_list cell
handle_purchase_orders_list_lem es d alike =
    shown_of Purchase.order_keys Purchase.order_cells handle_purchase_orders get
      (λ e. unfold cells_of in refl) es d alike
      (ap (λ s. some s)
        (read_table-table_response Purchase.order_keys Purchase.order_cells
            (("date", λ e. e.date)
              ∷ ("userId", λ e. e.user_id)
              ∷ ("supplierId", λ e. e.supplier_id)
              ∷ ("status", λ e. e.status)
              ∷ [])
            "Key missing in dataset" "Purchase order lists have different sizes."
            (λ r. handle_purchase_orders_list_row r) purchase_orders_list (λ e. e) "id" (λ e. e.id)
            handle_purchase_orders_list-Fits (λ e. refl) es d alike
          ∙ ap purchase_orders_list (map_id es)))

handle_purchase_order_records_list-Fits :
    Fits Purchase.order_record_keys Purchase.order_record_cells (
      ("id", λ e. e.id)
      ∷ ("orderId", λ e. e.order_id)
      ∷ ("productTypeId", λ e. e.product_type_id)
      ∷ ("quantity", λ e. e.quantity)
      ∷ ("price", λ e. e.price)
      ∷ [])
unfolding Fits cells_of empty_columns find
handle_purchase_order_records_list-Fits = (
  λ _. refl,
  refl,
  (λ _. refl, refl, (λ _. refl, refl, (λ _. refl, refl, (λ _. refl, refl, tt)))),
)

pub handle_purchase_order_records_list_lem :
    (es : List PurchaseOrderRecord) (d : Dataset)
    → SameLookups d
        (table_response Purchase.order_record_keys Purchase.order_record_cells es).dataset
    → handle_response Endpoints.purchase_order_records get d
      ≡ some (purchase_order_records_list (es))
unfolding handle_response handle_purchase_order_records handle_purchase_order_records_list cell
handle_purchase_order_records_list_lem es d alike =
    shown_of Purchase.order_record_keys Purchase.order_record_cells handle_purchase_order_records
      get (λ e. unfold cells_of in refl) es d alike
      (ap (λ s. some s)
        (read_table-table_response Purchase.order_record_keys Purchase.order_record_cells
            (("orderId", λ e. e.order_id)
              ∷ ("productTypeId", λ e. e.product_type_id)
              ∷ ("quantity", λ e. e.quantity)
              ∷ ("price", λ e. e.price)
              ∷ [])
            "Key missing in dataset" "Purchase order record lists have different sizes."
            (λ r. handle_purchase_order_records_list_row r) purchase_order_records_list (λ e. e)
            "id" (λ e. e.id) handle_purchase_order_records_list-Fits (λ e. refl) es d alike
          ∙ ap purchase_order_records_list (map_id es)))

handle_sales_orders_list-Fits : Fits Sales.order_keys Sales.order_cells (
    ("id", λ e. e.id)
    ∷ ("date", λ e. e.date)
    ∷ ("userId", λ e. e.user_id)
    ∷ ("contactId", λ e. e.contact_id)
    ∷ ("employeeId", λ e. e.employee_id)
    ∷ ("status", λ e. e.status)
    ∷ [])
unfolding Fits cells_of empty_columns find
handle_sales_orders_list-Fits = (
  λ _. refl,
  refl,
  (λ _. refl, refl, (λ _. refl, refl, (λ _. refl, refl, (λ _. refl, refl, (λ _. refl, refl, tt))))),
)

pub handle_sales_orders_list_lem :
    (es : List SaleOrder) (d : Dataset)
    → SameLookups d (table_response Sales.order_keys Sales.order_cells es).dataset
    → handle_response Endpoints.sales_orders get d ≡ some (sales_orders_list (es))
unfolding handle_response handle_sales_orders handle_sales_orders_list cell
handle_sales_orders_list_lem es d alike =
    shown_of Sales.order_keys Sales.order_cells handle_sales_orders get
      (λ e. unfold cells_of in refl) es d alike
      (ap (λ s. some s)
        (read_table-table_response Sales.order_keys Sales.order_cells
            (("date", λ e. e.date)
              ∷ ("userId", λ e. e.user_id)
              ∷ ("contactId", λ e. e.contact_id)
              ∷ ("employeeId", λ e. e.employee_id)
              ∷ ("status", λ e. e.status)
              ∷ [])
            "Key missing in dataset" "Sales order lists have different sizes."
            (λ r. handle_sales_orders_list_row r) sales_orders_list (λ e. e) "id" (λ e. e.id)
            handle_sales_orders_list-Fits (λ e. refl) es d alike
          ∙ ap sales_orders_list (map_id es)))

handle_sales_order_records_list-Fits : Fits Sales.order_record_keys Sales.order_record_cells (
    ("id", λ e. e.id)
    ∷ ("orderId", λ e. e.order_id)
    ∷ ("productTypeId", λ e. e.product_type_id)
    ∷ ("quantity", λ e. e.quantity)
    ∷ ("price", λ e. e.price)
    ∷ [])
unfolding Fits cells_of empty_columns find
handle_sales_order_records_list-Fits = (
  λ _. refl,
  refl,
  (λ _. refl, refl, (λ _. refl, refl, (λ _. refl, refl, (λ _. refl, refl, tt)))),
)

pub handle_sales_order_records_list_lem :
    (es : List SalesOrderRecord) (d : Dataset)
    → SameLookups d (table_response Sales.order_record_keys Sales.order_record_cells es).dataset
    → handle_response Endpoints.sales_order_records get d ≡ some (sales_order_records_list (es))
unfolding handle_response handle_sales_order_records handle_sales_order_records_list cell
handle_sales_order_records_list_lem es d alike =
    shown_of Sales.order_record_keys Sales.order_record_cells handle_sales_order_records get
      (λ e. unfold cells_of in refl) es d alike
      (ap (λ s. some s)
        (read_table-table_response Sales.order_record_keys Sales.order_record_cells
            (("orderId", λ e. e.order_id)
              ∷ ("productTypeId", λ e. e.product_type_id)
              ∷ ("quantity", λ e. e.quantity)
              ∷ ("price", λ e. e.price)
              ∷ [])
            "Key missing in dataset" "Sales order record lists have different sizes."
            (λ r. handle_sales_order_records_list_row r) sales_order_records_list (λ e. e) "id"
            (λ e. e.id) handle_sales_order_records_list-Fits (λ e. refl) es d alike
          ∙ ap sales_order_records_list (map_id es)))
