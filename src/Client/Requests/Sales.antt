-- ===== src/Client/Requests/Sales.antt =====
-- ApiManager.cpp: the requests for sales orders and their line items.
use sage_store.Prelude.{String, [], ◌∷◌}
use sage_store.Entities.{SaleOrder, SalesOrderRecord}
use sage_store.Client.{get, post, put, del, ClientRequest, request}
use sage_store.Client.Endpoints.{sales_order_records, sales_orders}

unfoldable pub get_sales_orders : ClientRequest
get_sales_orders = request sales_orders get [] ""

unfoldable pub create_sales_order : SaleOrder → ClientRequest
create_sales_order order =
    request sales_orders post
      (("date", order.date ∷ [])
        ∷ ("userId", order.user_id ∷ [])
        ∷ ("contactId", order.contact_id ∷ [])
        ∷ ("employeeId", order.employee_id ∷ [])
        ∷ ("status", order.status ∷ [])
        ∷ [])
      ""

unfoldable pub edit_sales_order : SaleOrder → ClientRequest
edit_sales_order order =
    request sales_orders put
      (("date", order.date ∷ [])
        ∷ ("userId", order.user_id ∷ [])
        ∷ ("contactId", order.contact_id ∷ [])
        ∷ ("employeeId", order.employee_id ∷ [])
        ∷ ("status", order.status ∷ [])
        ∷ [])
      order.id

unfoldable pub delete_sales_order : String → ClientRequest
delete_sales_order id = request sales_orders del [] id

unfoldable pub get_sales_order_records : String → ClientRequest
get_sales_order_records order_id = request sales_order_records get [] order_id

unfoldable pub create_sales_order_record : SalesOrderRecord → ClientRequest
create_sales_order_record order_record =
    request sales_order_records post
      (("orderId", order_record.order_id ∷ [])
        ∷ ("productTypeId", order_record.product_type_id ∷ [])
        ∷ ("quantity", order_record.quantity ∷ [])
        ∷ ("price", order_record.price ∷ [])
        ∷ [])
      ""

unfoldable pub edit_sales_order_record : SalesOrderRecord → ClientRequest
edit_sales_order_record order_record =
    request sales_order_records put
      (("orderId", order_record.order_id ∷ [])
        ∷ ("productTypeId", order_record.product_type_id ∷ [])
        ∷ ("quantity", order_record.quantity ∷ [])
        ∷ ("price", order_record.price ∷ [])
        ∷ [])
      order_record.id

unfoldable pub delete_sales_order_record : String → ClientRequest
delete_sales_order_record id = request sales_order_records del [] id
