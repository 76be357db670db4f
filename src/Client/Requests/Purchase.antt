-- ===== src/Client/Requests/Purchase.antt =====
-- ApiManager.cpp: the requests for purchase orders, their line items and receipts.
use sage_store.Prelude.{String, [], ◌∷◌}
use sage_store.Entities.{PurchaseOrder, PurchaseOrderRecord}
use sage_store.Client.{get, post, put, del, ClientRequest, request}
use sage_store.Client.Endpoints.{purchase_order_records, purchase_orders, purchase_receipts}

unfoldable pub get_purchase_orders : ClientRequest
get_purchase_orders = request purchase_orders get [] ""

unfoldable pub create_purchase_order : PurchaseOrder → ClientRequest
create_purchase_order order =
    request purchase_orders post
      (("date", order.date ∷ [])
        ∷ ("userId", order.user_id ∷ [])
        ∷ ("supplierId", order.supplier_id ∷ [])
        ∷ ("status", order.status ∷ [])
        ∷ [])
      ""

unfoldable pub edit_purchase_order : PurchaseOrder → ClientRequest
edit_purchase_order order =
    request purchase_orders put
      (("date", order.date ∷ [])
        ∷ ("userId", order.user_id ∷ [])
        ∷ ("supplierId", order.supplier_id ∷ [])
        ∷ ("status", order.status ∷ [])
        ∷ [])
      order.id

unfoldable pub delete_purchase_order : String → ClientRequest
delete_purchase_order id = request purchase_orders del [] id

unfoldable pub get_purchase_order_records : String → ClientRequest
get_purchase_order_records order_id = request purchase_order_records get [] order_id

unfoldable pub create_purchase_order_record : PurchaseOrderRecord → ClientRequest
create_purchase_order_record order_record =
    request purchase_order_records post
      (("orderId", order_record.order_id ∷ [])
        ∷ ("productTypeId", order_record.product_type_id ∷ [])
        ∷ ("quantity", order_record.quantity ∷ [])
        ∷ ("price", order_record.price ∷ [])
        ∷ [])
      ""

unfoldable pub edit_purchase_order_record : PurchaseOrderRecord → ClientRequest
edit_purchase_order_record order_record =
    request purchase_order_records put
      (("orderId", order_record.order_id ∷ [])
        ∷ ("productTypeId", order_record.product_type_id ∷ [])
        ∷ ("quantity", order_record.quantity ∷ [])
        ∷ ("price", order_record.price ∷ [])
        ∷ [])
      order_record.id

unfoldable pub delete_purchase_order_record : String → ClientRequest
delete_purchase_order_record id = request purchase_order_records del [] id

unfoldable pub post_purchase_receipt : String → String → ClientRequest
post_purchase_receipt order_id employee_id =
    request purchase_receipts post (("id", order_id ∷ []) ∷ ("employeeId", employee_id ∷ []) ∷ [])
      ""
