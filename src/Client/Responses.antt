-- ===== src/Client/Responses.antt =====
-- ApiManager.cpp: the handler that a response goes to, and errors.
pub mod Shown
pub mod Errors
pub mod Accounts
pub mod Inventory
pub mod Management
pub mod Orders
use Prim.Native.String.{◌++◌}
use sage_store.Prelude.{
  String, ◌||◌, List, [], ◌∷◌, Option, none, some, is_blank, ◌==◌, map, foldl, if◌then◌else◌,
}
use sage_store.Prelude.Assoc.{find}
use sage_store.DataSpecs.{Data, Dataset}
use sage_store.Client.{Method, get, post, put, del}
use sage_store.Client.Endpoints
use sage_store.Client.Tables.{value_at}
use sage_store.Client.Signals.{
  Signal, login_success, purchase_receipt_posted, sales_analytics_ready, inventory_analytics_ready,
  error_occurred,
}
use sage_store.Client.Handlers.Accounts.{handle_users, handle_roles, handle_logs}
use sage_store.Client.Handlers.Inventory.{
  handle_product_types, handle_stocks, handle_supplier_products,
}
use sage_store.Client.Handlers.Management.{handle_contacts, handle_suppliers, handle_employees}
use sage_store.Client.Handlers.Orders.{
  handle_purchase_orders, handle_purchase_order_records, handle_sales_orders,
  handle_sales_order_records,
}

-- Blank where the list is empty.
unfoldable pub build_analytics_metrics : Dataset → List (String × String)
build_analytics_metrics = map (λ column. (column.0, value_at column.1))

unfoldable pub handle_sales_analytics_response : Method → Dataset → Option Signal
unfolding build_analytics_metrics
handle_sales_analytics_response get d = some (sales_analytics_ready (build_analytics_metrics d))
handle_sales_analytics_response post d = none
handle_sales_analytics_response put d = none
handle_sales_analytics_response del d = none

unfoldable pub handle_inventory_analytics_response : Method → Dataset → Option Signal
unfolding build_analytics_metrics
handle_inventory_analytics_response get d =
    some (inventory_analytics_ready (build_analytics_metrics d))
handle_inventory_analytics_response post d = none
handle_inventory_analytics_response put d = none
handle_inventory_analytics_response del d = none

abbrev checked_lists : Data → Data → Signal
checked_lists [] _ = error_occurred "ApiManager::handleLoginResponse | empty lists"
checked_lists (_ ∷ _) [] = error_occurred "ApiManager::handleLoginResponse | empty lists"
checked_lists (id ∷ _) (role_id ∷ _) =
    if is_blank id || is_blank role_id
    then error_occurred "ApiManager::handleLoginResponse | empty id or roleId"
    else login_success id role_id

abbrev checked_columns : Option Data → Option Data → Signal
checked_columns none _ = error_occurred "ApiManager::handleLoginResponse | missing key in dataset"
checked_columns (some _) none =
    error_occurred "ApiManager::handleLoginResponse | missing key in dataset"
checked_columns (some ids) (some role_ids) = checked_lists ids role_ids

unfoldable pub handle_login_response : Method → Dataset → Option Signal
unfolding find
handle_login_response _ d = some (checked_columns (find "id" d) (find "roleId" d))

abbrev handle_receipt : Method → Dataset → Option Signal
handle_receipt post d = some purchase_receipt_posted
handle_receipt get d = none
handle_receipt put d = none
handle_receipt del d = none

-- `setupHandlers`
unfoldable pub response_handlers : List (String × (Method → Dataset → Option Signal))
unfolding handle_login_response handle_users handle_roles handle_product_types handle_stocks
    handle_supplier_products handle_contacts handle_suppliers handle_employees
    handle_purchase_orders handle_purchase_order_records handle_sales_orders
    handle_sales_order_records handle_logs handle_sales_analytics_response
    handle_inventory_analytics_response
response_handlers =
    (Endpoints.users_login, handle_login_response)
    ∷ (Endpoints.users, handle_users)
    ∷ (Endpoints.users_roles, handle_roles)
    ∷ (Endpoints.inventory_product_types, handle_product_types)
    ∷ (Endpoints.inventory_stocks, handle_stocks)
    ∷ (Endpoints.inventory_supplier_products, handle_supplier_products)
    ∷ (Endpoints.management_contacts, handle_contacts)
    ∷ (Endpoints.management_suppliers, handle_suppliers)
    ∷ (Endpoints.management_employees, handle_employees)
    ∷ (Endpoints.purchase_orders, handle_purchase_orders)
    ∷ (Endpoints.purchase_order_records, handle_purchase_order_records)
    ∷ (Endpoints.purchase_receipts, handle_receipt)
    ∷ (Endpoints.sales_orders, handle_sales_orders)
    ∷ (Endpoints.sales_order_records, handle_sales_order_records)
    ∷ (Endpoints.logs_entries, handle_logs)
    ∷ (Endpoints.analytics_sales, handle_sales_analytics_response)
    ∷ (Endpoints.analytics_inventory, handle_inventory_analytics_response)
    ∷ []

-- Every error message on a line of its own.
unfoldable pub error_message : Option Data → String
error_message none = ""
error_message (some errors) = foldl (λ message error. message ++ error ++ "\n") "" errors

unfoldable pub handled_by :
    Option (Method → Dataset → Option Signal) → Method → Dataset → Option Signal
unfolding error_message find
handled_by none method d = none
handled_by (some handler) method d =
    let message = error_message (find "error" d) in
    if is_blank message then handler method d else some (error_occurred message)

unfoldable pub handle_response : String → Method → Dataset → Option Signal
unfolding handled_by response_handlers
handle_response endpoint method d = handled_by (find endpoint response_handlers) method d
