-- ===== src/Sales.antt =====
-- BusinessLogic/SalesModule.cpp: sale orders and their line items.
use sage_store.Prelude.{String, Bool, List, [], ◌∷◌, ◌==◌, is_blank, if◌then◌else◌}
use sage_store.Exec.{Result, Exec, pure, lift, raise, for_each, ◌>>=◌, ◌>>◌}
use sage_store.DataSpecs.{Dataset, RequestData, ResponseData, empty_response, table_response}
use sage_store.Entities.{SaleOrder, SalesOrderRecord}
use sage_store.Repositories.{RepositoryManager}
use sage_store.ModuleUtils.{ensure_resource_id, ensure_entity_exists}
pub mod Requests
use Requests.{component, build_order, build_order_record}

abbrev pub order_keys : List String
order_keys = "id" ∷ "date" ∷ "userId" ∷ "contactId" ∷ "employeeId" ∷ "status" ∷ []

abbrev pub order_cells : SaleOrder → List (String × String)
order_cells e =
    ("id", e.id)
    ∷ ("date", e.date)
    ∷ ("userId", e.user_id)
    ∷ ("contactId", e.contact_id)
    ∷ ("employeeId", e.employee_id)
    ∷ ("status", e.status)
    ∷ []

abbrev pub order_record_keys : List String
order_record_keys = "id" ∷ "orderId" ∷ "productTypeId" ∷ "quantity" ∷ "price" ∷ []

abbrev pub order_record_cells : SalesOrderRecord → List (String × String)
order_record_cells e =
    ("id", e.id)
    ∷ ("orderId", e.order_id)
    ∷ ("productTypeId", e.product_type_id)
    ∷ ("quantity", e.quantity)
    ∷ ("price", e.price)
    ∷ []

module _ {S : Type 0} (stod_returns : String → Bool) (repositories : RepositoryManager S) where
  open repositories use {
    sale_orders, sales_order_records, users, contacts, employees, product_types,
  }

  unfoldable pub get_orders : Exec S ResponseData
  get_orders = do found ← sale_orders.get_all; pure (table_response order_keys order_cells found)

  unfoldable pub get_order_records : String → Exec S ResponseData
  get_order_records order_id = do
    found ←
        if is_blank order_id
        then sales_order_records.get_all
        else sales_order_records.get_by_field "orderId" order_id
    pure (table_response order_record_keys order_record_cells found)

  unfoldable pub add_order : Dataset → Exec S (Unit {0})
  add_order request = do
    order ← lift (build_order request "")
    ensure_entity_exists users "id" order.user_id component "Referenced user does not exist"
    ensure_entity_exists contacts "id" order.contact_id component
        "Referenced contact does not exist"
    ensure_entity_exists employees "id" order.employee_id component
        "Referenced employee does not exist"
    sale_orders.add order

  unfoldable pub edit_order : Dataset → String → Exec S (Unit {0})
  edit_order request resource_id = do
    lift (ensure_resource_id resource_id component "Sales order")
    ensure_entity_exists sale_orders "id" resource_id component "Sales order does not exist"
    order ← lift (build_order request resource_id)
    ensure_entity_exists users "id" order.user_id component "Referenced user does not exist"
    ensure_entity_exists contacts "id" order.contact_id component
        "Referenced contact does not exist"
    ensure_entity_exists employees "id" order.employee_id component
        "Referenced employee does not exist"
    sale_orders.update order

  unfoldable pub delete_order : String → Exec S (Unit {0})
  delete_order resource_id = do
    lift (ensure_resource_id resource_id component "Sales order")
    ensure_entity_exists sale_orders "id" resource_id component "Sales order does not exist"
    order_records ← sales_order_records.get_by_field "orderId" resource_id
    for_each order_records (λ r. sales_order_records.delete_resource r.id)
    sale_orders.delete_resource resource_id

  unfoldable pub add_order_record : Dataset → Exec S (Unit {0})
  add_order_record request = do
    order_record ← lift (build_order_record stod_returns request "")
    ensure_entity_exists sale_orders "id" order_record.order_id component
        "Referenced sales order does not exist"
    ensure_entity_exists product_types "id" order_record.product_type_id component
        "Referenced product type does not exist"
    sales_order_records.add order_record

  unfoldable pub edit_order_record : Dataset → String → Exec S (Unit {0})
  edit_order_record request resource_id = do
    lift (ensure_resource_id resource_id component "Sales order record")
    ensure_entity_exists sales_order_records "id" resource_id component
        "Sales order record does not exist"
    order_record ← lift (build_order_record stod_returns request resource_id)
    ensure_entity_exists sale_orders "id" order_record.order_id component
        "Referenced sales order does not exist"
    ensure_entity_exists product_types "id" order_record.product_type_id component
        "Referenced product type does not exist"
    sales_order_records.update order_record

  unfoldable pub delete_order_record : String → Exec S (Unit {0})
  delete_order_record resource_id = do
    lift (ensure_resource_id resource_id component "Sales order record")
    ensure_entity_exists sales_order_records "id" resource_id component
        "Sales order record does not exist"
    sales_order_records.delete_resource resource_id

  -- `executeTask` for each submodule
  unfoldable pub orders_task : RequestData → Exec S ResponseData
  orders_task request =
      if request.method == "GET"
      then get_orders
      else if request.method == "POST"
      then add_order request.dataset >> pure empty_response
      else if request.method == "PUT"
      then edit_order request.dataset request.resource_id >> pure empty_response
      else if request.method == "DELETE"
      then delete_order request.resource_id >> pure empty_response
      else raise component "Unrecognized method"

  unfoldable pub order_records_task : RequestData → Exec S ResponseData
  order_records_task request =
      if request.method == "GET"
      then get_order_records request.resource_id
      else if request.method == "POST"
      then add_order_record request.dataset >> pure empty_response
      else if request.method == "PUT"
      then edit_order_record request.dataset request.resource_id >> pure empty_response
      else if request.method == "DELETE"
      then delete_order_record request.resource_id >> pure empty_response
      else raise component "Unrecognized method"

  unfoldable pub execute_task : RequestData → Exec S ResponseData
  execute_task request =
      if request.submodule == "orders"
      then orders_task request
      else if request.submodule == "order-records"
      then order_records_task request
      else raise component "Unrecognized sales task"
