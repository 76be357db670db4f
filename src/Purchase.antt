-- ===== src/Purchase.antt =====
-- BusinessLogic/PurchaseModule.cpp: purchase orders, their line items, and receipts.
pub mod Status
pub mod Requests
pub mod Receipt
pub mod Rules
pub mod Planning
pub mod Quantities
pub mod Immutable
pub mod Booking
use sage_store.Prelude.{String, Bool, not, List, [], ◌∷◌, ◌==◌, is_blank, is_empty, if◌then◌else◌}
use sage_store.Exec.{
  Result, ok, err, throw, Exec, pure, lift, raise, throw_if, for_each, ◌>>=◌, ◌>>◌,
}
use sage_store.DataSpecs.{Dataset, RequestData, ResponseData, empty_response, table_response}
use sage_store.Entities.{PurchaseOrder, PurchaseOrderRecord}
use sage_store.Repositories.{IRepository, RepositoryManager}
use sage_store.ModuleUtils.{ensure_resource_id, ensure_entity_exists}
use Status.{component}
use Requests.{build_order, build_order_record}
use Receipt.{get_order_by_id, ensure_order_is_not_received, receive_order}

unfoldable pub ensure_order_status_can_be_set_manually :
    {S : Type 0} → PurchaseOrder → Exec S (Unit {0})
unfolding throw_if
ensure_order_status_can_be_set_manually order =
    throw_if (order.status == "Received") component
      "Purchase orders must be received via receipt posting"

abbrev pub order_keys : List String
order_keys = "id" ∷ "date" ∷ "userId" ∷ "supplierId" ∷ "status" ∷ []

abbrev pub order_cells : PurchaseOrder → List (String × String)
order_cells e =
    ("id", e.id)
    ∷ ("date", e.date)
    ∷ ("userId", e.user_id)
    ∷ ("supplierId", e.supplier_id)
    ∷ ("status", e.status)
    ∷ []

abbrev pub order_record_keys : List String
order_record_keys = "id" ∷ "orderId" ∷ "productTypeId" ∷ "quantity" ∷ "price" ∷ []

abbrev pub order_record_cells : PurchaseOrderRecord → List (String × String)
order_record_cells e =
    ("id", e.id)
    ∷ ("orderId", e.order_id)
    ∷ ("productTypeId", e.product_type_id)
    ∷ ("quantity", e.quantity)
    ∷ ("price", e.price)
    ∷ []

-- `existingRecords.front()`, after the test that there is one
first_record : {S : Type 0} → List PurchaseOrderRecord → Exec S PurchaseOrderRecord
first_record [] = raise component "Purchase order record does not exist"
first_record (e ∷ _) = pure e

module _ {S : Type 0} (stod_returns : String → Bool) (repositories : RepositoryManager S) where
  open repositories use {
    purchase_orders, purchase_order_records, users, suppliers, employees, product_types,
  }

  unfoldable pub get_orders : Exec S ResponseData
  get_orders = do
    found ← purchase_orders.get_all
    pure (table_response order_keys order_cells found)

  unfoldable pub get_order_records : String → Exec S ResponseData
  get_order_records order_id = do
    found ←
        if is_blank order_id
        then purchase_order_records.get_all
        else purchase_order_records.get_by_field "orderId" order_id
    pure (table_response order_record_keys order_record_cells found)

  unfoldable pub add_order : Dataset → Exec S (Unit {0})
  add_order request = do
    order ← lift (build_order request "")
    ensure_order_status_can_be_set_manually order
    ensure_entity_exists users "id" order.user_id component "Referenced user does not exist"
    ensure_entity_exists suppliers "id" order.supplier_id component
        "Referenced supplier does not exist"
    purchase_orders.add order

  unfoldable pub edit_order : Dataset → String → Exec S (Unit {0})
  edit_order request resource_id = do
    lift (ensure_resource_id resource_id component "Purchase order")
    existing_order ← get_order_by_id purchase_orders resource_id
    ensure_order_is_not_received existing_order "Received purchase orders cannot be edited"
    order ← lift (build_order request resource_id)
    ensure_order_status_can_be_set_manually order
    ensure_entity_exists users "id" order.user_id component "Referenced user does not exist"
    ensure_entity_exists suppliers "id" order.supplier_id component
        "Referenced supplier does not exist"
    purchase_orders.update order

  unfoldable pub delete_order : String → Exec S (Unit {0})
  delete_order resource_id = do
    lift (ensure_resource_id resource_id component "Purchase order")
    existing_order ← get_order_by_id purchase_orders resource_id
    ensure_order_is_not_received existing_order "Received purchase orders cannot be deleted"
    order_records ← purchase_order_records.get_by_field "orderId" resource_id
    for_each order_records (λ r. purchase_order_records.delete_resource r.id)
    purchase_orders.delete_resource resource_id

  unfoldable pub add_order_record : Dataset → Exec S (Unit {0})
  add_order_record request = do
    order_record ← lift (build_order_record stod_returns request "")
    parent_order ← get_order_by_id purchase_orders order_record.order_id
    ensure_order_is_not_received parent_order
        "Received purchase orders cannot be modified through line items"
    ensure_entity_exists product_types "id" order_record.product_type_id component
        "Referenced product type does not exist"
    purchase_order_records.add order_record

  unfoldable pub edit_order_record : Dataset → String → Exec S (Unit {0})
  unfolding first_record
  edit_order_record request resource_id = do
    lift (ensure_resource_id resource_id component "Purchase order record")
    ensure_entity_exists purchase_order_records "id" resource_id component
        "Purchase order record does not exist"
    existing_records ← purchase_order_records.get_by_field "id" resource_id
    existing_record ← first_record existing_records
    order_record ← lift (build_order_record stod_returns request resource_id)
    existing_parent ← get_order_by_id purchase_orders existing_record.order_id
    ensure_order_is_not_received existing_parent
        "Received purchase orders cannot be modified through line items"
    target_parent ← get_order_by_id purchase_orders order_record.order_id
    ensure_order_is_not_received target_parent
        "Received purchase orders cannot be modified through line items"
    ensure_entity_exists product_types "id" order_record.product_type_id component
        "Referenced product type does not exist"
    purchase_order_records.update order_record

  unfoldable pub delete_order_record : String → Exec S (Unit {0})
  unfolding first_record
  delete_order_record resource_id = do
    lift (ensure_resource_id resource_id component "Purchase order record")
    ensure_entity_exists purchase_order_records "id" resource_id component
        "Purchase order record does not exist"
    existing_records ← purchase_order_records.get_by_field "id" resource_id
    existing_record ← first_record existing_records
    parent_order ← get_order_by_id purchase_orders existing_record.order_id
    ensure_order_is_not_received parent_order
        "Received purchase orders cannot be modified through line items"
    purchase_order_records.delete_resource resource_id

  -- `executeTask` for each submodule
  unfoldable pub orders_task : RequestData → Exec S ResponseData
  orders_task request =
      if request.method == "GET"
      then get_orders
      else if request.method == "POST"
      then add_order request.dataset >> pure empty_response
      else if request.method == "PUT"
      then edit_order request.dataset request.resource_id >> pure empty_response
      else if request.method == "DELETE"
      then delete_order request.resource_id >> pure empty_response
      else raise component "Unrecognized method"

  unfoldable pub order_records_task : RequestData → Exec S ResponseData
  order_records_task request =
      if request.method == "GET"
      then get_order_records request.resource_id
      else if request.method == "POST"
      then add_order_record request.dataset >> pure empty_response
      else if request.method == "PUT"
      then edit_order_record request.dataset request.resource_id >> pure empty_response
      else if request.method == "DELETE"
      then delete_order_record request.resource_id >> pure empty_response
      else raise component "Unrecognized method"

  unfoldable pub receipts_task : RequestData → Exec S ResponseData
  receipts_task request =
      if request.method == "POST"
      then receive_order repositories request.dataset >> pure empty_response
      else raise component "Unrecognized method"

  unfoldable pub execute_task : RequestData → Exec S ResponseData
  execute_task request =
      if request.submodule == "orders"
      then orders_task request
      else if request.submodule == "order-records"
      then order_records_task request
      else if request.submodule == "receipts"
      then receipts_task request
      else raise component "Unrecognized purchase task"
