-- ===== src/Sales/Requests.antt =====
-- The unnamed namespace of BusinessLogic/SalesModule.cpp: the entities that the module builds from a
-- request. The status of a sale order is taken as it is written.
use sage_store.Prelude.{String, Bool}
use sage_store.Exec.{Result, ok}
use sage_store.Exec.Results.{◌>>=◌}
use sage_store.DataSpecs.{Dataset}
use sage_store.Entities.{SaleOrder, SalesOrderRecord}
use sage_store.ModuleUtils.{
  get_required_dataset_value, get_required_positive_integer, get_required_number,
}

abbrev pub component : String
component = "SalesModule"

unfoldable pub build_order : Dataset → String → Result SaleOrder
build_order request resource_id = do
  date ← get_required_dataset_value request "date" component
  user_id ← get_required_positive_integer request "userId" component
  contact_id ← get_required_positive_integer request "contactId" component
  employee_id ← get_required_positive_integer request "employeeId" component
  status ← get_required_dataset_value request "status" component
  ok (record {
    id = resource_id;
    date = date;
    user_id = user_id;
    contact_id = contact_id;
    employee_id = employee_id;
    status = status;
  })

unfoldable pub build_order_record : (String → Bool) → Dataset → String → Result SalesOrderRecord
build_order_record stod_returns request resource_id = do
  order_id ← get_required_positive_integer request "orderId" component
  product_type_id ← get_required_positive_integer request "productTypeId" component
  quantity ← get_required_positive_integer request "quantity" component
  price ← get_required_number stod_returns request "price" component
  ok (record {
    id = resource_id;
    order_id = order_id;
    product_type_id = product_type_id;
    quantity = quantity;
    price = price;
  })
