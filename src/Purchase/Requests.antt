-- ===== src/Purchase/Requests.antt =====
-- The unnamed namespace of BusinessLogic/PurchaseModule.cpp: the entities that the module builds
-- from a request, and sums of quantities.
use sage_store.Prelude.{ℕ, ◌+◌, ◌-◌, String, Bool, Option, none, some, ltb, if◌then◌else◌}
use sage_store.Exec.{Result, ok, throw}
use sage_store.Exec.Results.{◌>>=◌}
use sage_store.DataSpecs.{Dataset}
use sage_store.Entities.{PurchaseOrder, PurchaseOrderRecord}
use sage_store.ModuleUtils.{
  get_required_dataset_value, get_required_positive_integer, get_required_number, is_digits, stoll,
  llong_max,
}
use sage_store.Purchase.Status.{component, normalize_order_status}

unfoldable pub build_order : Dataset → String → Result PurchaseOrder
build_order request resource_id = do
  date ← get_required_dataset_value request "date" component
  user_id ← get_required_positive_integer request "userId" component
  supplier_id ← get_required_positive_integer request "supplierId" component
  written ← get_required_dataset_value request "status" component
  status ← normalize_order_status written
  ok (record {
    id = resource_id;
    date = date;
    user_id = user_id;
    supplier_id = supplier_id;
    status = status;
  })

unfoldable pub build_order_record : (String → Bool) → Dataset → String → Result PurchaseOrderRecord
build_order_record stod_returns request resource_id = do
  order_id ← get_required_positive_integer request "orderId" component
  product_type_id ← get_required_positive_integer request "productTypeId" component
  quantity ← get_required_positive_integer request "quantity" component
  price ← get_required_number stod_returns request "price" component
  ok (record {
    id = resource_id;
    order_id = order_id;
    product_type_id = product_type_id;
    quantity = quantity;
    price = price;
  })

abbrev quantity_or_throw : Option ℕ → Result ℕ
quantity_or_throw none = throw component "Quantity is out of range"
quantity_or_throw (some quantity) = ok quantity

unfoldable pub parse_non_negative_quantity : String → Result ℕ
unfolding is_digits stoll
parse_non_negative_quantity value =
    if is_digits value
    then quantity_or_throw (stoll value)
    else throw component "Invalid quantity value"

-- The sum of two `long long`s that are not negative: the test before it keeps it from overflowing.
unfoldable pub add_quantities : String → String → Result ℕ
unfolding parse_non_negative_quantity
add_quantities current_quantity received_quantity = do
  current ← parse_non_negative_quantity current_quantity
  received ← parse_non_negative_quantity received_quantity
  if ltb (llong_max - received) current
      then throw component "Stock quantity overflow"
      else ok (current + received)
