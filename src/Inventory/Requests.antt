-- ===== src/Inventory/Requests.antt =====
-- The unnamed namespace of BusinessLogic/InventoryModule.cpp: fields of a request, and the entities
-- that the module builds from them. The module has copies of its own of what ModuleUtils.hpp holds.
use Prim.Native.String.{◌++◌}
use sage_store.Prelude.{ℕ, String, ◌||◌, Option, none, some, ◌==◌, ltb, is_blank, if◌then◌else◌}
use sage_store.Prelude.Decimal.{all_digits}
use sage_store.Exec.{Result, ok, throw}
use sage_store.Exec.Results.{◌>>=◌}
use sage_store.DataSpecs.{Dataset}
use sage_store.Entities.{ProductType, Inventory, SuppliersProductInfo}
use sage_store.ModuleUtils.{get_optional_dataset_value, stoull, llong_max}

abbrev pub component : String
component = "InventoryModule"

unfoldable pub get_required_dataset_value : Dataset → String → Result String
get_required_dataset_value request key =
    let value = get_optional_dataset_value request key in
    if is_blank value then throw component ("Missing required field: " ++ key) else ok value

abbrev pub in_range : Option ℕ → String → String → Result String
in_range none key value = throw component ("Integer field out of range: " ++ key)
in_range (some parsed) key value =
    if ltb llong_max parsed
    then throw component ("Integer field out of range: " ++ key)
    else ok value

unfoldable pub get_required_non_negative_integer : Dataset → String → Result String
unfolding get_required_dataset_value
get_required_non_negative_integer request key = do
  value ← get_required_dataset_value request key
  if all_digits value
      then in_range (stoull value) key value
      else throw component ("Invalid integer field: " ++ key)

unfoldable pub get_required_positive_integer : Dataset → String → Result String
unfolding get_required_non_negative_integer
get_required_positive_integer request key = do
  value ← get_required_non_negative_integer request key
  if value == "0" then throw component ("Invalid positive integer field: " ++ key) else ok value

unfoldable pub normalize_boolean_flag : String → String
normalize_boolean_flag value =
    if value == "1" || value == "true" || value == "True" then "1" else "0"

unfoldable pub build_product_type : Dataset → String → Result ProductType
build_product_type request resource_id = do
  code ← get_required_dataset_value request "code"
  name ← get_required_dataset_value request "name"
  unit ← get_required_dataset_value request "unit"
  let barcode = get_optional_dataset_value request "barcode"
  let description = get_optional_dataset_value request "description"
  let last_price = get_optional_dataset_value request "lastPrice"
  let is_imported = get_optional_dataset_value request "isImported"
  ok (record {
    id = resource_id;
    code = code;
    barcode = barcode;
    name = name;
    description = description;
    last_price = if is_blank last_price then "0.0" else last_price;
    unit = unit;
    is_imported = normalize_boolean_flag is_imported;
  })

unfoldable pub build_stock : Dataset → String → Result Inventory
build_stock request resource_id = do
  product_type_id ← get_required_dataset_value request "productTypeId"
  quantity_available ← get_required_non_negative_integer request "quantityAvailable"
  employee_id ← get_required_positive_integer request "employeeId"
  ok (record {
    id = resource_id;
    product_type_id = product_type_id;
    quantity_available = quantity_available;
    employee_id = employee_id;
  })

unfoldable pub build_supplier_product : Dataset → String → Result SuppliersProductInfo
build_supplier_product request resource_id = do
  supplier_id ← get_required_positive_integer request "supplierID"
  product_type_id ← get_required_positive_integer request "productTypeId"
  code ← get_required_dataset_value request "code"
  ok (record {
    id = resource_id;
    supplier_id = supplier_id;
    product_type_id = product_type_id;
    code = code;
  })
