-- ===== src/Purchase/Receipt.antt =====
-- `receiveOrder` of BusinessLogic/PurchaseModule.cpp: a receipt plans what becomes of the stock of
-- every product type of the order, and then writes the plan and the order in one transaction.
use sage_store.Prelude.{
  String, Bool, true, false, List, [], ◌∷◌, ◌++◌, Option, none, some, ◌==◌, is_empty, if◌then◌else◌,
}
use sage_store.Prelude.Assoc.{find, assign}
use sage_store.Prelude.Decimal.{to_string}
use sage_store.Exec.{
  Result, ok, err, standard, and_then, Exec, pure, lift, raise, throw_if, for_each, ◌>>=◌, ◌>>◌,
}
use sage_store.DataSpecs.{Dataset}
use sage_store.Entities.{Inventory, PurchaseOrder, PurchaseOrderRecord}
use sage_store.Repositories.{IRepository, RepositoryManager, run_in_transaction}
use sage_store.ModuleUtils.{get_required_positive_integer, ensure_entity_exists}
use sage_store.Purchase.Status.{component, normalize_order_status}
use sage_store.Purchase.Requests.{add_quantities}

-- `orders.front()`, after the test that there is one
unfoldable pub first_order : {S : Type 0} → List PurchaseOrder → Exec S PurchaseOrder
first_order [] = raise component "Purchase order does not exist"
first_order (e ∷ _) = pure e

unfoldable pub get_order_by_id :
    {S : Type 0} → IRepository S PurchaseOrder → String → Exec S PurchaseOrder
get_order_by_id orders_repository order_id = do
  ensure_entity_exists orders_repository "id" order_id component "Purchase order does not exist"
  orders ← orders_repository.get_by_field "id" order_id
  first_order orders

unfoldable pub ensure_order_is_not_received :
    {S : Type 0} → PurchaseOrder → String → Exec S (Unit {0})
ensure_order_is_not_received order message = do
  status ← lift (normalize_order_status order.status)
  throw_if (status == "Received") component message

pub record PlannedStockMutation : Type 0 where
  pub create : Bool
  pub stock : Inventory

-- `plannedStocks` and `plannedOrder`
pub record Plan : Type 0 where
  pub stocks : List (String × PlannedStockMutation)
  pub order : List String

abbrev pub empty_plan : Plan
empty_plan = record { stocks = []; order = [] }

-- The mutation of a product type that the plan does not have yet: of the stock that is there, or of
-- a new one.
unfoldable pub first_mutation : String → String → List Inventory → PlannedStockMutation
first_mutation product_type_id employee_id [] = record {
  create = true;
  stock = record {
    id = "";
    product_type_id = product_type_id;
    quantity_available = "0";
    employee_id = employee_id;
  };
}
first_mutation product_type_id employee_id (stock ∷ _) = record { create = false; stock = stock }

-- The planned quantity and employee, after the line item.
unfoldable pub receive : String → String → PlannedStockMutation → Result PlannedStockMutation
unfolding add_quantities
receive employee_id quantity mutation =
    and_then (add_quantities mutation.stock.quantity_available quantity) λ sum.
      ok (record mutation {
        stock = record mutation.stock {
          quantity_available = to_string sum;
          employee_id = employee_id;
        };
      })

-- The order in which the plan is written: a product type stands where it came first.
abbrev pub planned_order : Option PlannedStockMutation → String → List String → List String
planned_order none product_type_id order = order ++ product_type_id ∷ []
planned_order (some _) product_type_id order = order

module _ {S : Type 0} (repositories : RepositoryManager S) where
  open repositories use {
    inventory, purchase_orders, purchase_order_records, product_types, employees,
  }

  -- `plannedStocks.find`, and the mutation that is emplaced where it finds none
  unfoldable pub planned_mutation :
      Option PlannedStockMutation → String → String → Exec S PlannedStockMutation
  planned_mutation (some mutation) product_type_id employee_id = pure mutation
  planned_mutation none product_type_id employee_id = do
    matching_stocks ← inventory.get_by_field "productTypeId" product_type_id
    pure (first_mutation product_type_id employee_id matching_stocks)

  unfoldable pub plan_record : String → PurchaseOrderRecord → Plan → Exec S Plan
  plan_record employee_id order_record plan = do
    ensure_entity_exists product_types "id" order_record.product_type_id component
        "Referenced product type does not exist"
    mutation ←
        planned_mutation (find order_record.product_type_id plan.stocks)
          order_record.product_type_id employee_id
    received ← lift (receive employee_id order_record.quantity mutation)
    pure (record {
      stocks = assign order_record.product_type_id received plan.stocks;
      order =
          planned_order (find order_record.product_type_id plan.stocks) order_record.product_type_id
            plan.order;
    })

  unfoldable pub plan_records : String → List PurchaseOrderRecord → Plan → Exec S Plan
  plan_records employee_id [] plan = pure plan
  plan_records employee_id (r ∷ rest) plan =
      plan_record employee_id r plan >>= plan_records employee_id rest

  -- `plannedStocks.at` throws `std::out_of_range`
  unfoldable pub write_mutation : Option PlannedStockMutation → Exec S (Unit {0})
  write_mutation none = lift (err (standard "unordered_map::at"))
  write_mutation (some mutation) =
      if mutation.create then inventory.add mutation.stock else inventory.update mutation.stock

  unfoldable pub write_plan : Plan → Exec S (Unit {0})
  unfolding for_each write_mutation
  write_plan plan = for_each plan.order (λ p. write_mutation (find p plan.stocks))

  unfoldable pub receive_order : Dataset → Exec S (Unit {0})
  receive_order request = do
    order_id ← lift (get_required_positive_integer request "id" component)
    employee_id ← lift (get_required_positive_integer request "employeeId" component)
    ensure_entity_exists employees "id" employee_id component "Referenced employee does not exist"
    order ← get_order_by_id purchase_orders order_id
    ensure_order_is_not_received order "Purchase order is already received"
    order_records ← purchase_order_records.get_by_field "orderId" order_id
    throw_if (is_empty order_records) component "Purchase order has no line items"
    plan ← plan_records employee_id order_records empty_plan
    run_in_transaction repositories
        (write_plan plan >> purchase_orders.update (record order { status = "Received" }))
