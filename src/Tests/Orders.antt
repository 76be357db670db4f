-- ===== src/Tests/Orders.antt =====
-- Purchase orders: runs of the handlers, and the properties of orders and receipts.
use sage_store.Prelude.{String, Bool, ◌≡◌, refl, false, select}
use sage_store.Prelude.Assoc.{find, assign}
use sage_store.Prelude.Decimal.{all_digits, to_string, decimal}
use sage_store.Exec.{ok, ◌>>=◌, throw_if, for_each}
use sage_store.Memory.{affinity, integer_text, memory_repositories, memory_repository}
use sage_store.Memory.Correct.{views, memory-IsDatabase}
use sage_store.ModuleUtils.{
  get_required_non_negative_integer, get_required_positive_integer, ensure_entity_exists,
}
use sage_store.Repositories.{run_in_transaction}
use sage_store.Purchase.{execute_task}
use sage_store.Purchase.Status.{normalize_order_status}
use sage_store.Purchase.Receipt.{
  receive_order, get_order_by_id, ensure_order_is_not_received, first_order, plan_records,
  plan_record, planned_mutation, receive, first_mutation, write_plan,
}
use sage_store.Purchase.Immutable.{HasOrder}
use sage_store.Purchase.Immutable.Tasks.{received_order_stays}
use sage_store.Tests.Seed.{seed, after_receipt, receipt, received, order_fields, request}

-- No text is a float here.
abbrev no_floats : String → Bool
no_floats _ = false

receive_order_run : receive_order memory_repositories receipt seed ≡ (ok tt, after_receipt)
unfolding receive_order get_order_by_id ensure_order_is_not_received first_order plan_records
    plan_record planned_mutation receive first_mutation write_plan run_in_transaction ◌>>=◌ throw_if
    for_each get_required_positive_integer ensure_entity_exists memory_repository
    normalize_order_status find assign to_string decimal all_digits
    get_required_non_negative_integer
receive_order_run = refl

received_order_stays_example : HasOrder affinity "1" received (
    views.view
      (execute_task no_floats memory_repositories
        (request "purchase" "orders" "PUT" "1" order_fields)
        after_receipt).1)
unfolding normalize_order_status select integer_text
received_order_stays_example =
    received_order_stays no_floats memory_repositories memory-IsDatabase "1" received refl
      (request "purchase" "orders" "PUT" "1" order_fields) after_receipt refl
