-- ===== src/Tests/Fields.antt =====
-- Quantities and the integer fields of a request.
use sage_store.Prelude.{◌≡◌, ◌↔◌, ◌≤◌, ◌+◌, refl, true, false, [], ◌∷◌, ◌==◌, arith}
use sage_store.Prelude.Assoc.{find}
use sage_store.Prelude.Decimal.{all_digits, decimal, to_string}
use sage_store.Exec.{ok}
use sage_store.DataSpecs.{Dataset}
use sage_store.ModuleUtils.{
  llong_max, is_digits, get_optional_dataset_value, get_required_positive_integer,
}
use sage_store.ModuleUtils.Integers.{
  IsInteger, zeros, get_required_positive_integer_iff, zeros_are_positive,
}
use sage_store.Inventory.Requests
use sage_store.ModuleUtils
use sage_store.Inventory.Fields.{get_required_positive_integer-eq}
use sage_store.Purchase.Requests.{add_quantities, parse_non_negative_quantity}
use sage_store.Purchase.Quantities.{
  parse_non_negative_quantity-to_string, add_quantities-to_string, add_quantities-eq-sum,
}

abbrev double_zero : Dataset
double_zero = ("quantity", "00" ∷ []) ∷ []

add_quantities-to_string_example : add_quantities (to_string 12) (to_string 30) ≡ ok 42
add_quantities-to_string_example = add_quantities-to_string 12 30 (omega arith) (omega arith)

add_quantities_sum : add_quantities "012" "30" ≡ ok 42
unfolding add_quantities all_digits decimal
add_quantities_sum = refl

add_quantities-eq-sum_example :
    (42 ≡ decimal "012" + decimal "30")
    × (42 ≤ llong_max)
    × (is_digits "012" ≡ true)
    × (is_digits "30" ≡ true)
add_quantities-eq-sum_example = add_quantities-eq-sum "012" "30" 42 add_quantities_sum

zeros_are_positive_example :
    (get_required_positive_integer double_zero "quantity" "PurchaseModule" ≡ ok (zeros 2))
    × (decimal (zeros 2) ≡ 0)
unfolding get_optional_dataset_value zeros find
zeros_are_positive_example = zeros_are_positive double_zero "quantity" "PurchaseModule" 0 refl

parse_non_negative_quantity-to_string_example : parse_non_negative_quantity (to_string 12) ≡ ok 12
parse_non_negative_quantity-to_string_example =
    parse_non_negative_quantity-to_string 12 (omega arith)

get_required_positive_integer_iff_example :
    (get_required_positive_integer double_zero "quantity" "PurchaseModule" ≡ ok "00") ↔ (
      IsInteger "00"
      × (get_optional_dataset_value double_zero "quantity" ≡ "00")
      × (("00" == "0") ≡ false))
get_required_positive_integer_iff_example =
    get_required_positive_integer_iff double_zero "quantity" "PurchaseModule" "00"

get_required_positive_integer-eq_example :
    Requests.get_required_positive_integer double_zero "quantity"
    ≡ ModuleUtils.get_required_positive_integer double_zero "quantity" "InventoryModule"
get_required_positive_integer-eq_example = get_required_positive_integer-eq double_zero "quantity"
