-- ===== src/Purchase/Booking/Accepted.antt =====
-- When quantities add up, and a plan can be made.
use sage_store.Prelude.{
  ℕ, ◌+◌, ◌≤◌, String, ◌≡◌, refl, true, false, Bool-cases, inl, inr, List, [], ◌∷◌, select, any,
  not, ◌==◌, arith,
}
use sage_store.Prelude.Decimal.{decimal, to_string, all_digits}
use sage_store.Exec.{ok}
use sage_store.Entities.{Inventory}
use sage_store.ModuleUtils.{llong_max, is_digits, stoll}
use sage_store.Purchase.Requests.{add_quantities, parse_non_negative_quantity}
use sage_store.Purchase.Receipt.{PlannedStockMutation, first_mutation, receive}
use sage_store.Purchase.Booking.{stocks_of}
use sage_store.Purchase.Booking.Planned.{IsPlanned}

parse_non_negative_quantity_accepts :
    (value : String)
    → is_digits value ≡ true
    → decimal value ≤ llong_max
    → parse_non_negative_quantity value ≡ ok (decimal value)
unfolding parse_non_negative_quantity stoll
parse_non_negative_quantity_accepts value digits fits = ground arith

-- Two texts of digits whose sum fits a `long long` are added.
pub add_quantities_accepts :
    (current received : String)
    → is_digits current ≡ true
    → is_digits received ≡ true
    → decimal current + decimal received ≤ llong_max
    → add_quantities current received ≡ ok (decimal current + decimal received)
unfolding add_quantities
add_quantities_accepts current received digits digits' fits =
    rw (parse_non_negative_quantity_accepts current digits (omega arith))
      (rw (parse_non_negative_quantity_accepts received digits' (omega arith)) (ground arith))

-- A mutation whose quantity is a text of digits takes a line item that fits.
pub receive_accepts :
    (inventory : List Inventory) (p employee quantity : String) (k : ℕ) (m : PlannedStockMutation)
    → IsPlanned inventory p k m
    → is_digits m.stock.quantity_available ≡ true
    → is_digits quantity ≡ true
    → k + decimal quantity ≤ llong_max
    → (m' : PlannedStockMutation) × (receive employee quantity m ≡ ok m')
unfolding receive
receive_accepts inventory p employee quantity k m h digits digits' fits = (
  record m {
    stock = record m.stock {
      quantity_available = to_string (decimal m.stock.quantity_available + decimal quantity);
      employee_id = employee;
    };
  },
  rw
      (add_quantities_accepts m.stock.quantity_available quantity digits digits'
        (ground (arith, h.quantity)))
      refl,
)

-- The stock that a plan starts from has digits, if every stock has.
pub first_mutation_digits :
    (p employee : String) (inventory : List Inventory)
    → any (λ e. not (is_digits e.quantity_available)) inventory ≡ false
    → is_digits (first_mutation p employee (stocks_of p inventory)).stock.quantity_available ≡ true
unfolding first_mutation select any
first_mutation_digits p employee [] h = unfold is_digits all_digits in refl
first_mutation_digits p employee (e ∷ rest) h = elim (Bool-cases (p == e.product_type_id)) [
  | inl same ↦ rw same (ground arith)
  | inr other ↦ rw other (first_mutation_digits p employee rest (ground arith))
]
