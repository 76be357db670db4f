-- ===== src/Purchase/Quantities.antt =====
-- Quantities are texts that `std::to_string` has printed: they are read back as they were, and a sum
-- that is accepted is the sum of the numbers and fits a `long long`.
use Prim.Native.Nat.{ℕ}
use sage_store.Prelude.{◌+◌, ◌≤◌, String, ◌≡◌, refl, true, leb, if◌then◌else◌, arith, some}
use sage_store.Prelude.Decimal.{
  decimal, to_string, decimal-to_string, all_digits-to_string, to_string-filled,
}
use sage_store.Exec.{ok, throw}
use sage_store.ModuleUtils.{llong_max, is_digits, stoll}
use sage_store.Purchase.Status.{component}
use sage_store.Purchase.Requests.{parse_non_negative_quantity, add_quantities}

pub is_digits-to_string : (n : ℕ) → is_digits (to_string n) ≡ true
unfolding is_digits
is_digits-to_string n = ground (arith, to_string-filled n, all_digits-to_string n)

stoll-to_string : (n : ℕ) → n ≤ llong_max → stoll (to_string n) ≡ some n
unfolding stoll
stoll-to_string n h = rw decimal-to_string (ground arith)

-- A number of a `long long` that is printed as a quantity is read back as itself.
pub parse_non_negative_quantity-to_string :
    (n : ℕ) → n ≤ llong_max → parse_non_negative_quantity (to_string n) ≡ ok n
unfolding parse_non_negative_quantity
parse_non_negative_quantity-to_string n h = rw is_digits-to_string (rw (stoll-to_string n h) refl)

-- The sum of two printed numbers of a `long long` is their sum, or the overflow is reported.
pub add_quantities-to_string :
    (m n : ℕ)
    → m ≤ llong_max
    → n ≤ llong_max
    → add_quantities (to_string m) (to_string n)
      ≡ (if leb (m + n) llong_max then ok (m + n) else throw component "Stock quantity overflow")
unfolding add_quantities
add_quantities-to_string m n hm hn =
    rw (parse_non_negative_quantity-to_string m hm)
      (rw (parse_non_negative_quantity-to_string n hn) (ground arith))

-- Whatever the texts are, an accepted sum is the sum of the numbers that they stand for, both are
-- texts of digits, and the sum fits a `long long`.
pub add_quantities-eq-sum :
    (current received : String) (sum : ℕ)
    → add_quantities current received ≡ ok sum
    → (sum ≡ decimal current + decimal received)
      × (sum ≤ llong_max)
      × (is_digits current ≡ true)
      × (is_digits received ≡ true)
unfolding add_quantities
add_quantities-eq-sum current received sum h = ground arith
