-- ===== src/ModuleUtils/Integers.antt =====
-- Which texts the integer fields of a request can be.
use sage_store.Prelude.{
  ℕ, zero, suc, ◌≤◌, String, ◌≡◌, ◌↔◌, refl, true, false, ◌==◌, arith, is_blank, String-cases, inl,
  inr,
}
use sage_store.Prelude.Decimal.{all_digits, decimal}
use sage_store.Exec.{ok}
use sage_store.DataSpecs.{Dataset}
use sage_store.ModuleUtils.{
  llong_max, get_optional_dataset_value, get_required_non_negative_integer,
  get_required_positive_integer,
}

-- A text of digits that stands for a number of a `long long`.
pub record IsInteger (value : String) : Type 0 where
  pub filled : is_blank value ≡ false
  pub digits : all_digits value ≡ true
  pub fits : decimal value ≤ llong_max

-- An accepted value is the field of the request, and an integer that fits.
pub get_required_non_negative_integer-IsInteger :
    (request : Dataset) (key component value : String)
    → get_required_non_negative_integer request key component ≡ ok value
    → IsInteger value × (get_optional_dataset_value request key ≡ value)
unfolding get_required_non_negative_integer
get_required_non_negative_integer-IsInteger request key component value h = ground arith

-- An integer that fits is accepted as it is written.
pub get_required_non_negative_integer_accepts :
    (request : Dataset) (key component value : String)
    → IsInteger value
    → get_optional_dataset_value request key ≡ value
    → get_required_non_negative_integer request key component ≡ ok value
unfolding get_required_non_negative_integer
get_required_non_negative_integer_accepts request key component value h e = ground arith

-- A field is accepted as a positive integer exactly if it is an integer that fits and is not the
-- text "0".
pub get_required_positive_integer_iff :
    (request : Dataset) (key component value : String)
    → (get_required_positive_integer request key component ≡ ok value) ↔ (
        IsInteger value
        × (get_optional_dataset_value request key ≡ value)
        × ((value == "0") ≡ false))
unfolding get_required_positive_integer
get_required_positive_integer_iff request key component value = (forth, back)
  where
    forth :
        get_required_positive_integer request key component ≡ ok value
        → IsInteger value
          × (get_optional_dataset_value request key ≡ value)
          × ((value == "0") ≡ false)
    forth h =
        ground (arith, get_required_non_negative_integer-IsInteger request key component value)

    back :
        IsInteger value
          × (get_optional_dataset_value request key ≡ value)
          × ((value == "0") ≡ false)
        → get_required_positive_integer request key component ≡ ok value
    back h =
        ground
          (arith, get_required_non_negative_integer_accepts request key component value h.0 h.1)

-- `n` zeros
unfoldable pub zeros : ℕ → String
zeros zero = ""
zeros (suc n) = String.◌∷◌ "0" (zeros n)

decimal-zeros : (n : ℕ) → decimal (zeros n) ≡ 0
unfolding decimal zeros
decimal-zeros zero = refl
decimal-zeros (suc n) = decimal-zeros n

all_digits-zeros : (n : ℕ) → all_digits (zeros n) ≡ true
unfolding all_digits zeros
all_digits-zeros zero = refl
all_digits-zeros (suc n) = all_digits-zeros n

zeros-filled : (n : ℕ) → is_blank (zeros (suc n)) ≡ false
unfolding zeros
zeros-filled n = elim (String-cases (zeros (suc n)) "") [
  | inl blank ↦ absurd (cc blank)
  | inr filled ↦ filled
]

zeros-ne-zero : (n : ℕ) → (zeros (suc (suc n)) == "0") ≡ false
unfolding zeros
zeros-ne-zero n = elim (String-cases (zeros (suc (suc n))) "0") [
  | inl short ↦ absurd (cc short)
  | inr long ↦ long
]

-- A text of two or more zeros stands for 0, and is accepted as a positive integer all the same: the
-- code compares the text with "0".
pub zeros_are_positive :
    (request : Dataset) (key component : String) (n : ℕ)
    → get_optional_dataset_value request key ≡ zeros (suc (suc n))
    → (get_required_positive_integer request key component ≡ ok (zeros (suc (suc n))))
      × (decimal (zeros (suc (suc n))) ≡ 0)
zeros_are_positive request key component n e = (
  (get_required_positive_integer_iff request key component (zeros (suc (suc n)))).1 (
    record {
      filled = zeros-filled (suc n);
      digits = all_digits-zeros (suc (suc n));
      fits = rw decimal-zeros (omega arith);
    },
    e,
    zeros-ne-zero n,
  ),
  decimal-zeros (suc (suc n)),
)
