-- ===== src/ModuleUtils.antt =====
-- BusinessLogic/ModuleUtils.hpp: the fields of a request, read and validated. `component` is the
-- name with which a module throws. What is logged is left out, and so is `currentTimestamp`, which
-- reads the clock: its text is an argument of `BusinessLogic.execute_task`.
pub mod Integers
use Prim.Native.String.{◌++◌}
use sage_store.Prelude.{
  ℕ, String, Bool, not, ◌&&◌, ◌-◌, ◌^◌, Option, none, some, List, [], ◌∷◌, ◌==◌, leb, ltb, is_blank,
  is_empty, if◌then◌else◌,
}
use sage_store.Prelude.Decimal.{all_digits, decimal}
use sage_store.Exec.{Result, ok, throw, and_then, Exec, ◌>>=◌, throw_if}
use sage_store.Prelude.Assoc.{find}
use sage_store.DataSpecs.{Dataset, Data}
use sage_store.Repositories.{IRepository}

-- The first value of a row, or the empty text.
abbrev pub front_or_blank : Option Data → String
front_or_blank none = ""
front_or_blank (some []) = ""
front_or_blank (some (value ∷ _)) = value

unfoldable pub get_optional_dataset_value : Dataset → String → String
get_optional_dataset_value request key = front_or_blank (find key request)

unfoldable pub get_required_dataset_value : Dataset → String → String → Result String
unfolding get_optional_dataset_value
get_required_dataset_value request key component =
    let value = get_optional_dataset_value request key in
    if is_blank value then throw component ("Missing required field: " ++ key) else ok value

unfoldable pub is_digits : String → Bool
is_digits value = not (is_blank value) && all_digits value

-- the largest `unsigned long long`, and the largest `long long`
abbrev pub ullong_max : ℕ
ullong_max = 2 ^ 64 - 1

abbrev pub llong_max : ℕ
llong_max = 2 ^ 63 - 1

-- `std::stoull` and `std::stoll` on a text of digits: out of range, they throw
unfoldable pub stoull : String → Option ℕ
stoull value = let n = decimal value in if leb n ullong_max then some n else none

unfoldable pub stoll : String → Option ℕ
stoll value = let n = decimal value in if leb n llong_max then some n else none

abbrev in_range : Option ℕ → String → String → Result (Unit {0})
in_range none key component = throw component ("Integer field out of range: " ++ key)
in_range (some parsed) key component =
    if ltb llong_max parsed then throw component ("Integer field out of range: " ++ key) else ok tt

unfoldable pub ensure_integer_fits_range : String → String → String → Result (Unit {0})
unfolding stoull
ensure_integer_fits_range value key component = in_range (stoull value) key component

unfoldable pub get_required_non_negative_integer : Dataset → String → String → Result String
unfolding get_required_dataset_value is_digits ensure_integer_fits_range
get_required_non_negative_integer request key component =
    and_then (get_required_dataset_value request key component) λ value.
      if is_digits value
      then and_then (ensure_integer_fits_range value key component) (λ _. ok value)
      else throw component ("Invalid integer field: " ++ key)

unfoldable pub get_required_positive_integer : Dataset → String → String → Result String
get_required_positive_integer request key component =
    and_then (get_required_non_negative_integer request key component) λ value.
      if value == "0" then throw component ("Invalid positive integer field: " ++ key) else ok value

-- `stod_returns` says of which texts `std::stod` makes a number: there are no floats here.
unfoldable pub get_required_number : (String → Bool) → Dataset → String → String → Result String
get_required_number stod_returns request key component =
    and_then (get_required_dataset_value request key component) λ value.
      if stod_returns value then ok value else throw component ("Invalid numeric field: " ++ key)

unfoldable pub ensure_resource_id : String → String → String → Result (Unit {0})
ensure_resource_id resource_id component resource_name =
    if is_blank resource_id then throw component (resource_name ++ " ID is empty") else ok tt

unfoldable pub ensure_entity_exists :
    {S E : Type 0} → IRepository S E → String → String → String → String → Exec S (Unit {0})
unfolding ◌>>=◌ throw_if
ensure_entity_exists repository field_name value component message = do
  found ← repository.get_by_field field_name value
  throw_if (is_empty found) component message
