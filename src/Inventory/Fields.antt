-- ===== src/Inventory/Fields.antt =====
-- The module's own copies of the functions of ModuleUtils.hpp do what those do.
use sage_store.Prelude.{String, ◌≡◌, refl, arith}
use sage_store.DataSpecs.{Dataset}
use sage_store.ModuleUtils
use sage_store.ModuleUtils.{stoull, llong_max, is_digits, ensure_integer_fits_range}
use sage_store.Inventory.Requests
use sage_store.Inventory.Requests.{component}

-- A required field is read as ModuleUtils reads it, errors included.
pub get_required_dataset_value-eq :
    (request : Dataset) (key : String)
    → Requests.get_required_dataset_value request key
      ≡ ModuleUtils.get_required_dataset_value request key component
unfolding Requests.get_required_dataset_value ModuleUtils.get_required_dataset_value
get_required_dataset_value-eq request key = refl

pub get_required_non_negative_integer-eq :
    (request : Dataset) (key : String)
    → Requests.get_required_non_negative_integer request key
      ≡ ModuleUtils.get_required_non_negative_integer request key component
unfolding Requests.get_required_non_negative_integer ModuleUtils.get_required_non_negative_integer
get_required_non_negative_integer-eq request key = ground arith

-- A field that is to be a positive integer is read as ModuleUtils reads it, errors included.
pub get_required_positive_integer-eq :
    (request : Dataset) (key : String)
    → Requests.get_required_positive_integer request key
      ≡ ModuleUtils.get_required_positive_integer request key component
unfolding Requests.get_required_positive_integer ModuleUtils.get_required_positive_integer
get_required_positive_integer-eq request key =
    ground (arith, get_required_non_negative_integer-eq request key)
