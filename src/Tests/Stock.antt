-- ===== src/Tests/Stock.antt =====
-- Stocks, and who can log in: the properties of the inventory and the users at the seed database.
use sage_store.Prelude.{◌≡◌, ◌≤◌, ◌↔◌, refl, [], ◌∷◌, select, any, arith, Bool}
use sage_store.Exec.{ok}
use sage_store.DataSpecs.{Dataset, RequestData}
use sage_store.Memory.{affinity, integer_text, memory_repositories}
use sage_store.Memory.Correct.{views, memory-IsDatabase}
use sage_store.Prelude.Decimal.{all_digits, to_string, decimal}
use sage_store.Entities.{User}
use sage_store.Tables.Unique.{count}
use sage_store.Tables.Settled.{Settled}
use sage_store.Inventory
use sage_store.Inventory.Unique.{IsStocked}
use sage_store.Inventory.Unique.Tasks.{execute_task-IsStocked}
use sage_store.Users.{login_user, login_response}
use sage_store.Users.Login.{IsLogin, login_user_iff}
use sage_store.Tests.Seed.{seed, seed_tables, request}

-- One row passes a test once at most.
one_row : {E : Type 0} (p : E → Bool) (e : E) → count p (e ∷ []) ≤ 1
unfolding select
one_row p e = ground arith

pub seed-IsStocked : IsStocked affinity seed_tables
unfolding any integer_text all_digits to_string decimal
seed-IsStocked = record {
  product_types = record {
    one_by_key = λ v. one_row _ _;
    one_by_id = λ v. one_row _ _;
    stored_ids = refl;
  };
  stocks = record {
    one_by_key = λ v. one_row _ _;
    one_by_id = λ v. one_row _ _;
    stored_ids = refl;
  };
}

abbrev new_stock : RequestData
new_stock =
    request "inventory" "stocks" "PUT" "1" (
      ("productTypeId", "1" ∷ []) ∷ ("quantityAvailable", "5" ∷ []) ∷ ("employeeId", "1" ∷ []) ∷ [])

execute_task-IsStocked_example :
    Settled views
      (IsStocked affinity)
      seed
      (Inventory.execute_task memory_repositories new_stock seed).0
      (Inventory.execute_task memory_repositories new_stock seed).1
execute_task-IsStocked_example =
    execute_task-IsStocked memory_repositories memory-IsDatabase new_stock seed seed-IsStocked

abbrev admin : User
admin = record { id = "1"; username = "admin"; password = "240be5"; role_id = "1" }

abbrev login : Dataset
login = ("username", "admin" ∷ []) ∷ ("password", "240be5" ∷ []) ∷ []

login_user_iff_example :
    ((login_user memory_repositories login seed).0 ≡ ok (login_response admin)) ↔ (
      (user : User) × IsLogin login seed_tables.users user
      × (login_response admin ≡ login_response user))
login_user_iff_example =
    login_user_iff memory_repositories memory-IsDatabase login seed (login_response admin)
