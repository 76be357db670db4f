-- ===== src/Tests/Frames.antt =====
-- Which tables a request touches, and what a client is told, at the seed database.
use sage_store.Prelude.{◌≡◌, [], ◌∷◌}
use sage_store.Exec.{ok}
use sage_store.Users.Listing.{IsListing, get_users-IsListing}
use sage_store.DataSpecs.{RequestData, ResponseData}
use sage_store.Memory.{memory_repositories}
use sage_store.Memory.Correct.{views, memory-IsDatabase}
use sage_store.Tables.Settled.{Settled}
use sage_store.Management
use sage_store.Management.Frame.{IsManaged, execute_task-IsManaged}
use sage_store.Users
use sage_store.Users.Frame.{IsAdministered, execute_task-IsAdministered}
use sage_store.Tests.Seed.{seed, seed_tables, request}

abbrev new_contact : RequestData
new_contact = request "management" "contacts" "POST" "" (("name", "Ann" ∷ []) ∷ [])

execute_task-IsManaged_example :
    Settled views
      (IsManaged seed_tables)
      seed
      (Management.execute_task memory_repositories new_contact seed).0
      (Management.execute_task memory_repositories new_contact seed).1
execute_task-IsManaged_example =
    execute_task-IsManaged memory_repositories memory-IsDatabase seed new_contact

abbrev new_role : RequestData
new_role = request "users" "roles" "POST" "" (("name", "guest" ∷ []) ∷ [])

execute_task-IsAdministered_example :
    Settled views
      (IsAdministered seed_tables)
      seed
      (Users.execute_task memory_repositories new_role seed).0
      (Users.execute_task memory_repositories new_role seed).1
execute_task-IsAdministered_example =
    execute_task-IsAdministered memory_repositories memory-IsDatabase seed new_role

get_users-IsListing_example :
    (response : ResponseData) × (Users.get_users memory_repositories seed ≡ (ok response, seed))
    × IsListing seed_tables.users response
get_users-IsListing_example = get_users-IsListing memory_repositories memory-IsDatabase seed
