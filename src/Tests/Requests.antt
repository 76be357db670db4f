-- ===== src/Tests/Requests.antt =====
-- Requests to the whole server: what is answered, and what the audit log holds afterwards.
use sage_store.Prelude.{inl, ◌≡◌, refl, [], ◌∷◌, some}
use sage_store.Prelude.Assoc.{find, assign}
use sage_store.Exec.{Exception, server, ok, err, pure}
use sage_store.DataSpecs.{RequestData, ResponseData, empty_response}
use sage_store.Memory.{Memory, memory_repositories}
use sage_store.Memory.Correct.{memory-IsDatabase}
use sage_store.BusinessLogic.{ModuleRegistry, route, route_to, execute_task}
use sage_store.BusinessLogic.Entry.{entry_of}
use sage_store.BusinessLogic.Audit.{Audited, shown, execute_task_unaudited, execute_task-Audited}
use sage_store.System
use sage_store.Tests.Seed.{seed, request}

-- A server with the health module, and one that answers everything.
abbrev modules : ModuleRegistry Memory
modules = ("system", System.execute_task) ∷ ("echo", λ r. pure empty_response) ∷ []

abbrev health : RequestData
health = request "system" "health" "GET" "" []

abbrev broken_health : RequestData
broken_health = request "system" "health" "POST" "" []

abbrev healthy : ResponseData
healthy = record {
  dataset =
      ("status", "ok" ∷ []) ∷ ("service", "SageStoreServer" ∷ []) ∷ ("ready", "true" ∷ []) ∷ [];
}

abbrev read_only : Exception
read_only =
    server (record { component_name = "SystemModule"; message = "Health endpoint is read-only" })

abbrev change : RequestData
change = request "echo" "things" "POST" "7" (("userId", "1" ∷ []) ∷ [])

routed_health : route modules health seed ≡ (ok healthy, seed)
unfolding route route_to find System.execute_task assign
routed_health = refl

routed_broken : route modules broken_health seed ≡ (err read_only, seed)
unfolding route route_to find System.execute_task assign
routed_broken = refl

routed_change : route modules change seed ≡ (ok empty_response, seed)
unfolding route route_to find
routed_change = refl

execute_task_unaudited_example :
    execute_task modules (some memory_repositories.logs) "now" health seed
    ≡ (shown (route modules health seed).0, (route modules health seed).1)
execute_task_unaudited_example =
    execute_task_unaudited modules (some memory_repositories.logs) "now" health seed
      (inl (inl refl))

execute_task-Audited_example :
    Audited memory-IsDatabase.logs modules "now" change seed empty_response
      (memory_repositories.logs.add (entry_of "now" change) seed).0
      (execute_task modules (some memory_repositories.logs) "now" change seed)
execute_task-Audited_example =
    execute_task-Audited memory-IsDatabase.logs modules "now" change seed seed empty_response
      routed_change refl refl
