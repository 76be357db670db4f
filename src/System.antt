-- ===== src/System.antt =====
-- BusinessLogic/SystemModule.cpp: the health of the server.
use sage_store.Prelude.{String, [], ◌∷◌, not, ◌==◌, if◌then◌else◌}
use sage_store.Prelude.Assoc.{assign}
use sage_store.Exec.{Exec, pure, raise}
use sage_store.DataSpecs.{RequestData, ResponseData}

abbrev component : String
component = "SystemModule"

unfoldable pub execute_task : {S : Type 0} → RequestData → Exec S ResponseData
unfolding assign
execute_task request =
    if not (request.submodule == "health")
    then raise component "Unrecognized system task"
    else if not (request.method == "GET")
    then raise component "Health endpoint is read-only"
    else pure (record {
      dataset =
          assign "ready" ("true" ∷ [])
            (assign "service" ("SageStoreServer" ∷ []) (assign "status" ("ok" ∷ []) []));
    })
