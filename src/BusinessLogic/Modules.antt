-- ===== src/BusinessLogic/Modules.antt =====
-- BusinessLogic/BusinessLogic.cpp: the modules that the constructor registers. That of analytics is
-- an argument.
use sage_store.Prelude.{String, Bool, [], ◌∷◌}
use sage_store.Exec.{Exec}
use sage_store.DataSpecs.{RequestData, ResponseData}
use sage_store.Repositories.{RepositoryManager}
use sage_store.BusinessLogic.{ModuleRegistry}
use sage_store.Users
use sage_store.System
use sage_store.Inventory
use sage_store.Management
use sage_store.Purchase
use sage_store.Sales
use sage_store.Logs

unfoldable pub registered_modules :
    {S : Type 0}
    → (String → Bool)
    → (RequestData → Exec S ResponseData)
    → RepositoryManager S
    → ModuleRegistry S
registered_modules stod_returns analytics repositories =
    ("users", Users.execute_task repositories)
    ∷ ("system", System.execute_task)
    ∷ ("inventory", Inventory.execute_task repositories)
    ∷ ("management", Management.execute_task repositories)
    ∷ ("purchase", Purchase.execute_task stod_returns repositories)
    ∷ ("sales", Sales.execute_task stod_returns repositories)
    ∷ ("analytics", analytics)
    ∷ ("logs", Logs.execute_task repositories)
    ∷ []
