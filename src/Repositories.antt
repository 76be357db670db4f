-- ===== src/Repositories.antt =====
-- IRepository.hpp and RepositoryManager.cpp: what the modules see of the database. The state `S` of
-- the database behind the repositories is a parameter everywhere: SQLite is not part of the
-- repository. What the modules rely on of it is stated in Tables/Laws.
use sage_store.Prelude.{String, List}
use sage_store.Exec.{Result, ok, err, Exec, ◌>>=◌, ◌>>◌}
use sage_store.Entities.{
  User, Role, Log, Contact, Employee, Supplier, SuppliersProductInfo, ProductType, Inventory,
  SaleOrder, SalesOrderRecord, PurchaseOrder, PurchaseOrderRecord,
}

-- `IRepository<E>`
pub record IRepository (S E : Type 0) : Type 0 where
  pub add : E → Exec S (Unit {0})
  pub update : E → Exec S (Unit {0})
  pub delete_resource : String → Exec S (Unit {0})
  pub get_by_field : String → String → Exec S (List E)
  pub get_all : Exec S (List E)

-- The part of `IDatabaseManager` that `runInTransaction` calls.
pub record Transactions (S : Type 0) : Type 0 where
  pub begin_transaction : Exec S (Unit {0})
  pub commit_transaction : Exec S (Unit {0})
  pub rollback_transaction : Exec S (Unit {0})

-- `RepositoryManager`: a repository for each table, and the database manager.
pub record RepositoryManager (S : Type 0) : Type 0 where
  pub db_manager : Transactions S
  pub users : IRepository S User
  pub roles : IRepository S Role
  pub inventory : IRepository S Inventory
  pub contacts : IRepository S Contact
  pub employees : IRepository S Employee
  pub logs : IRepository S Log
  pub purchase_orders : IRepository S PurchaseOrder
  pub purchase_order_records : IRepository S PurchaseOrderRecord
  pub product_types : IRepository S ProductType
  pub sale_orders : IRepository S SaleOrder
  pub sales_order_records : IRepository S SalesOrderRecord
  pub suppliers : IRepository S Supplier
  pub suppliers_product_info : IRepository S SuppliersProductInfo

module _ {S : Type 0} where
  -- `catch (...) { try { rollback } catch (...) {} throw; }`: the result is that of the operation
  unfoldable pub or_roll_back : Transactions S → Result (Unit {0}) × S → Result (Unit {0}) × S
  or_roll_back db (ok a, s) = (ok a, s)
  or_roll_back db (err e, s) = let (_, s') = db.rollback_transaction s in (err e, s')

  -- `RepositoryManager::runInTransaction`
  unfoldable pub run_in_transaction : RepositoryManager S → Exec S (Unit {0}) → Exec S (Unit {0})
  unfolding or_roll_back ◌>>=◌
  run_in_transaction repositories operation =
      let db = repositories.db_manager in
      db.begin_transaction >> λ s. or_roll_back db ((operation >> db.commit_transaction) s)
