-- ===== src/Tables/Laws.antt =====
-- What the business modules rely on of the database behind the repositories, as SQLite documents it:
-- a SELECT on an open database returns the rows and changes nothing; an INSERT, UPDATE or DELETE
-- does what it says to its own table, or throws and has done nothing; an open transaction that is
-- rolled back leaves the tables of its beginning.
use sage_store.Prelude.{String, ◌≡◌, true, Option, none, some, List, [], ◌∷◌, ◌++◌, select}
use sage_store.Exec.{Result, ok, err}
use sage_store.Exec.Ensures.{Ensures}
use sage_store.Repositories.{IRepository, Transactions, RepositoryManager}
use sage_store.Tables.{
  Tables, Affinity, Columns, insert_row, update_rows, delete_rows, user_columns, role_columns,
  inventory_columns, contact_columns, employee_columns, log_columns, purchase_order_columns,
  purchase_order_record_columns, product_type_columns, sale_order_columns,
  sales_order_record_columns, supplier_columns, suppliers_product_info_columns,
}

-- The tables that a state shows, and, if a transaction is open, those of its beginning.
pub record Views (S : Type 0) : Type 0 where
  pub view : S → Tables
  pub saved : S → Option Tables

-- How a write ends: it has made the tables `t`, or it has thrown and changed nothing.
abbrev pub Written : {S : Type 0} → Views S → Tables → S → Result (Unit {0}) → S → Type 0
Written v t s (ok _) s' = (v.view s' ≡ t) × (v.saved s' ≡ v.saved s)
Written v t s (err _) s' = (v.view s' ≡ v.view s) × (v.saved s' ≡ v.saved s)

-- An id that no row has, and that finds the row which is made with it.
pub record IsFresh {E : Type 0} (c : Columns E) (id : String) (e : E) (rows : List E) : Type 0 where
  pub unused : select (c.matches "id" id) rows ≡ []
  pub found : c.matches "id" id (insert_row c id e) ≡ true

-- A repository of one table; `get` and `put` say which.
pub record IsTable {S E : Type 0} (v : Views S) (get : Tables → List E)
    (put : List E → Tables → Tables) (c : Columns E) (r : IRepository S E) : Type 0 where
  pub get_all_lem : (s : S) → r.get_all s ≡ (ok (get (v.view s)), s)
  pub get_by_field_lem :
      (field value : String) (s : S)
      → c.has field ≡ true
      → r.get_by_field field value s ≡ (ok (select (c.matches field value) (get (v.view s))), s)
  pub new_id : E → S → String
  pub new_id_fresh : (e : E) (s : S) → IsFresh c (new_id e s) e (get (v.view s))
  pub add_lem :
      (e : E) (s : S)
      → Ensures
          (r.add e)
          s
          (Written v (put (get (v.view s) ++ insert_row c (new_id e s) e ∷ []) (v.view s)) s)
  pub update_lem :
      (e : E) (s : S)
      → Ensures (r.update e) s (Written v (put (update_rows c e (get (v.view s))) (v.view s)) s)
  pub delete_resource_lem :
      (id : String) (s : S)
      → Ensures
          (r.delete_resource id)
          s
          (Written v (put (delete_rows c id (get (v.view s))) (v.view s)) s)

abbrev pub Began : {S : Type 0} → Views S → S → Result (Unit {0}) → S → Type 0
Began v s (ok _) s' = (v.view s' ≡ v.view s) × (v.saved s' ≡ some (v.view s))
Began v s (err _) s' = v.view s' ≡ v.view s

-- A COMMIT ends the transaction, or throws and leaves it open.
abbrev pub Committed : {S : Type 0} → Views S → S → Result (Unit {0}) → S → Type 0
Committed v s (ok _) s' = (v.view s' ≡ v.view s) × (v.saved s' ≡ none)
Committed v s (err _) s' = (v.view s' ≡ v.view s) × (v.saved s' ≡ v.saved s)

pub record IsTransactional {S : Type 0} (v : Views S) (t : Transactions S) : Type 0 where
  pub begin_lem : (s : S) → Ensures t.begin_transaction s (Began v s)
  pub commit_lem : (s : S) → Ensures t.commit_transaction s (Committed v s)
  -- An open transaction is rolled back.
  pub rollback_lem :
      (s : S) (t0 : Tables) → v.saved s ≡ some t0 → v.view (t.rollback_transaction s).1 ≡ t0

pub record IsDatabase {S : Type 0} (a : Affinity) (v : Views S) (r : RepositoryManager S)
    : Type 0 where
  pub transactions : IsTransactional v r.db_manager
  pub users :
      IsTable v (λ t. t.users) (λ rows t. record t { users = rows }) (user_columns a) r.users
  pub roles :
      IsTable v (λ t. t.roles) (λ rows t. record t { roles = rows }) (role_columns a) r.roles
  pub inventory :
      IsTable v
        (λ t. t.inventory)
        (λ rows t. record t { inventory = rows })
        (inventory_columns a)
        r.inventory
  pub contacts :
      IsTable v
        (λ t. t.contacts)
        (λ rows t. record t { contacts = rows })
        (contact_columns a)
        r.contacts
  pub employees :
      IsTable v
        (λ t. t.employees)
        (λ rows t. record t { employees = rows })
        (employee_columns a)
        r.employees
  pub logs : IsTable v (λ t. t.logs) (λ rows t. record t { logs = rows }) (log_columns a) r.logs
  pub purchase_orders :
      IsTable v
        (λ t. t.purchase_orders)
        (λ rows t. record t { purchase_orders = rows })
        (purchase_order_columns a)
        r.purchase_orders
  pub purchase_order_records :
      IsTable v
        (λ t. t.purchase_order_records)
        (λ rows t. record t { purchase_order_records = rows })
        (purchase_order_record_columns a)
        r.purchase_order_records
  pub product_types :
      IsTable v
        (λ t. t.product_types)
        (λ rows t. record t { product_types = rows })
        (product_type_columns a)
        r.product_types
  pub sale_orders :
      IsTable v
        (λ t. t.sale_orders)
        (λ rows t. record t { sale_orders = rows })
        (sale_order_columns a)
        r.sale_orders
  pub sales_order_records :
      IsTable v
        (λ t. t.sales_order_records)
        (λ rows t. record t { sales_order_records = rows })
        (sales_order_record_columns a)
        r.sales_order_records
  pub suppliers :
      IsTable v
        (λ t. t.suppliers)
        (λ rows t. record t { suppliers = rows })
        (supplier_columns a)
        r.suppliers
  pub suppliers_product_info :
      IsTable v
        (λ t. t.suppliers_product_info)
        (λ rows t. record t { suppliers_product_info = rows })
        (suppliers_product_info_columns a)
        r.suppliers_product_info
