-- ===== src/Sql/Manager/Refined.antt =====
-- The repositories of RepositoryManager.cpp on SQLite are a database in the sense of Tables/Laws, so
-- what is proved of the modules there holds of them with these repositories.
use sage_store.Prelude.{some, ◌≡◌, refl, ap, map}
use sage_store.Exec.{Result, ok, err}
use sage_store.Exec.Ensures.{ensures_weaken}
use sage_store.Tables.{Tables, Affinity}
use sage_store.Tables.Laws.{IsTransactional, IsDatabase, Began, Committed}
use sage_store.Sql.{IDatabaseManager}
use sage_store.Sql.Laws.{Database, IsSqlite, after_commit}
use sage_store.Sql.Correct.{shown-some, shown, views_of, sql_repository-IsTable}
use sage_store.Sql.Manager.{sql_repositories}
use sage_store.Sql.People.{
  user_queries, role_queries, log_queries, contact_queries, employee_queries, supplier_queries,
}
use sage_store.Sql.Products.{
  suppliers_product_info_queries, product_type_queries, inventory_queries,
}
use sage_store.Sql.Orders.{
  sale_order_queries, sales_order_record_queries, purchase_order_queries,
  purchase_order_record_queries,
}
use sage_store.Sql.Mapped.Accounts.{user-IsMapped, role-IsMapped, log-IsMapped}
use sage_store.Sql.Mapped.People.{contact-IsMapped, employee-IsMapped, supplier-IsMapped}
use sage_store.Sql.Mapped.Products.{
  suppliers_product_info-IsMapped, product_type-IsMapped, inventory-IsMapped,
}
use sage_store.Sql.Mapped.Orders.{
  sale_order-IsMapped, sales_order_record-IsMapped, purchase_order-IsMapped,
  purchase_order_record-IsMapped,
}

-- The tables as the repositories read them.
unfoldable pub tables_of : Database → Tables
unfolding user_queries role_queries inventory_queries contact_queries employee_queries log_queries
    purchase_order_queries purchase_order_record_queries product_type_queries sale_order_queries
    sales_order_record_queries supplier_queries suppliers_product_info_queries
tables_of d = record {
  users = map user_queries.from_row (d "User");
  roles = map role_queries.from_row (d "Role");
  inventory = map inventory_queries.from_row (d "Inventory");
  contacts = map contact_queries.from_row (d "Contact");
  employees = map employee_queries.from_row (d "Employee");
  logs = map log_queries.from_row (d "Log");
  purchase_orders = map purchase_order_queries.from_row (d "PurchaseOrder");
  purchase_order_records = map purchase_order_record_queries.from_row (d "PurchaseOrderRecord");
  product_types = map product_type_queries.from_row (d "ProductType");
  sale_orders = map sale_order_queries.from_row (d "SaleOrder");
  sales_order_records = map sales_order_record_queries.from_row (d "SalesOrderRecord");
  suppliers = map supplier_queries.from_row (d "Supplier");
  suppliers_product_info = map suppliers_product_info_queries.from_row (d "SuppliersProductInfo");
}

module _ {S : Type 0} (a : Affinity) (db : IDatabaseManager S) (l : IsSqlite a db) where
  began_lem :
      (s : S) (o : Result (Unit {0})) (s' : S)
      → (l.data_of s' ≡ l.data_of s) × (o ≡ ok tt → l.saved_of s' ≡ some (l.data_of s))
      → Began (views_of l tables_of) s o s'
  began_lem s (ok _) s' w = (ap tables_of w.0, ap (shown tables_of) (w.1 refl))
  began_lem s (err _) s' w = ap tables_of w.0

  kept_lem :
      (s : S) (o : Result (Unit {0})) (s' : S)
      → (l.data_of s' ≡ l.data_of s) × (l.saved_of s' ≡ after_commit o (l.saved_of s))
      → Committed (views_of l tables_of) s o s'
  kept_lem s (ok _) s' w = (ap tables_of w.0, ap (shown tables_of) w.1)
  kept_lem s (err _) s' w = (ap tables_of w.0, ap (shown tables_of) w.1)

  transactions_lem : IsTransactional (views_of l tables_of) db.transactions
  transactions_lem = record {
    begin_lem = λ s. ensures_weaken (l.begin_lem s) (began_lem s);
    commit_lem = λ s. ensures_weaken (l.commit_lem s) (kept_lem s);
    rollback_lem = λ s t h. shown-some tables_of (l.saved_of s) t _ (l.rollback_lem s) h;
  }

  -- On a database manager that answers statements as SQLite does, the repositories of the repository
  -- manager behave as the tables that the modules rely on, and its transactions as theirs: reads return
  -- the rows, writes do what they say to their own table or throw and do nothing, and a rollback
  -- brings back the tables of the beginning.
  pub sql_repositories-IsDatabase : IsDatabase a (views_of l tables_of) (sql_repositories db)
  unfolding sql_repositories tables_of
  sql_repositories-IsDatabase = record {
    transactions = transactions_lem;
    users =
        sql_repository-IsTable l tables_of (user-IsMapped a) (λ t. t.users)
          (λ rows t. record t { users = rows }) (λ _. refl) (λ _ _. refl);
    roles =
        sql_repository-IsTable l tables_of (role-IsMapped a) (λ t. t.roles)
          (λ rows t. record t { roles = rows }) (λ _. refl) (λ _ _. refl);
    inventory =
        sql_repository-IsTable l tables_of (inventory-IsMapped a) (λ t. t.inventory)
          (λ rows t. record t { inventory = rows }) (λ _. refl) (λ _ _. refl);
    contacts =
        sql_repository-IsTable l tables_of (contact-IsMapped a) (λ t. t.contacts)
          (λ rows t. record t { contacts = rows }) (λ _. refl) (λ _ _. refl);
    employees =
        sql_repository-IsTable l tables_of (employee-IsMapped a) (λ t. t.employees)
          (λ rows t. record t { employees = rows }) (λ _. refl) (λ _ _. refl);
    logs =
        sql_repository-IsTable l tables_of (log-IsMapped a) (λ t. t.logs)
          (λ rows t. record t { logs = rows }) (λ _. refl) (λ _ _. refl);
    purchase_orders =
        sql_repository-IsTable l tables_of (purchase_order-IsMapped a) (λ t. t.purchase_orders)
          (λ rows t. record t { purchase_orders = rows }) (λ _. refl) (λ _ _. refl);
    purchase_order_records =
        sql_repository-IsTable l tables_of (purchase_order_record-IsMapped a)
          (λ t. t.purchase_order_records) (λ rows t. record t { purchase_order_records = rows })
          (λ _. refl) (λ _ _. refl);
    product_types =
        sql_repository-IsTable l tables_of (product_type-IsMapped a) (λ t. t.product_types)
          (λ rows t. record t { product_types = rows }) (λ _. refl) (λ _ _. refl);
    sale_orders =
        sql_repository-IsTable l tables_of (sale_order-IsMapped a) (λ t. t.sale_orders)
          (λ rows t. record t { sale_orders = rows }) (λ _. refl) (λ _ _. refl);
    sales_order_records =
        sql_repository-IsTable l tables_of (sales_order_record-IsMapped a)
          (λ t. t.sales_order_records) (λ rows t. record t { sales_order_records = rows })
          (λ _. refl) (λ _ _. refl);
    suppliers =
        sql_repository-IsTable l tables_of (supplier-IsMapped a) (λ t. t.suppliers)
          (λ rows t. record t { suppliers = rows }) (λ _. refl) (λ _ _. refl);
    suppliers_product_info =
        sql_repository-IsTable l tables_of (suppliers_product_info-IsMapped a)
          (λ t. t.suppliers_product_info) (λ rows t. record t { suppliers_product_info = rows })
          (λ _. refl) (λ _ _. refl);
  }
