-- ===== src/Sql/Manager.antt =====
-- RepositoryManager.cpp: a repository for each table, all on one database manager.
pub mod Refined
use sage_store.Repositories.{RepositoryManager}
use sage_store.Sql.{IDatabaseManager, sql_repository}
use sage_store.Sql.People.{
  user_queries, role_queries, log_queries, contact_queries, employee_queries, supplier_queries,
}
use sage_store.Sql.Products.{
  suppliers_product_info_queries, product_type_queries, inventory_queries,
}
use sage_store.Sql.Orders.{
  sale_order_queries, sales_order_record_queries, purchase_order_queries,
  purchase_order_record_queries,
}

unfoldable pub sql_repositories : {S : Type 0} → IDatabaseManager S → RepositoryManager S
sql_repositories db = record {
  db_manager = db.transactions;
  users = sql_repository user_queries db;
  roles = sql_repository role_queries db;
  inventory = sql_repository inventory_queries db;
  contacts = sql_repository contact_queries db;
  employees = sql_repository employee_queries db;
  logs = sql_repository log_queries db;
  purchase_orders = sql_repository purchase_order_queries db;
  purchase_order_records = sql_repository purchase_order_record_queries db;
  product_types = sql_repository product_type_queries db;
  sale_orders = sql_repository sale_order_queries db;
  sales_order_records = sql_repository sales_order_record_queries db;
  suppliers = sql_repository supplier_queries db;
  suppliers_product_info = sql_repository suppliers_product_info_queries db;
}
