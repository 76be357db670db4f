-- ===== src/Client/Wire/Answers.antt =====
-- The modules answer the requests for lists.
use sage_store.Prelude.{String, Bool, ◌≡◌, refl, []}
use sage_store.Prelude.Assoc.{find}
use sage_store.Exec.{ok, Exec, ◌>>=◌}
use sage_store.DataSpecs.{RequestData, ResponseData, table_response}
use sage_store.Repositories.{RepositoryManager}
use sage_store.Tables.{Affinity}
use sage_store.Tables.Laws.{Views, IsDatabase}
use sage_store.BusinessLogic.{route}
use sage_store.BusinessLogic.Modules.{registered_modules}
use sage_store.Users
use sage_store.Inventory
use sage_store.Management
use sage_store.Purchase
use sage_store.Sales
use sage_store.Logs
use sage_store.Network.Transaction.{segment}
use sage_store.Client.Wire.Exchange.{get_task}

module _ {S : Type 0} (stod_returns : String → Bool) (analytics : RequestData → Exec S ResponseData)
    (repositories : RepositoryManager S) {a : Affinity} {v : Views S}
    (d : IsDatabase a v repositories) where
  pub handle_users_list_answered :
      (s : S)
      → route
          (registered_modules stod_returns analytics repositories)
          (get_task "users" "users" [])
          s
        ≡ (ok (table_response Users.user_keys Users.user_cells (v.view s).users), s)
  unfolding route registered_modules find Users.execute_task Users.users_task Users.get_users ◌>>=◌
  handle_users_list_answered s = rw (d.users.get_all_lem s) refl

  pub handle_roles_list_answered :
      (s : S)
      → route
          (registered_modules stod_returns analytics repositories)
          (get_task "users" "roles" [])
          s
        ≡ (ok (table_response Users.role_keys Users.role_cells (v.view s).roles), s)
  unfolding route registered_modules find Users.execute_task Users.roles_task Users.get_roles ◌>>=◌
  handle_roles_list_answered s = rw (d.roles.get_all_lem s) refl

  pub handle_logs_list_answered :
      (s : S)
      → route
          (registered_modules stod_returns analytics repositories)
          (get_task "logs" "entries" [])
          s
        ≡ (ok (table_response Logs.log_keys Logs.log_cells (v.view s).logs), s)
  unfolding route registered_modules find Logs.execute_task Logs.get_logs ◌>>=◌
  handle_logs_list_answered s = rw (d.logs.get_all_lem s) refl

  pub handle_product_types_list_answered :
      (s : S)
      → route
          (registered_modules stod_returns analytics repositories)
          (get_task "inventory" "product-types" [])
          s
        ≡ (
          ok (
              table_response Inventory.product_type_keys Inventory.product_type_cells
                (v.view s).product_types),
          s,
        )
  unfolding route registered_modules find Inventory.execute_task Inventory.product_types_task
      Inventory.get_product_types ◌>>=◌
  handle_product_types_list_answered s = rw (d.product_types.get_all_lem s) refl

  pub handle_stocks_list_answered :
      (s : S)
      → route
          (registered_modules stod_returns analytics repositories)
          (get_task "inventory" "stocks" [])
          s
        ≡ (ok (table_response Inventory.stock_keys Inventory.stock_cells (v.view s).inventory), s)
  unfolding route registered_modules find Inventory.execute_task Inventory.stocks_task
      Inventory.get_stocks ◌>>=◌
  handle_stocks_list_answered s = rw (d.inventory.get_all_lem s) refl

  pub handle_supplier_products_list_answered :
      (s : S)
      → route
          (registered_modules stod_returns analytics repositories)
          (get_task "inventory" "supplier-products" [])
          s
        ≡ (
          ok (
              table_response Inventory.supplier_product_keys Inventory.supplier_product_cells
                (v.view s).suppliers_product_info),
          s,
        )
  unfolding route registered_modules find Inventory.execute_task Inventory.supplier_products_task
      Inventory.get_supplier_products ◌>>=◌
  handle_supplier_products_list_answered s = rw (d.suppliers_product_info.get_all_lem s) refl

  pub handle_contacts_list_answered :
      (s : S)
      → route
          (registered_modules stod_returns analytics repositories)
          (get_task "management" "contacts" [])
          s
        ≡ (
          ok (table_response Management.contact_keys Management.contact_cells (v.view s).contacts),
          s,
        )
  unfolding route registered_modules find Management.execute_task Management.contacts_task
      Management.get_contacts ◌>>=◌
  handle_contacts_list_answered s = rw (d.contacts.get_all_lem s) refl

  pub handle_suppliers_list_answered :
      (s : S)
      → route
          (registered_modules stod_returns analytics repositories)
          (get_task "management" "suppliers" [])
          s
        ≡ (
          ok (
              table_response Management.supplier_keys Management.supplier_cells
                (v.view s).suppliers),
          s,
        )
  unfolding route registered_modules find Management.execute_task Management.suppliers_task
      Management.get_suppliers ◌>>=◌
  handle_suppliers_list_answered s = rw (d.suppliers.get_all_lem s) refl

  pub handle_employees_list_answered :
      (s : S)
      → route
          (registered_modules stod_returns analytics repositories)
          (get_task "management" "employees" [])
          s
        ≡ (
          ok (
              table_response Management.employee_keys Management.employee_cells
                (v.view s).employees),
          s,
        )
  unfolding route registered_modules find Management.execute_task Management.employees_task
      Management.get_employees ◌>>=◌
  handle_employees_list_answered s = rw (d.employees.get_all_lem s) refl

  pub handle_purchase_orders_list_answered :
      (s : S)
      → route
          (registered_modules stod_returns analytics repositories)
          (get_task "purchase" "orders" [])
          s
        ≡ (
          ok (table_response Purchase.order_keys Purchase.order_cells (v.view s).purchase_orders),
          s,
        )
  unfolding route registered_modules find Purchase.execute_task Purchase.orders_task
      Purchase.get_orders ◌>>=◌
  handle_purchase_orders_list_answered s = rw (d.purchase_orders.get_all_lem s) refl

  pub handle_purchase_order_records_list_answered :
      (s : S)
      → route
          (registered_modules stod_returns analytics repositories)
          (get_task "purchase" "order-records" [])
          s
        ≡ (
          ok (
              table_response Purchase.order_record_keys Purchase.order_record_cells
                (v.view s).purchase_order_records),
          s,
        )
  unfolding segment table_response route registered_modules find Purchase.execute_task
      Purchase.order_records_task Purchase.get_order_records ◌>>=◌
  handle_purchase_order_records_list_answered s = rw (d.purchase_order_records.get_all_lem s) refl

  pub handle_sales_orders_list_answered :
      (s : S)
      → route
          (registered_modules stod_returns analytics repositories)
          (get_task "sales" "orders" [])
          s
        ≡ (ok (table_response Sales.order_keys Sales.order_cells (v.view s).sale_orders), s)
  unfolding route registered_modules find Sales.execute_task Sales.orders_task Sales.get_orders
      ◌>>=◌
  handle_sales_orders_list_answered s = rw (d.sale_orders.get_all_lem s) refl

  pub handle_sales_order_records_list_answered :
      (s : S)
      → route
          (registered_modules stod_returns analytics repositories)
          (get_task "sales" "order-records" [])
          s
        ≡ (
          ok (
              table_response Sales.order_record_keys Sales.order_record_cells
                (v.view s).sales_order_records),
          s,
        )
  unfolding segment table_response route registered_modules find Sales.execute_task
      Sales.order_records_task Sales.get_order_records ◌>>=◌
  handle_sales_order_records_list_answered s = rw (d.sales_order_records.get_all_lem s) refl
