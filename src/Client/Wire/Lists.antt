-- ===== src/Client/Wire/Lists.antt =====
-- The tables of the server as the user interface gets to see them.
use sage_store.Client.Wire.Paths.{IsEncoding}
use sage_store.Prelude.{String, Bool, ◌≡◌, List, Option, some, map}
use sage_store.Exec.{ok, Exec}
use sage_store.DataSpecs.{RequestData, ResponseData}
use sage_store.Entities.{Log}
use sage_store.Repositories.{IRepository, RepositoryManager}
use sage_store.Tables.{Affinity}
use sage_store.Tables.Laws.{Views, IsDatabase}
use sage_store.BusinessLogic.Modules.{registered_modules}
use sage_store.Network.{IDataSerializer, IsSerializer}
use sage_store.Network.Transaction.Endpoints.{IsSplit}
use sage_store.Client.{ClientRequest, request}
use sage_store.Client.Wire.{exchange}
use sage_store.Client.Wire.Exchange.{server}
use sage_store.Client.Signals.{
  Signal, roles_list, users_list, product_types_list, stocks_list, supplier_products_list,
  contacts_list, suppliers_list, employees_list, purchase_orders_list, purchase_order_records_list,
  sales_orders_list, sales_order_records_list, logs_list,
}
use sage_store.Client.Requests.Accounts.{get_users, get_role_list, get_logs}
use sage_store.Client.Requests.Inventory.{get_product_types, get_stocks, get_supplier_products}
use sage_store.Client.Requests.Management.{get_contacts, get_suppliers, get_employees}
use sage_store.Client.Requests.Purchase.{get_purchase_orders, get_purchase_order_records}
use sage_store.Client.Requests.Sales.{get_sales_orders, get_sales_order_records}
use sage_store.Client.Responses.Accounts.{without_password}

module _ {S : Type 0} (split : String → List String) (l : IsSplit split)
    (serializer : IDataSerializer) (c : IsSerializer serializer) (encoded_path : String → String)
    (p : IsEncoding encoded_path) (stod_returns : String → Bool)
    (analytics : RequestData → Exec S ResponseData) (repositories : RepositoryManager S)
    {a : Affinity} {v : Views S} (d : IsDatabase a v repositories)
    (logs : Option (IRepository S Log)) (now : String) where
  -- What comes of a request that the client makes.
  abbrev pub outcome : ClientRequest → Exec S (Option Signal)
  outcome = exchange encoded_path serializer (
      server split l serializer c encoded_path
        (registered_modules stod_returns analytics repositories) logs now)

  -- The client gets this signal, and the database stays as it is.
  abbrev pub Shows : S → ClientRequest → Signal → Type 0
  Shows s request signal = outcome request s ≡ (ok (some signal), s)

  -- Whoever asks for a list sees the rows of its table, in their order.
  abbrev pub ListsShown : S → Type 0
  ListsShown s =
      Shows s get_users (users_list (map (λ e. without_password e) (v.view s).users))
      × Shows s get_role_list (roles_list (v.view s).roles)
      × Shows s get_logs (logs_list (v.view s).logs)
      × Shows s get_product_types (product_types_list (v.view s).product_types)
      × Shows s get_stocks (stocks_list (v.view s).inventory)
      × Shows s get_supplier_products (supplier_products_list (v.view s).suppliers_product_info)
      × Shows s get_contacts (contacts_list (v.view s).contacts)
      × Shows s get_suppliers (suppliers_list (v.view s).suppliers)
      × Shows s get_employees (employees_list (v.view s).employees)
      × Shows s get_purchase_orders (purchase_orders_list (v.view s).purchase_orders)
      × Shows s (get_purchase_order_records "")
          (purchase_order_records_list (v.view s).purchase_order_records)
      × Shows s get_sales_orders (sales_orders_list (v.view s).sale_orders)
      × Shows s (get_sales_order_records "")
          (sales_order_records_list (v.view s).sales_order_records)
