-- ===== src/Client/Endpoints.antt =====
-- _common/include/common/Endpoints.hpp
use sage_store.Prelude.{String}

abbrev pub users_login : String
users_login = "/api/users/login"

abbrev pub users : String
users = "/api/users/users"

abbrev pub users_roles : String
users_roles = "/api/users/roles"

abbrev pub system_health : String
system_health = "/api/system/health"

abbrev pub inventory_product_types : String
inventory_product_types = "/api/inventory/product-types"

abbrev pub inventory_stocks : String
inventory_stocks = "/api/inventory/stocks"

abbrev pub inventory_supplier_products : String
inventory_supplier_products = "/api/inventory/supplier-products"

abbrev pub management_contacts : String
management_contacts = "/api/management/contacts"

abbrev pub management_suppliers : String
management_suppliers = "/api/management/suppliers"

abbrev pub management_employees : String
management_employees = "/api/management/employees"

abbrev pub purchase_orders : String
purchase_orders = "/api/purchase/orders"

abbrev pub purchase_order_records : String
purchase_order_records = "/api/purchase/order-records"

abbrev pub purchase_receipts : String
purchase_receipts = "/api/purchase/receipts"

abbrev pub sales_orders : String
sales_orders = "/api/sales/orders"

abbrev pub sales_order_records : String
sales_order_records = "/api/sales/order-records"

abbrev pub analytics_sales : String
analytics_sales = "/api/analytics/sales"

abbrev pub analytics_inventory : String
analytics_inventory = "/api/analytics/inventory"

abbrev pub logs_entries : String
logs_entries = "/api/logs/entries"
