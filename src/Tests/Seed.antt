-- ===== src/Tests/Seed.antt =====
-- The rows with which scripts/create_db.sql fills a new database, in memory.
use sage_store.Prelude.{none, String, [], ◌∷◌}
use sage_store.Entities.{Inventory, PurchaseOrder, PurchaseOrderRecord}
use sage_store.DataSpecs.{Dataset, RequestData}
use sage_store.Tables.{Tables}
use sage_store.Memory.{Memory}

abbrev pub ordered : PurchaseOrder
ordered = record {
  id = "1";
  date = "2024-02-19";
  user_id = "1";
  supplier_id = "1";
  status = "Ordered";
}

abbrev pub line : PurchaseOrderRecord
line = record { id = "1"; order_id = "1"; product_type_id = "1"; quantity = "1"; price = "10.99" }

abbrev pub stock : Inventory
stock = record { id = "1"; product_type_id = "1"; quantity_available = "0"; employee_id = "1" }

abbrev pub seed_tables : Tables
seed_tables = record {
  users = record { id = "1"; username = "admin"; password = "240be5"; role_id = "1" } ∷ [];
  roles = record { id = "1"; name = "user" } ∷ record { id = "2"; name = "admin" } ∷ [];
  inventory = stock ∷ [];
  contacts =
      record {
        id = "1";
        name = "Default Contact";
        type = "Customer";
        email = "contact@example.com";
        phone = "123-456-7890";
      }
      ∷ [];
  employees =
      record {
        id = "1";
        name = "John Doe";
        number = "123456789";
        email = "john@example.com";
        address = "123 Main St";
      }
      ∷ [];
  logs = [];
  purchase_orders = ordered ∷ [];
  purchase_order_records = line ∷ [];
  product_types =
      record {
        id = "1";
        code = "DEFAULT";
        barcode = "000000000000";
        name = "Default Product";
        description = "Default product description";
        last_price = "0.0";
        unit = "unit";
        is_imported = "0";
      }
      ∷ [];
  sale_orders =
      record {
        id = "1";
        date = "2024-02-19";
        user_id = "1";
        contact_id = "1";
        employee_id = "1";
        status = "Pending";
      }
      ∷ [];
  sales_order_records =
      record { id = "1"; order_id = "1"; product_type_id = "1"; quantity = "1"; price = "10.99" }
      ∷ [];
  suppliers =
      record {
        id = "1";
        name = "Default Supplier";
        number = "987654321";
        email = "supplier@example.com";
        address = "456 Elm St";
      }
      ∷ [];
  suppliers_product_info = [];
}

abbrev pub seed : Memory
seed = record { tables = seed_tables; saved = none }

abbrev pub received : PurchaseOrder
received = record ordered { status = "Received" }

-- The same store after the order has been received.
abbrev pub after_receipt : Memory
after_receipt = record seed {
  tables = record seed_tables {
    purchase_orders = received ∷ [];
    inventory = record stock { quantity_available = "1" } ∷ [];
  };
}

abbrev pub receipt : Dataset
receipt = ("id", "1" ∷ []) ∷ ("employeeId", "1" ∷ []) ∷ []

abbrev pub order_fields : Dataset
order_fields =
    ("date", "2024-03-01" ∷ [])
    ∷ ("userId", "1" ∷ [])
    ∷ ("supplierId", "1" ∷ [])
    ∷ ("status", " Pending " ∷ [])
    ∷ []

abbrev pub request : String → String → String → String → Dataset → RequestData
request module_name submodule method resource_id dataset = record {
  module_name = module_name;
  submodule = submodule;
  method = method;
  resource_id = resource_id;
  dataset = dataset;
}
