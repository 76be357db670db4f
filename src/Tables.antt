-- ===== src/Tables.antt =====
-- The tables of scripts/create_db.sql as a client of the repositories sees them: a list of rows for
-- each table, in the order of a SELECT. Rows have the types of the entities, since every column is
-- read as a text. `Columns` says of an entity how its columns are compared and stored.
pub mod Laws
pub mod Rows
pub mod Rules
pub mod Transactions
pub mod Settled
pub mod Unique
use sage_store.Prelude.{
  ℕ, ◌+◌, ◌≤◌, String, Bool, not, List, map, ◌≡◌, ◌==◌, ◌||◌, select, if◌then◌else◌,
}
use sage_store.Prelude.Decimal.{to_string}
use sage_store.ModuleUtils.{llong_max}
use sage_store.Entities.{
  User, Role, Log, Contact, Employee, Supplier, SuppliersProductInfo, ProductType, Inventory,
  SaleOrder, SalesOrderRecord, PurchaseOrder, PurchaseOrderRecord,
}

pub record Tables : Type 0 where
  pub users : List User
  pub roles : List Role
  pub inventory : List Inventory
  pub contacts : List Contact
  pub employees : List Employee
  pub logs : List Log
  pub purchase_orders : List PurchaseOrder
  pub purchase_order_records : List PurchaseOrderRecord
  pub product_types : List ProductType
  pub sale_orders : List SaleOrder
  pub sales_order_records : List SalesOrderRecord
  pub suppliers : List Supplier
  pub suppliers_product_info : List SuppliersProductInfo

-- What SQLite makes of a text that is stored in, or compared with, a column that is not a text: its
-- type affinity. All that is relied on is that an integer keeps the text of `std::to_string`, and
-- that a text which comes out of an INTEGER column goes back into it unchanged.
pub record Affinity : Type 0 where
  pub integer : String → String
  pub numeric : String → String
  pub real : String → String
  pub integer-to_string : (n : ℕ) → n ≤ llong_max → integer (to_string n) ≡ to_string n
  pub integer_idem : (v : String) → integer (integer v) ≡ integer v

-- How a table compares and stores the columns of an entity.
pub record Columns (E : Type 0) : Type 0 where
  pub id : E → String
  pub with_id : String → E → E
  -- the row that an UPDATE or an INSERT makes of the entity, but for its id
  pub stored : E → E
  -- the columns that the modules ask for, and whether a row has a value there
  pub has : String → Bool
  pub matches : String → String → E → Bool

module _ {E : Type 0} (c : Columns E) where
  -- `INSERT`, with the id that the table gives
  abbrev pub insert_row : String → E → E
  insert_row id e = c.with_id id (c.stored e)

  -- `UPDATE … WHERE id = ?`
  unfoldable pub update_rows : E → List E → List E
  update_rows e =
      map (λ r. if c.matches "id" (c.id e) r then c.with_id (c.id r) (c.stored e) else r)

  -- `DELETE … WHERE id = ?`
  unfoldable pub delete_rows : String → List E → List E
  delete_rows id = select (λ r. not (c.matches "id" id r))

module _ (a : Affinity) where
  abbrev pub user_columns : Columns User
  user_columns = record {
    id = λ e. e.id;
    with_id = λ i e. record e { id = i };
    -- without a role the column's default is stored
    stored = λ e. record e { role_id = if e.role_id == "" then "1" else a.integer e.role_id };
    has = λ f. f == "id" || f == "username";
    matches = λ f v e. if f == "id" then a.integer v == e.id else v == e.username;
  }

  abbrev pub role_columns : Columns Role
  role_columns = record {
    id = λ e. e.id;
    with_id = λ i e. record e { id = i };
    stored = λ e. e;
    has = λ f. f == "id" || f == "name";
    matches = λ f v e. if f == "id" then a.integer v == e.id else v == e.name;
  }

  abbrev pub log_columns : Columns Log
  log_columns = record {
    id = λ e. e.id;
    with_id = λ i e. record e { id = i };
    stored = λ e. record e {
      user_id = if e.user_id == "" then "" else a.integer e.user_id;
      timestamp = a.numeric e.timestamp;
    };
    has = λ f. f == "id";
    matches = λ f v e. a.integer v == e.id;
  }

  abbrev pub contact_columns : Columns Contact
  contact_columns = record {
    id = λ e. e.id;
    with_id = λ i e. record e { id = i };
    stored = λ e. e;
    has = λ f. f == "id";
    matches = λ f v e. a.integer v == e.id;
  }

  abbrev pub employee_columns : Columns Employee
  employee_columns = record {
    id = λ e. e.id;
    with_id = λ i e. record e { id = i };
    stored = λ e. e;
    has = λ f. f == "id";
    matches = λ f v e. a.integer v == e.id;
  }

  abbrev pub supplier_columns : Columns Supplier
  supplier_columns = record {
    id = λ e. e.id;
    with_id = λ i e. record e { id = i };
    stored = λ e. e;
    has = λ f. f == "id";
    matches = λ f v e. a.integer v == e.id;
  }

  abbrev pub suppliers_product_info_columns : Columns SuppliersProductInfo
  suppliers_product_info_columns = record {
    id = λ e. e.id;
    with_id = λ i e. record e { id = i };
    stored = λ e. record e {
      supplier_id = a.integer e.supplier_id;
      product_type_id = a.integer e.product_type_id;
    };
    has = λ f. f == "id";
    matches = λ f v e. a.integer v == e.id;
  }

  abbrev pub product_type_columns : Columns ProductType
  product_type_columns = record {
    id = λ e. e.id;
    with_id = λ i e. record e { id = i };
    stored =
        λ e. record e { last_price = a.real e.last_price; is_imported = a.numeric e.is_imported };
    has = λ f. f == "id" || f == "code";
    matches = λ f v e. if f == "id" then a.integer v == e.id else v == e.code;
  }

  abbrev pub inventory_columns : Columns Inventory
  inventory_columns = record {
    id = λ e. e.id;
    with_id = λ i e. record e { id = i };
    stored = λ e. record e {
      product_type_id = a.integer e.product_type_id;
      quantity_available = a.integer e.quantity_available;
      employee_id = a.integer e.employee_id;
    };
    has = λ f. f == "id" || f == "productTypeId";
    matches = λ f v e. if f == "id" then a.integer v == e.id else a.integer v == e.product_type_id;
  }

  abbrev pub sale_order_columns : Columns SaleOrder
  sale_order_columns = record {
    id = λ e. e.id;
    with_id = λ i e. record e { id = i };
    stored = λ e. record e {
      date = a.numeric e.date;
      user_id = a.integer e.user_id;
      contact_id = a.integer e.contact_id;
      employee_id = a.integer e.employee_id;
    };
    has = λ f. f == "id";
    matches = λ f v e. a.integer v == e.id;
  }

  abbrev pub sales_order_record_columns : Columns SalesOrderRecord
  sales_order_record_columns = record {
    id = λ e. e.id;
    with_id = λ i e. record e { id = i };
    stored = λ e. record e {
      order_id = a.integer e.order_id;
      product_type_id = a.integer e.product_type_id;
      quantity = a.integer e.quantity;
      price = a.real e.price;
    };
    has = λ f. f == "id" || f == "orderId";
    matches = λ f v e. if f == "id" then a.integer v == e.id else a.integer v == e.order_id;
  }

  abbrev pub purchase_order_columns : Columns PurchaseOrder
  purchase_order_columns = record {
    id = λ e. e.id;
    with_id = λ i e. record e { id = i };
    stored = λ e. record e {
      date = a.numeric e.date;
      user_id = a.integer e.user_id;
      supplier_id = a.integer e.supplier_id;
    };
    has = λ f. f == "id";
    matches = λ f v e. a.integer v == e.id;
  }

  abbrev pub purchase_order_record_columns : Columns PurchaseOrderRecord
  purchase_order_record_columns = record {
    id = λ e. e.id;
    with_id = λ i e. record e { id = i };
    stored = λ e. record e {
      order_id = a.integer e.order_id;
      product_type_id = a.integer e.product_type_id;
      quantity = a.integer e.quantity;
      price = a.real e.price;
    };
    has = λ f. f == "id" || f == "orderId";
    matches = λ f v e. if f == "id" then a.integer v == e.id else a.integer v == e.order_id;
  }
