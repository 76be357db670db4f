-- ===== src/Memory.antt =====
-- A database that meets Tables/Laws: the tables themselves, in memory. It models no code; it shows
-- that what is assumed of SQLite can hold, and the examples run on it.
pub mod Correct
pub mod Sqlite
pub mod Wire
pub mod Json
use Prim.Native.Nat.{max}
use sage_store.Prelude.{
  none, Option, some, ℕ, ◌+◌, ◌≤◌, String, ◌≡◌, refl, true, false, Bool-cases, inl, inr, List, [],
  ◌∷◌, ◌++◌, select, if◌then◌else◌, is_blank, arith,
}
use sage_store.Prelude.Decimal.{
  decimal, to_string, all_digits, decimal-to_string, all_digits-to_string,
}
use sage_store.ModuleUtils.{llong_max}
use sage_store.Exec.{standard, err, ok}
use sage_store.Repositories.{IRepository, RepositoryManager}
use sage_store.Tables.{
  Tables, Affinity, Columns, insert_row, update_rows, delete_rows, user_columns, role_columns,
  inventory_columns, contact_columns, employee_columns, log_columns, purchase_order_columns,
  purchase_order_record_columns, product_type_columns, sale_order_columns,
  sales_order_record_columns, supplier_columns, suppliers_product_info_columns,
}

pub record Memory : Type 0 where
  pub tables : Tables
  pub saved : Option Tables

-- A text of digits is stored as a number: leading zeros are lost.
unfoldable pub integer_text : String → String
unfolding all_digits decimal to_string
integer_text v = if all_digits v then to_string (decimal v) else v

pub integer_text-to_string : (n : ℕ) → integer_text (to_string n) ≡ to_string n
unfolding integer_text
integer_text-to_string n = rw all_digits-to_string (rw decimal-to_string refl)

pub integer_text_idem : (v : String) → integer_text (integer_text v) ≡ integer_text v
unfolding integer_text
integer_text_idem v = elim (Bool-cases (all_digits v)) [
  | inl number ↦ rw number (unfold integer_text in integer_text-to_string (decimal v))
  | inr other ↦ rw other (rw other refl)
]

abbrev pub affinity : Affinity
affinity = record {
  integer = integer_text;
  numeric = λ v. v;
  real = λ v. v;
  integer-to_string = λ n _. integer_text-to_string n;
  integer_idem = integer_text_idem;
}

module _ {E : Type 0} (c : Columns E) where
  unfoldable pub top_id : List E → ℕ
  top_id [] = 0
  top_id (e ∷ rest) = max (decimal (c.id e)) (top_id rest)

  -- the number after the largest id
  unfoldable pub next_id : List E → String
  unfolding top_id
  next_id rows = to_string (top_id rows + 1)

  unfoldable pub memory_repository :
      (Tables → List E) → (List E → Tables → Tables) → IRepository Memory E
  unfolding next_id select update_rows delete_rows integer_text
  memory_repository get put = record {
    add = λ e m.
        let rows = get m.tables in
        (ok tt, record m { tables = put (rows ++ insert_row c (next_id rows) e ∷ []) m.tables });
    update = λ e m. (ok tt, record m { tables = put (update_rows c e (get m.tables)) m.tables });
    delete_resource =
        λ id m. (ok tt, record m { tables = put (delete_rows c id (get m.tables)) m.tables });
    get_by_field = λ f v m. (ok (select (c.matches f v) (get m.tables)), m);
    get_all = λ m. (ok (get m.tables), m);
  }

abbrev pub memory_repositories : RepositoryManager Memory
memory_repositories = record {
  db_manager = record {
    begin_transaction = λ m. (ok tt, record m { saved = some m.tables });
    commit_transaction = λ m. (ok tt, record m { saved = none });
    rollback_transaction = λ m. elim m.saved [
      | none ↦ (err (standard "cannot rollback - no transaction is active"), m)
      | some tables ↦ (ok tt, record { tables = tables; saved = none })
    ];
  };
  users =
      memory_repository (user_columns affinity) (λ t. t.users)
        (λ rows t. record t { users = rows });
  roles =
      memory_repository (role_columns affinity) (λ t. t.roles)
        (λ rows t. record t { roles = rows });
  inventory =
      memory_repository (inventory_columns affinity) (λ t. t.inventory)
        (λ rows t. record t { inventory = rows });
  contacts =
      memory_repository (contact_columns affinity) (λ t. t.contacts)
        (λ rows t. record t { contacts = rows });
  employees =
      memory_repository (employee_columns affinity) (λ t. t.employees)
        (λ rows t. record t { employees = rows });
  logs =
      memory_repository (log_columns affinity) (λ t. t.logs) (λ rows t. record t { logs = rows });
  purchase_orders =
      memory_repository (purchase_order_columns affinity) (λ t. t.purchase_orders)
        (λ rows t. record t { purchase_orders = rows });
  purchase_order_records =
      memory_repository (purchase_order_record_columns affinity) (λ t. t.purchase_order_records)
        (λ rows t. record t { purchase_order_records = rows });
  product_types =
      memory_repository (product_type_columns affinity) (λ t. t.product_types)
        (λ rows t. record t { product_types = rows });
  sale_orders =
      memory_repository (sale_order_columns affinity) (λ t. t.sale_orders)
        (λ rows t. record t { sale_orders = rows });
  sales_order_records =
      memory_repository (sales_order_record_columns affinity) (λ t. t.sales_order_records)
        (λ rows t. record t { sales_order_records = rows });
  suppliers =
      memory_repository (supplier_columns affinity) (λ t. t.suppliers)
        (λ rows t. record t { suppliers = rows });
  suppliers_product_info =
      memory_repository (suppliers_product_info_columns affinity) (λ t. t.suppliers_product_info)
        (λ rows t. record t { suppliers_product_info = rows });
}
