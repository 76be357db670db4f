-- ===== src/Memory/Correct.antt =====
-- The database in memory meets the laws.
use sage_store.Prelude.{
  ℕ, ◌+◌, ◌<◌, String, ◌≡◌, refl, List, [], ◌∷◌, select, ◌==◌, eq_refl, eq_iff, arith, ap,
}
use sage_store.Prelude.Decimal.{decimal, to_string, decimal-to_string}
use sage_store.Tables.{
  Tables, Columns, user_columns, role_columns, inventory_columns, contact_columns, employee_columns,
  log_columns, purchase_order_columns, purchase_order_record_columns, product_type_columns,
  sale_order_columns, sales_order_record_columns, supplier_columns, suppliers_product_info_columns,
}
use sage_store.Tables.Laws.{Views, IsFresh, IsTable, IsTransactional, IsDatabase}
use sage_store.Memory.{
  Memory, integer_text-to_string, affinity, top_id, next_id, memory_repository, memory_repositories,
}

abbrev pub views : Views Memory
views = record { view = λ m. m.tables; saved = λ m. m.saved }

module _ {E : Type 0} (c : Columns E)
    (by_id : (id : String) (e : E) → c.matches "id" id e ≡ (affinity.integer id == c.id e))
    (id_of : (id : String) (e : E) → c.id (c.with_id id e) ≡ id) where
  unused_above :
      (n : ℕ) (rows : List E) → top_id c rows < n → select (c.matches "id" (to_string n)) rows ≡ []
  unfolding select top_id
  unused_above n [] h = refl
  unused_above n (e ∷ rest) h =
      rw (by_id, integer_text-to_string)
        (ground (
          arith,
          eq_iff (to_string n) (c.id e),
          ap decimal,
          decimal-to_string n,
          unused_above n rest,
        ))

  pub next_id-IsFresh : (e : E) (rows : List E) → IsFresh c (next_id c rows) e rows
  unfolding next_id
  next_id-IsFresh e rows = record {
    unused = unused_above (top_id c rows + 1) rows (omega arith);
    found = rw (by_id, id_of, integer_text-to_string) (eq_refl _);
  }

  pub memory_repository-IsTable :
      (get : Tables → List E) (put : List E → Tables → Tables)
      → IsTable views get put c (memory_repository c get put)
  unfolding memory_repository
  memory_repository-IsTable get put = record {
    get_all_lem = λ s. refl;
    get_by_field_lem = λ f v s h. refl;
    new_id = λ e s. next_id c (get s.tables);
    new_id_fresh = λ e s. next_id-IsFresh e (get s.tables);
    add_lem = λ e s. record { holds = (refl, refl) };
    update_lem = λ e s. record { holds = (refl, refl) };
    delete_resource_lem = λ id s. record { holds = (refl, refl) };
  }

memory-IsTransactional : IsTransactional views memory_repositories.db_manager
memory-IsTransactional = record {
  begin_lem = λ s. record { holds = (refl, refl) };
  commit_lem = λ s. record { holds = (refl, refl) };
  rollback_lem = λ s t h. rw h refl;
}

pub memory-IsDatabase : IsDatabase affinity views memory_repositories
memory-IsDatabase = record {
  transactions = memory-IsTransactional;
  users =
      memory_repository-IsTable (user_columns affinity) (λ _ _. refl) (λ _ _. refl) (λ t. t.users)
        (λ rows t. record t { users = rows });
  roles =
      memory_repository-IsTable (role_columns affinity) (λ _ _. refl) (λ _ _. refl) (λ t. t.roles)
        (λ rows t. record t { roles = rows });
  inventory =
      memory_repository-IsTable (inventory_columns affinity) (λ _ _. refl) (λ _ _. refl)
        (λ t. t.inventory) (λ rows t. record t { inventory = rows });
  contacts =
      memory_repository-IsTable (contact_columns affinity) (λ _ _. refl) (λ _ _. refl)
        (λ t. t.contacts) (λ rows t. record t { contacts = rows });
  employees =
      memory_repository-IsTable (employee_columns affinity) (λ _ _. refl) (λ _ _. refl)
        (λ t. t.employees) (λ rows t. record t { employees = rows });
  logs =
      memory_repository-IsTable (log_columns affinity) (λ _ _. refl) (λ _ _. refl) (λ t. t.logs)
        (λ rows t. record t { logs = rows });
  purchase_orders =
      memory_repository-IsTable (purchase_order_columns affinity) (λ _ _. refl) (λ _ _. refl)
        (λ t. t.purchase_orders) (λ rows t. record t { purchase_orders = rows });
  purchase_order_records =
      memory_repository-IsTable (purchase_order_record_columns affinity) (λ _ _. refl) (λ _ _. refl)
        (λ t. t.purchase_order_records) (λ rows t. record t { purchase_order_records = rows });
  product_types =
      memory_repository-IsTable (product_type_columns affinity) (λ _ _. refl) (λ _ _. refl)
        (λ t. t.product_types) (λ rows t. record t { product_types = rows });
  sale_orders =
      memory_repository-IsTable (sale_order_columns affinity) (λ _ _. refl) (λ _ _. refl)
        (λ t. t.sale_orders) (λ rows t. record t { sale_orders = rows });
  sales_order_records =
      memory_repository-IsTable (sales_order_record_columns affinity) (λ _ _. refl) (λ _ _. refl)
        (λ t. t.sales_order_records) (λ rows t. record t { sales_order_records = rows });
  suppliers =
      memory_repository-IsTable (supplier_columns affinity) (λ _ _. refl) (λ _ _. refl)
        (λ t. t.suppliers) (λ rows t. record t { suppliers = rows });
  suppliers_product_info =
      memory_repository-IsTable (suppliers_product_info_columns affinity) (λ _ _. refl)
        (λ _ _. refl) (λ t. t.suppliers_product_info)
        (λ rows t. record t { suppliers_product_info = rows });
}
