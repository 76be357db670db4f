-- ===== src/Sql/Mapped/Orders.antt =====
-- Database/: what the statements of the repositories of orders and their line items say.
use sage_store.Prelude.{false, any, true, ◌≡◌, refl, [], ◌∷◌, some}
use sage_store.Tables.{
  Affinity, sale_order_columns, sales_order_record_columns, purchase_order_columns,
  purchase_order_record_columns,
}
use sage_store.Sql.{get_string}
use sage_store.Sql.Grammar.{param, parse, tokens, select_by}
use sage_store.Sql.Schema.{all_columns, assign_columns, assign_params, written, has_references}
use sage_store.Sql.Laws.{row_matches, column_matches, inserted}
use sage_store.Sql.Correct.{IsMapped}
use sage_store.Sql.Laws.{is_table, is_declared, is_bound, is_complete, takes_null}
use sage_store.Sql.Mapped.{by_name, by_names}
use sage_store.Sql.Orders.{
  sale_order_queries, sales_order_record_queries, purchase_order_queries,
  purchase_order_record_queries,
}

pub sale_order-IsMapped :
    (a : Affinity) → IsMapped a "SaleOrder" (sale_order_columns a) sale_order_queries
unfolding parse tokens all_columns assign_columns assign_params inserted written row_matches
    column_matches get_string sale_order_queries has_references is_table is_declared is_bound any
    takes_null is_complete
sale_order-IsMapped a = record {
  insert_columns = λ _. "date" ∷ "userId" ∷ "contactId" ∷ "employeeId" ∷ "status" ∷ [];
  insert_values = λ _. param ∷ param ∷ param ∷ param ∷ param ∷ [];
  parse_add = λ _. refl;
  assignments =
      ("date", param)
      ∷ ("userId", param)
      ∷ ("contactId", param)
      ∷ ("employeeId", param)
      ∷ ("status", param)
      ∷ [];
  parse_update = refl;
  set_params = λ e. e.date ∷ e.user_id ∷ e.contact_id ∷ e.employee_id ∷ e.status ∷ [];
  update_params_lem = λ _. refl;
  parse_delete = refl;
  parse_all = refl;
  parse_by_field = λ field h.
      by_name
        (λ f.
          parse (sale_order_queries.by_field_query f)
          ≡ some (select_by (all_columns "SaleOrder") "SaleOrder" f))
        "id" field h refl;
  from_inserted = λ _ _. refl;
  from_updated = λ _ _ _ _. refl;
  matches_lem = λ field v r h.
      by_name
        (λ f.
          (sale_order_columns a).matches f v (sale_order_queries.from_row r)
          ≡ row_matches a "SaleOrder" f v r)
        "id" field h refl;
  has_id = refl;
  declared = refl;
  has_declared =
      λ field h. by_name (λ f. is_declared f (all_columns "SaleOrder") ≡ true) "id" field h refl;
  has_filled = λ field h. by_name (λ f. takes_null "SaleOrder" f ≡ false) "id" field h refl;
  add_bound = λ _. refl;
  add_complete = λ _. refl;
  update_bound = λ _. refl;
}

pub sales_order_record-IsMapped :
    (a : Affinity)
    → IsMapped a "SalesOrderRecord" (sales_order_record_columns a) sales_order_record_queries
unfolding parse tokens all_columns assign_columns assign_params inserted written row_matches
    column_matches get_string sales_order_record_queries has_references is_table is_declared
    is_bound any takes_null is_complete
sales_order_record-IsMapped a = record {
  insert_columns = λ _. "orderId" ∷ "productTypeId" ∷ "quantity" ∷ "price" ∷ [];
  insert_values = λ _. param ∷ param ∷ param ∷ param ∷ [];
  parse_add = λ _. refl;
  assignments =
      ("orderId", param) ∷ ("productTypeId", param) ∷ ("quantity", param) ∷ ("price", param) ∷ [];
  parse_update = refl;
  set_params = λ e. e.order_id ∷ e.product_type_id ∷ e.quantity ∷ e.price ∷ [];
  update_params_lem = λ _. refl;
  parse_delete = refl;
  parse_all = refl;
  parse_by_field = λ field h.
      by_names
        (λ f.
          parse (sales_order_record_queries.by_field_query f)
          ≡ some (select_by (all_columns "SalesOrderRecord") "SalesOrderRecord" f))
        "id" "orderId" field h refl refl;
  from_inserted = λ _ _. refl;
  from_updated = λ _ _ _ _. refl;
  matches_lem = λ field v r h.
      by_names
        (λ f.
          (sales_order_record_columns a).matches f v (sales_order_record_queries.from_row r)
          ≡ row_matches a "SalesOrderRecord" f v r)
        "id" "orderId" field h refl refl;
  has_id = refl;
  declared = refl;
  has_declared = λ field h.
      by_names (λ f. is_declared f (all_columns "SalesOrderRecord") ≡ true) "id" "orderId" field h
        refl refl;
  has_filled = λ field h.
      by_names (λ f. takes_null "SalesOrderRecord" f ≡ false) "id" "orderId" field h refl refl;
  add_bound = λ _. refl;
  add_complete = λ _. refl;
  update_bound = λ _. refl;
}

pub purchase_order-IsMapped :
    (a : Affinity) → IsMapped a "PurchaseOrder" (purchase_order_columns a) purchase_order_queries
unfolding parse tokens all_columns assign_columns assign_params inserted written row_matches
    column_matches get_string purchase_order_queries has_references is_table is_declared is_bound
    any takes_null is_complete
purchase_order-IsMapped a = record {
  insert_columns = λ _. "date" ∷ "userId" ∷ "supplierId" ∷ "status" ∷ [];
  insert_values = λ _. param ∷ param ∷ param ∷ param ∷ [];
  parse_add = λ _. refl;
  assignments =
      ("date", param) ∷ ("userId", param) ∷ ("supplierId", param) ∷ ("status", param) ∷ [];
  parse_update = refl;
  set_params = λ e. e.date ∷ e.user_id ∷ e.supplier_id ∷ e.status ∷ [];
  update_params_lem = λ _. refl;
  parse_delete = refl;
  parse_all = refl;
  parse_by_field = λ field h.
      by_name
        (λ f.
          parse (purchase_order_queries.by_field_query f)
          ≡ some (select_by (all_columns "PurchaseOrder") "PurchaseOrder" f))
        "id" field h refl;
  from_inserted = λ _ _. refl;
  from_updated = λ _ _ _ _. refl;
  matches_lem = λ field v r h.
      by_name
        (λ f.
          (purchase_order_columns a).matches f v (purchase_order_queries.from_row r)
          ≡ row_matches a "PurchaseOrder" f v r)
        "id" field h refl;
  has_id = refl;
  declared = refl;
  has_declared = λ field h.
      by_name (λ f. is_declared f (all_columns "PurchaseOrder") ≡ true) "id" field h refl;
  has_filled = λ field h. by_name (λ f. takes_null "PurchaseOrder" f ≡ false) "id" field h refl;
  add_bound = λ _. refl;
  add_complete = λ _. refl;
  update_bound = λ _. refl;
}

pub purchase_order_record-IsMapped :
    (a : Affinity)
    → IsMapped a "PurchaseOrderRecord"
        (purchase_order_record_columns a)
        purchase_order_record_queries
unfolding parse tokens all_columns assign_columns assign_params inserted written row_matches
    column_matches get_string purchase_order_record_queries has_references is_table is_declared
    is_bound any takes_null is_complete
purchase_order_record-IsMapped a = record {
  insert_columns = λ _. "orderId" ∷ "productTypeId" ∷ "quantity" ∷ "price" ∷ [];
  insert_values = λ _. param ∷ param ∷ param ∷ param ∷ [];
  parse_add = λ _. refl;
  assignments =
      ("orderId", param) ∷ ("productTypeId", param) ∷ ("quantity", param) ∷ ("price", param) ∷ [];
  parse_update = refl;
  set_params = λ e. e.order_id ∷ e.product_type_id ∷ e.quantity ∷ e.price ∷ [];
  update_params_lem = λ _. refl;
  parse_delete = refl;
  parse_all = refl;
  parse_by_field = λ field h.
      by_names
        (λ f.
          parse (purchase_order_record_queries.by_field_query f)
          ≡ some (select_by (all_columns "PurchaseOrderRecord") "PurchaseOrderRecord" f))
        "id" "orderId" field h refl refl;
  from_inserted = λ _ _. refl;
  from_updated = λ _ _ _ _. refl;
  matches_lem = λ field v r h.
      by_names
        (λ f.
          (purchase_order_record_columns a).matches f v (purchase_order_record_queries.from_row r)
          ≡ row_matches a "PurchaseOrderRecord" f v r)
        "id" "orderId" field h refl refl;
  has_id = refl;
  declared = refl;
  has_declared = λ field h.
      by_names (λ f. is_declared f (all_columns "PurchaseOrderRecord") ≡ true) "id" "orderId" field
        h refl refl;
  has_filled = λ field h.
      by_names (λ f. takes_null "PurchaseOrderRecord" f ≡ false) "id" "orderId" field h refl refl;
  add_bound = λ _. refl;
  add_complete = λ _. refl;
  update_bound = λ _. refl;
}
