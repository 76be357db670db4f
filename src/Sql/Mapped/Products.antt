-- ===== src/Sql/Mapped/Products.antt =====
-- Database/: what the statements of the repositories of products, of the suppliers' codes for them and of stock say.
use sage_store.Prelude.{false, any, true, ◌≡◌, refl, [], ◌∷◌, some}
use sage_store.Tables.{
  Affinity, suppliers_product_info_columns, product_type_columns, inventory_columns,
}
use sage_store.Sql.{get_string}
use sage_store.Sql.Grammar.{param, parse, tokens, select_by}
use sage_store.Sql.Schema.{all_columns, assign_columns, assign_params, written, has_references}
use sage_store.Sql.Laws.{row_matches, column_matches, inserted}
use sage_store.Sql.Correct.{IsMapped}
use sage_store.Sql.Laws.{is_table, is_declared, is_bound, is_complete, takes_null}
use sage_store.Sql.Mapped.{by_name, by_names}
use sage_store.Sql.Products.{
  suppliers_product_info_queries, product_type_queries, inventory_queries,
}

pub suppliers_product_info-IsMapped :
    (a : Affinity)
    → IsMapped a "SuppliersProductInfo"
        (suppliers_product_info_columns a)
        suppliers_product_info_queries
unfolding parse tokens all_columns assign_columns assign_params inserted written row_matches
    column_matches get_string suppliers_product_info_queries has_references is_table is_declared
    is_bound any takes_null is_complete
suppliers_product_info-IsMapped a = record {
  insert_columns = λ _. "supplierID" ∷ "productTypeId" ∷ "code" ∷ [];
  insert_values = λ _. param ∷ param ∷ param ∷ [];
  parse_add = λ _. refl;
  assignments = ("supplierID", param) ∷ ("productTypeId", param) ∷ ("code", param) ∷ [];
  parse_update = refl;
  set_params = λ e. e.supplier_id ∷ e.product_type_id ∷ e.code ∷ [];
  update_params_lem = λ _. refl;
  parse_delete = refl;
  parse_all = refl;
  parse_by_field = λ field h.
      by_name
        (λ f.
          parse (suppliers_product_info_queries.by_field_query f)
          ≡ some (select_by (all_columns "SuppliersProductInfo") "SuppliersProductInfo" f))
        "id" field h refl;
  from_inserted = λ _ _. refl;
  from_updated = λ _ _ _ _. refl;
  matches_lem = λ field v r h.
      by_name
        (λ f.
          (suppliers_product_info_columns a).matches f v (suppliers_product_info_queries.from_row r)
          ≡ row_matches a "SuppliersProductInfo" f v r)
        "id" field h refl;
  has_id = refl;
  declared = refl;
  has_declared = λ field h.
      by_name (λ f. is_declared f (all_columns "SuppliersProductInfo") ≡ true) "id" field h refl;
  has_filled =
      λ field h. by_name (λ f. takes_null "SuppliersProductInfo" f ≡ false) "id" field h refl;
  add_bound = λ _. refl;
  add_complete = λ _. refl;
  update_bound = λ _. refl;
}

pub product_type-IsMapped :
    (a : Affinity) → IsMapped a "ProductType" (product_type_columns a) product_type_queries
unfolding parse tokens all_columns assign_columns assign_params inserted written row_matches
    column_matches get_string product_type_queries has_references is_table is_declared is_bound any
    takes_null is_complete
product_type-IsMapped a = record {
  insert_columns =
      λ _. "code" ∷ "barcode" ∷ "name" ∷ "description" ∷ "lastPrice" ∷ "unit" ∷ "isImported" ∷ [];
  insert_values = λ _. param ∷ param ∷ param ∷ param ∷ param ∷ param ∷ param ∷ [];
  parse_add = λ _. refl;
  assignments =
      ("code", param)
      ∷ ("barcode", param)
      ∷ ("name", param)
      ∷ ("description", param)
      ∷ ("lastPrice", param)
      ∷ ("unit", param)
      ∷ ("isImported", param)
      ∷ [];
  parse_update = refl;
  set_params =
      λ e. e.code ∷ e.barcode ∷ e.name ∷ e.description ∷ e.last_price ∷ e.unit ∷ e.is_imported ∷ [];
  update_params_lem = λ _. refl;
  parse_delete = refl;
  parse_all = refl;
  parse_by_field = λ field h.
      by_names
        (λ f.
          parse (product_type_queries.by_field_query f)
          ≡ some (select_by (all_columns "ProductType") "ProductType" f))
        "id" "code" field h refl refl;
  from_inserted = λ _ _. refl;
  from_updated = λ _ _ _ _. refl;
  matches_lem = λ field v r h.
      by_names
        (λ f.
          (product_type_columns a).matches f v (product_type_queries.from_row r)
          ≡ row_matches a "ProductType" f v r)
        "id" "code" field h refl refl;
  has_id = refl;
  declared = refl;
  has_declared = λ field h.
      by_names (λ f. is_declared f (all_columns "ProductType") ≡ true) "id" "code" field h refl
        refl;
  has_filled =
      λ field h. by_names (λ f. takes_null "ProductType" f ≡ false) "id" "code" field h refl refl;
  add_bound = λ _. refl;
  add_complete = λ _. refl;
  update_bound = λ _. refl;
}

pub inventory-IsMapped :
    (a : Affinity) → IsMapped a "Inventory" (inventory_columns a) inventory_queries
unfolding parse tokens all_columns assign_columns assign_params inserted written row_matches
    column_matches get_string inventory_queries has_references is_table is_declared is_bound any
    takes_null is_complete
inventory-IsMapped a = record {
  insert_columns = λ _. "productTypeId" ∷ "quantityAvailable" ∷ "employeeId" ∷ [];
  insert_values = λ _. param ∷ param ∷ param ∷ [];
  parse_add = λ _. refl;
  assignments =
      ("productTypeId", param) ∷ ("quantityAvailable", param) ∷ ("employeeId", param) ∷ [];
  parse_update = refl;
  set_params = λ e. e.product_type_id ∷ e.quantity_available ∷ e.employee_id ∷ [];
  update_params_lem = λ _. refl;
  parse_delete = refl;
  parse_all = refl;
  parse_by_field = λ field h.
      by_names
        (λ f.
          parse (inventory_queries.by_field_query f)
          ≡ some (select_by (all_columns "Inventory") "Inventory" f))
        "id" "productTypeId" field h refl refl;
  from_inserted = λ _ _. refl;
  from_updated = λ _ _ _ _. refl;
  matches_lem = λ field v r h.
      by_names
        (λ f.
          (inventory_columns a).matches f v (inventory_queries.from_row r)
          ≡ row_matches a "Inventory" f v r)
        "id" "productTypeId" field h refl refl;
  has_id = refl;
  declared = refl;
  has_declared = λ field h.
      by_names (λ f. is_declared f (all_columns "Inventory") ≡ true) "id" "productTypeId" field h
        refl refl;
  has_filled = λ field h.
      by_names (λ f. takes_null "Inventory" f ≡ false) "id" "productTypeId" field h refl refl;
  add_bound = λ _. refl;
  add_complete = λ _. refl;
  update_bound = λ _. refl;
}
