-- ===== src/Sql/Mapped/People.antt =====
-- Database/: what the statements of the repositories of contacts, employees and suppliers say.
use sage_store.Prelude.{false, any, true, ◌≡◌, refl, [], ◌∷◌, some}
use sage_store.Tables.{Affinity, contact_columns, employee_columns, supplier_columns}
use sage_store.Sql.{get_string}
use sage_store.Sql.Grammar.{param, parse, tokens, select_by}
use sage_store.Sql.Schema.{all_columns, assign_columns, assign_params, written, has_references}
use sage_store.Sql.Laws.{row_matches, column_matches, inserted}
use sage_store.Sql.Correct.{IsMapped}
use sage_store.Sql.Laws.{is_table, is_declared, is_bound, is_complete, takes_null}
use sage_store.Sql.Mapped.{by_name}
use sage_store.Sql.People.{contact_queries, employee_queries, supplier_queries}

pub contact-IsMapped : (a : Affinity) → IsMapped a "Contact" (contact_columns a) contact_queries
unfolding parse tokens all_columns assign_columns assign_params inserted written row_matches
    column_matches get_string contact_queries has_references is_table is_declared is_bound any
    takes_null is_complete
contact-IsMapped a = record {
  insert_columns = λ _. "name" ∷ "type" ∷ "email" ∷ "phone" ∷ [];
  insert_values = λ _. param ∷ param ∷ param ∷ param ∷ [];
  parse_add = λ _. refl;
  assignments = ("name", param) ∷ ("type", param) ∷ ("email", param) ∷ ("phone", param) ∷ [];
  parse_update = refl;
  set_params = λ e. e.name ∷ e.type ∷ e.email ∷ e.phone ∷ [];
  update_params_lem = λ _. refl;
  parse_delete = refl;
  parse_all = refl;
  parse_by_field = λ field h.
      by_name
        (λ f.
          parse (contact_queries.by_field_query f)
          ≡ some (select_by (all_columns "Contact") "Contact" f))
        "id" field h refl;
  from_inserted = λ _ _. refl;
  from_updated = λ _ _ _ _. refl;
  matches_lem = λ field v r h.
      by_name
        (λ f.
          (contact_columns a).matches f v (contact_queries.from_row r)
          ≡ row_matches a "Contact" f v r)
        "id" field h refl;
  has_id = refl;
  declared = refl;
  has_declared =
      λ field h. by_name (λ f. is_declared f (all_columns "Contact") ≡ true) "id" field h refl;
  has_filled = λ field h. by_name (λ f. takes_null "Contact" f ≡ false) "id" field h refl;
  add_bound = λ _. refl;
  add_complete = λ _. refl;
  update_bound = λ _. refl;
}

pub employee-IsMapped : (a : Affinity) → IsMapped a "Employee" (employee_columns a) employee_queries
unfolding parse tokens all_columns assign_columns assign_params inserted written row_matches
    column_matches get_string employee_queries has_references is_table is_declared is_bound any
    takes_null is_complete
employee-IsMapped a = record {
  insert_columns = λ _. "name" ∷ "number" ∷ "email" ∷ "address" ∷ [];
  insert_values = λ _. param ∷ param ∷ param ∷ param ∷ [];
  parse_add = λ _. refl;
  assignments = ("name", param) ∷ ("number", param) ∷ ("email", param) ∷ ("address", param) ∷ [];
  parse_update = refl;
  set_params = λ e. e.name ∷ e.number ∷ e.email ∷ e.address ∷ [];
  update_params_lem = λ _. refl;
  parse_delete = refl;
  parse_all = refl;
  parse_by_field = λ field h.
      by_name
        (λ f.
          parse (employee_queries.by_field_query f)
          ≡ some (select_by (all_columns "Employee") "Employee" f))
        "id" field h refl;
  from_inserted = λ _ _. refl;
  from_updated = λ _ _ _ _. refl;
  matches_lem = λ field v r h.
      by_name
        (λ f.
          (employee_columns a).matches f v (employee_queries.from_row r)
          ≡ row_matches a "Employee" f v r)
        "id" field h refl;
  has_id = refl;
  declared = refl;
  has_declared =
      λ field h. by_name (λ f. is_declared f (all_columns "Employee") ≡ true) "id" field h refl;
  has_filled = λ field h. by_name (λ f. takes_null "Employee" f ≡ false) "id" field h refl;
  add_bound = λ _. refl;
  add_complete = λ _. refl;
  update_bound = λ _. refl;
}

pub supplier-IsMapped : (a : Affinity) → IsMapped a "Supplier" (supplier_columns a) supplier_queries
unfolding parse tokens all_columns assign_columns assign_params inserted written row_matches
    column_matches get_string supplier_queries has_references is_table is_declared is_bound any
    takes_null is_complete
supplier-IsMapped a = record {
  insert_columns = λ _. "name" ∷ "number" ∷ "email" ∷ "address" ∷ [];
  insert_values = λ _. param ∷ param ∷ param ∷ param ∷ [];
  parse_add = λ _. refl;
  assignments = ("name", param) ∷ ("number", param) ∷ ("email", param) ∷ ("address", param) ∷ [];
  parse_update = refl;
  set_params = λ e. e.name ∷ e.number ∷ e.email ∷ e.address ∷ [];
  update_params_lem = λ _. refl;
  parse_delete = refl;
  parse_all = refl;
  parse_by_field = λ field h.
      by_name
        (λ f.
          parse (supplier_queries.by_field_query f)
          ≡ some (select_by (all_columns "Supplier") "Supplier" f))
        "id" field h refl;
  from_inserted = λ _ _. refl;
  from_updated = λ _ _ _ _. refl;
  matches_lem = λ field v r h.
      by_name
        (λ f.
          (supplier_columns a).matches f v (supplier_queries.from_row r)
          ≡ row_matches a "Supplier" f v r)
        "id" field h refl;
  has_id = refl;
  declared = refl;
  has_declared =
      λ field h. by_name (λ f. is_declared f (all_columns "Supplier") ≡ true) "id" field h refl;
  has_filled = λ field h. by_name (λ f. takes_null "Supplier" f ≡ false) "id" field h refl;
  add_bound = λ _. refl;
  add_complete = λ _. refl;
  update_bound = λ _. refl;
}
