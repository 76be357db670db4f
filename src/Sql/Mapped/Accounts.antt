-- ===== src/Sql/Mapped/Accounts.antt =====
-- Database/: what the statements of the repositories of users, roles and log entries say.
use sage_store.Prelude.{
  false, any, String, List, ◌≡◌, refl, [], ◌∷◌, some, true, arith, Bool-cases, inl, inr, is_blank,
  if◌then◌else◌,
}
use sage_store.Entities.{User}
use sage_store.Tables.{Affinity, user_columns, role_columns, log_columns}
use sage_store.Tables.{insert_row}
use sage_store.Sql.{Row, get_string}
use sage_store.Sql.Grammar.{Value, param, null_if_blank, parse, tokens, insert, select_by}
use sage_store.Sql.Schema.{
  columns_of, all_columns, assign_columns, assign_params, written, has_references,
}
use sage_store.Sql.Laws.{row_matches, column_matches, inserted}
use sage_store.Sql.Correct.{IsMapped}
use sage_store.Sql.Laws.{is_table, is_declared, is_bound, is_complete, takes_null}
use sage_store.Sql.Mapped.{by_name, by_names}
use sage_store.Sql.People.{user_queries, role_queries, log_queries}

-- A user without a role is inserted by a statement of its own.
abbrev user_insert_columns : User → List String
user_insert_columns e =
    if is_blank e.role_id
    then "username" ∷ "password" ∷ []
    else "username" ∷ "password" ∷ "roleId" ∷ []

abbrev user_insert_values : User → List Value
user_insert_values e = if is_blank e.role_id then param ∷ param ∷ [] else param ∷ param ∷ param ∷ []

abbrev user_assignments : List (String × Value)
user_assignments = ("username", param) ∷ ("password", param) ∷ ("roleId", param) ∷ []

user-parse_add :
    (e : User)
    → parse (user_queries.add_query e)
      ≡ some (insert "User" (user_insert_columns e) (user_insert_values e))
unfolding parse tokens user_queries
user-parse_add e = elim (Bool-cases (is_blank e.role_id)) [
  | inl blank ↦ rw blank refl
  | inr other ↦ rw other refl
]

user-from_inserted :
    (a : Affinity) (id : String) (e : User)
    → user_queries.from_row (
        inserted a "User" id (
          assign_columns
            (user_insert_columns e)
            (user_insert_values e)
            (user_queries.add_params e)))
      ≡ insert_row (user_columns a) id e
unfolding inserted written assign_columns get_string user_queries
user-from_inserted a id e = elim (Bool-cases (is_blank e.role_id)) [
  | inl blank ↦ rw blank refl
  | inr other ↦ rw other refl
]

-- A user whose role is blank is not updated: a blank role is no role's id.
user-from_updated :
    (a : Affinity) (e : User) (r : Row) (cells : List String)
    → has_references
        (columns_of "User")
        (assign_params user_assignments (e.username ∷ e.password ∷ e.role_id ∷ []))
      ≡ true
    → user_queries.from_row (
        get_string r 0
        ∷ written a
            (columns_of "User")
            (assign_params user_assignments (e.username ∷ e.password ∷ e.role_id ∷ []))
            cells)
      ≡ (user_columns a).with_id
          ((user_columns a).id (user_queries.from_row r))
          ((user_columns a).stored e)
unfolding has_references assign_params written get_string columns_of user_queries
user-from_updated a e r cells h = elim (Bool-cases (is_blank e.role_id)) [
  | inl blank ↦ ground arith
  | inr other ↦ rw other refl
]

pub user-IsMapped : (a : Affinity) → IsMapped a "User" (user_columns a) user_queries
unfolding parse tokens all_columns assign_columns assign_params inserted written row_matches
    column_matches get_string user_queries has_references is_table is_declared is_bound any
    takes_null is_complete
user-IsMapped a = record {
  insert_columns = λ e.
      if is_blank e.role_id
      then "username" ∷ "password" ∷ []
      else "username" ∷ "password" ∷ "roleId" ∷ [];
  insert_values =
      λ e. if is_blank e.role_id then param ∷ param ∷ [] else param ∷ param ∷ param ∷ [];
  parse_add = user-parse_add;
  assignments = ("username", param) ∷ ("password", param) ∷ ("roleId", param) ∷ [];
  parse_update = refl;
  set_params = λ e. e.username ∷ e.password ∷ e.role_id ∷ [];
  update_params_lem = λ _. refl;
  parse_delete = refl;
  parse_all = refl;
  parse_by_field = λ field h.
      by_names
        (λ f.
          parse (user_queries.by_field_query f) ≡ some (select_by (all_columns "User") "User" f))
        "id" "username" field h refl refl;
  from_inserted = user-from_inserted a;
  from_updated = user-from_updated a;
  matches_lem = λ field v r h.
      by_names
        (λ f. (user_columns a).matches f v (user_queries.from_row r) ≡ row_matches a "User" f v r)
        "id" "username" field h refl refl;
  has_id = refl;
  declared = refl;
  has_declared = λ field h.
      by_names (λ f. is_declared f (all_columns "User") ≡ true) "id" "username" field h refl refl;
  has_filled =
      λ field h. by_names (λ f. takes_null "User" f ≡ false) "id" "username" field h refl refl;
  add_bound = λ e. elim (Bool-cases (is_blank e.role_id)) [
    | inl blank ↦ rw blank refl
    | inr other ↦ rw other refl
  ];
  add_complete = λ e. elim (Bool-cases (is_blank e.role_id)) [
    | inl blank ↦ rw blank refl
    | inr other ↦ rw other refl
  ];
  update_bound = λ _. refl;
}

pub role-IsMapped : (a : Affinity) → IsMapped a "Role" (role_columns a) role_queries
unfolding parse tokens all_columns assign_columns assign_params inserted written row_matches
    column_matches get_string role_queries has_references is_table is_declared is_bound any
    takes_null is_complete
role-IsMapped a = record {
  insert_columns = λ _. "name" ∷ [];
  insert_values = λ _. param ∷ [];
  parse_add = λ _. refl;
  assignments = ("name", param) ∷ [];
  parse_update = refl;
  set_params = λ e. e.name ∷ [];
  update_params_lem = λ _. refl;
  parse_delete = refl;
  parse_all = refl;
  parse_by_field = λ field h.
      by_names
        (λ f.
          parse (role_queries.by_field_query f) ≡ some (select_by (all_columns "Role") "Role" f))
        "id" "name" field h refl refl;
  from_inserted = λ _ _. refl;
  from_updated = λ _ _ _ _. refl;
  matches_lem = λ field v r h.
      by_names
        (λ f. (role_columns a).matches f v (role_queries.from_row r) ≡ row_matches a "Role" f v r)
        "id" "name" field h refl refl;
  has_id = refl;
  declared = refl;
  has_declared = λ field h.
      by_names (λ f. is_declared f (all_columns "Role") ≡ true) "id" "name" field h refl refl;
  has_filled = λ field h. by_names (λ f. takes_null "Role" f ≡ false) "id" "name" field h refl refl;
  add_bound = λ _. refl;
  add_complete = λ _. refl;
  update_bound = λ _. refl;
}

pub log-IsMapped : (a : Affinity) → IsMapped a "Log" (log_columns a) log_queries
unfolding parse tokens all_columns assign_columns assign_params inserted written row_matches
    column_matches get_string log_queries has_references is_table is_declared is_bound any
    takes_null is_complete
log-IsMapped a = record {
  insert_columns = λ _. "userId" ∷ "action" ∷ "timestamp" ∷ [];
  insert_values = λ _. null_if_blank ∷ param ∷ param ∷ [];
  parse_add = λ _. refl;
  assignments = ("userId", null_if_blank) ∷ ("action", param) ∷ ("timestamp", param) ∷ [];
  parse_update = refl;
  set_params = λ e. e.user_id ∷ e.action ∷ e.timestamp ∷ [];
  update_params_lem = λ _. refl;
  parse_delete = refl;
  parse_all = refl;
  parse_by_field = λ field h.
      by_name
        (λ f. parse (log_queries.by_field_query f) ≡ some (select_by (all_columns "Log") "Log" f))
        "id" field h refl;
  from_inserted = λ _ _. refl;
  from_updated = λ _ _ _ _. refl;
  matches_lem = λ field v r h.
      by_name
        (λ f. (log_columns a).matches f v (log_queries.from_row r) ≡ row_matches a "Log" f v r) "id"
        field h refl;
  has_id = refl;
  declared = refl;
  has_declared =
      λ field h. by_name (λ f. is_declared f (all_columns "Log") ≡ true) "id" field h refl;
  has_filled = λ field h. by_name (λ f. takes_null "Log" f ≡ false) "id" field h refl;
  add_bound = λ _. refl;
  add_complete = λ _. refl;
  update_bound = λ _. refl;
}
