-- ===== src/Sql/People.antt =====
-- Database/: the statements of the repositories of users, roles, log entries, contacts, employees and suppliers.
use Prim.Native.String.{◌++◌}
use sage_store.Prelude.{[], ◌∷◌, is_blank, if◌then◌else◌}
use sage_store.Entities.{User, Role, Log, Contact, Employee, Supplier}
use sage_store.Sql.{Queries, get_string}

-- UserRepository.cpp
unfoldable pub user_queries : Queries User
unfolding get_string
user_queries = record {
  add_query = λ e.
      if is_blank e.role_id
      then "INSERT INTO " ++ "User" ++ " (username, password) VALUES (?, ?);"
      else "INSERT INTO " ++ "User" ++ " (username, password, roleId) VALUES (?, ?, ?);";
  add_params = λ e.
      if is_blank e.role_id
      then e.username ∷ e.password ∷ []
      else e.username ∷ e.password ∷ e.role_id ∷ [];
  update_query = "UPDATE " ++ "User" ++ " SET username = ?, password = ?, roleId = ? WHERE id = ?;";
  update_params = λ e. e.username ∷ e.password ∷ e.role_id ∷ e.id ∷ [];
  delete_query = "DELETE FROM " ++ "User" ++ " WHERE id = ?;";
  by_field_query = λ field.
      "SELECT id, username, password, roleId FROM " ++ "User" ++ " WHERE " ++ field ++ " = ?;";
  all_query = "SELECT id, username, password, roleId FROM  " ++ "User" ++ " ;";
  from_row = λ r. record {
    id = get_string r 0;
    username = get_string r 1;
    password = get_string r 2;
    role_id = get_string r 3;
  };
}

-- RoleRepository.cpp
unfoldable pub role_queries : Queries Role
unfolding get_string
role_queries = record {
  add_query = λ _. "INSERT INTO " ++ "Role" ++ " (name) VALUES (?);";
  add_params = λ e. e.name ∷ [];
  update_query = "UPDATE " ++ "Role" ++ " SET name = ? WHERE id = ?;";
  update_params = λ e. e.name ∷ e.id ∷ [];
  delete_query = "DELETE FROM " ++ "Role" ++ " WHERE id = ?;";
  by_field_query = λ field. "SELECT id, name FROM " ++ "Role" ++ " WHERE " ++ field ++ " = ?;";
  all_query = "SELECT id, name FROM " ++ "Role" ++ ";";
  from_row = λ r. record { id = get_string r 0; name = get_string r 1 };
}

-- LogRepository.cpp
unfoldable pub log_queries : Queries Log
unfolding get_string
log_queries = record {
  add_query =
      λ _. "INSERT INTO " ++ "Log" ++ " (userId, action, timestamp) VALUES (NULLIF(?, ''), ?, ?);";
  add_params = λ e. e.user_id ∷ e.action ∷ e.timestamp ∷ [];
  update_query =
      "UPDATE " ++ "Log" ++ " SET userId = NULLIF(?, ''), action = ?, timestamp = ? WHERE id = ?;";
  update_params = λ e. e.user_id ∷ e.action ∷ e.timestamp ∷ e.id ∷ [];
  delete_query = "DELETE FROM " ++ "Log" ++ " WHERE id = ?;";
  by_field_query = λ field.
      "SELECT id, userId, action, timestamp FROM " ++ "Log" ++ " WHERE " ++ field ++ " = ?;";
  all_query = "SELECT id, userId, action, timestamp FROM " ++ "Log" ++ ";";
  from_row = λ r. record {
    id = get_string r 0;
    user_id = get_string r 1;
    action = get_string r 2;
    timestamp = get_string r 3;
  };
}

-- ContactRepository.cpp
unfoldable pub contact_queries : Queries Contact
unfolding get_string
contact_queries = record {
  add_query =
      λ _. "INSERT INTO " ++ "Contact" ++ " (name, type, email, phone) VALUES (?, ?, ?, ?);";
  add_params = λ e. e.name ∷ e.type ∷ e.email ∷ e.phone ∷ [];
  update_query =
      "UPDATE " ++ "Contact" ++ " SET name = ?, type = ?, email = ?, phone = ? WHERE id = ?;";
  update_params = λ e. e.name ∷ e.type ∷ e.email ∷ e.phone ∷ e.id ∷ [];
  delete_query = "DELETE FROM " ++ "Contact" ++ " WHERE id = ?;";
  by_field_query = λ field.
      "SELECT id, name, type, email, phone FROM " ++ "Contact" ++ " WHERE " ++ field ++ " = ?;";
  all_query = "SELECT id, name, type, email, phone FROM " ++ "Contact" ++ ";";
  from_row = λ r. record {
    id = get_string r 0;
    name = get_string r 1;
    type = get_string r 2;
    email = get_string r 3;
    phone = get_string r 4;
  };
}

-- EmployeeRepository.cpp
unfoldable pub employee_queries : Queries Employee
unfolding get_string
employee_queries = record {
  add_query =
      λ _. "INSERT INTO " ++ "Employee" ++ " (name, number, email, address) VALUES (?, ?, ?, ?);";
  add_params = λ e. e.name ∷ e.number ∷ e.email ∷ e.address ∷ [];
  update_query =
      "UPDATE " ++ "Employee" ++ " SET name = ?, number = ?, email = ?, address = ? WHERE id = ?;";
  update_params = λ e. e.name ∷ e.number ∷ e.email ∷ e.address ∷ e.id ∷ [];
  delete_query = "DELETE FROM " ++ "Employee" ++ " WHERE id = ?;";
  by_field_query = λ field.
      "SELECT id, name, number, email, address FROM " ++ "Employee" ++ " WHERE " ++ field
      ++ " = ?;";
  all_query = "SELECT id, name, number, email, address FROM " ++ "Employee" ++ ";";
  from_row = λ r. record {
    id = get_string r 0;
    name = get_string r 1;
    number = get_string r 2;
    email = get_string r 3;
    address = get_string r 4;
  };
}

-- SupplierRepository.cpp
unfoldable pub supplier_queries : Queries Supplier
unfolding get_string
supplier_queries = record {
  add_query =
      λ _. "INSERT INTO " ++ "Supplier" ++ " (name, number, email, address) VALUES (?, ?, ?, ?);";
  add_params = λ e. e.name ∷ e.number ∷ e.email ∷ e.address ∷ [];
  update_query =
      "UPDATE " ++ "Supplier" ++ " SET name = ?, number = ?, email = ?, address = ? WHERE id = ?;";
  update_params = λ e. e.name ∷ e.number ∷ e.email ∷ e.address ∷ e.id ∷ [];
  delete_query = "DELETE FROM " ++ "Supplier" ++ " WHERE id = ?;";
  by_field_query = λ field.
      "SELECT id, name, number, email, address FROM " ++ "Supplier" ++ " WHERE " ++ field
      ++ " = ?;";
  all_query = "SELECT id, name, number, email, address FROM " ++ "Supplier" ++ ";";
  from_row = λ r. record {
    id = get_string r 0;
    name = get_string r 1;
    number = get_string r 2;
    email = get_string r 3;
    address = get_string r 4;
  };
}
