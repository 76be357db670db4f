-- ===== src/Client/Responses/Accounts.antt =====
-- ApiManager.cpp reads the tables that the server sends: users, roles and the log.
use sage_store.Prelude.{◌≡◌, ◌∙◌, refl, ap, map, List, [], ◌∷◌, some}
use sage_store.DataSpecs.{Dataset, table_response}
use sage_store.DataSpecs.Columns.{cells_of}
use sage_store.Users.{user_keys, user_cells, role_keys, role_cells}
use sage_store.Logs.{log_keys, log_cells}
use sage_store.Entities.{User, Role, Log}
use sage_store.Client.{get}
use sage_store.Client.Endpoints
use sage_store.Client.Tables.{cell}
use sage_store.Client.Tables.Listed.{Fits, SameLookups, map_id, read_table-table_response}
use sage_store.DataSpecs.{empty_columns}
use sage_store.Prelude.Assoc.{find}
use sage_store.Client.Signals.{roles_list, users_list, logs_list}
use sage_store.Client.Handlers.Accounts.{
  handle_roles_list, handle_roles_list_row, handle_roles, handle_users_list, handle_users_list_row,
  handle_users, handle_logs_list, handle_logs_list_row, handle_logs,
}
use sage_store.Client.Responses.{handle_response}
use sage_store.Client.Responses.Shown.{shown_of}

-- The password is not sent.
abbrev pub without_password : User → User
without_password e = record e { password = "" }

handle_roles_list-Fits : Fits role_keys role_cells (("id", λ e. e.id) ∷ ("name", λ e. e.name) ∷ [])
unfolding Fits cells_of empty_columns find
handle_roles_list-Fits = (λ _. refl, refl, (λ _. refl, refl, tt))

pub handle_roles_list_lem :
    (es : List Role) (d : Dataset)
    → SameLookups d (table_response role_keys role_cells es).dataset
    → handle_response Endpoints.users_roles get d ≡ some (roles_list (es))
unfolding handle_response handle_roles handle_roles_list cell
handle_roles_list_lem es d alike =
    shown_of role_keys role_cells handle_roles get (λ e. unfold cells_of in refl) es d alike
      (ap (λ s. some s)
        (read_table-table_response role_keys role_cells (("name", λ e. e.name) ∷ [])
            "dataset doesn't contain ID or NAME lists" "ID and Name lists have different sizes."
            (λ r. handle_roles_list_row r) roles_list (λ e. e) "id" (λ e. e.id)
            handle_roles_list-Fits (λ e. refl) es d alike
          ∙ ap roles_list (map_id es)))

handle_users_list-Fits :
    Fits user_keys user_cells
      (("id", λ e. e.id) ∷ ("username", λ e. e.username) ∷ ("roleId", λ e. e.role_id) ∷ [])
unfolding Fits cells_of empty_columns find
handle_users_list-Fits = (λ _. refl, refl, (λ _. refl, refl, (λ _. refl, refl, tt)))

pub handle_users_list_lem :
    (es : List User) (d : Dataset)
    → SameLookups d (table_response user_keys user_cells es).dataset
    → handle_response Endpoints.users get d ≡ some (users_list (map (λ e. without_password e) es))
unfolding handle_response handle_users handle_users_list cell
handle_users_list_lem es d alike =
    shown_of user_keys user_cells handle_users get (λ e. unfold cells_of in refl) es d alike
      (ap (λ s. some s)
        (read_table-table_response user_keys user_cells
          (("username", λ e. e.username) ∷ ("roleId", λ e. e.role_id) ∷ [])
          "Dataset doesn't contain required User keys" "User lists have different sizes."
          (λ r. handle_users_list_row r) users_list (λ e. without_password e) "id" (λ e. e.id)
          handle_users_list-Fits (λ e. refl) es d alike))

handle_logs_list-Fits : Fits log_keys log_cells (
    ("id", λ e. e.id)
    ∷ ("userId", λ e. e.user_id)
    ∷ ("action", λ e. e.action)
    ∷ ("timestamp", λ e. e.timestamp)
    ∷ [])
unfolding Fits cells_of empty_columns find
handle_logs_list-Fits =
    (λ _. refl, refl, (λ _. refl, refl, (λ _. refl, refl, (λ _. refl, refl, tt))))

pub handle_logs_list_lem :
    (es : List Log) (d : Dataset)
    → SameLookups d (table_response log_keys log_cells es).dataset
    → handle_response Endpoints.logs_entries get d ≡ some (logs_list (es))
unfolding handle_response handle_logs handle_logs_list cell
handle_logs_list_lem es d alike =
    shown_of log_keys log_cells handle_logs get (λ e. unfold cells_of in refl) es d alike
      (ap (λ s. some s)
        (read_table-table_response log_keys log_cells
            (("userId", λ e. e.user_id)
              ∷ ("action", λ e. e.action)
              ∷ ("timestamp", λ e. e.timestamp)
              ∷ [])
            "Key missing in dataset" "Log lists have different sizes." (λ r. handle_logs_list_row r)
            logs_list (λ e. e) "id" (λ e. e.id) handle_logs_list-Fits (λ e. refl) es d alike
          ∙ ap logs_list (map_id es)))
