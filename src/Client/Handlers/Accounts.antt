-- ===== src/Client/Handlers/Accounts.antt =====
-- ApiManager.cpp: the handlers of responses about users, roles and the log.
use sage_store.Prelude.{String, List, [], ◌∷◌, Option, none, some}
use sage_store.DataSpecs.{Dataset}
use sage_store.Entities.{Log, Role, User}
use sage_store.Client.{Method, get, post, put, del}
use sage_store.Client.Signals.{
  Signal, logs_list, role_created, role_deleted, role_edited, roles_list, user_added, user_deleted,
  user_edited, users_list,
}
use sage_store.Client.Tables.{Row, cell, read_table}

abbrev pub handle_roles_list_keys : List String
handle_roles_list_keys = "id" ∷ "name" ∷ []

abbrev pub handle_roles_list_row : Row → Role
handle_roles_list_row r = record { id = cell 0 r; name = cell 1 r }

unfoldable pub handle_roles_list : Dataset → Signal
unfolding read_table
handle_roles_list d =
    read_table "dataset doesn't contain ID or NAME lists" "ID and Name lists have different sizes."
      handle_roles_list_keys d (λ r. handle_roles_list_row r) roles_list

unfoldable pub handle_roles : Method → Dataset → Option Signal
unfolding handle_roles_list
handle_roles get d = some (handle_roles_list d)
handle_roles post d = some role_created
handle_roles put d = some role_edited
handle_roles del d = some role_deleted

abbrev pub handle_users_list_keys : List String
handle_users_list_keys = "id" ∷ "username" ∷ "roleId" ∷ []

abbrev pub handle_users_list_row : Row → User
handle_users_list_row r = record {
  id = cell 0 r;
  username = cell 1 r;
  password = "";
  role_id = cell 2 r;
}

unfoldable pub handle_users_list : Dataset → Signal
unfolding read_table
handle_users_list d =
    read_table "Dataset doesn't contain required User keys" "User lists have different sizes."
      handle_users_list_keys d (λ r. handle_users_list_row r) users_list

unfoldable pub handle_users : Method → Dataset → Option Signal
unfolding handle_users_list
handle_users get d = some (handle_users_list d)
handle_users post d = some user_added
handle_users put d = some user_edited
handle_users del d = some user_deleted

abbrev pub handle_logs_list_keys : List String
handle_logs_list_keys = "id" ∷ "userId" ∷ "action" ∷ "timestamp" ∷ []

abbrev pub handle_logs_list_row : Row → Log
handle_logs_list_row r = record {
  id = cell 0 r;
  user_id = cell 1 r;
  action = cell 2 r;
  timestamp = cell 3 r;
}

unfoldable pub handle_logs_list : Dataset → Signal
unfolding read_table
handle_logs_list d =
    read_table "Key missing in dataset" "Log lists have different sizes." handle_logs_list_keys d
      (λ r. handle_logs_list_row r) logs_list

unfoldable pub handle_logs : Method → Dataset → Option Signal
unfolding handle_logs_list
handle_logs get d = some (handle_logs_list d)
handle_logs post d = none
handle_logs put d = none
handle_logs del d = none
