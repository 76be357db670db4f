-- ===== src/Users.antt =====
-- BusinessLogic/UsersModule.cpp: login, users and roles. A user's password is compared and stored,
-- and is part of no response.
pub mod Login
pub mod Listing
pub mod Frame
use Prim.Native.String.{◌++◌}
use sage_store.Prelude.{String, List, [], ◌∷◌, not, ◌&&◌, ◌==◌, is_blank, is_empty, if◌then◌else◌}
use sage_store.Exec.{Result, ok, throw, Exec, pure, lift, raise, throw_if, ◌>>=◌, ◌>>◌}
use sage_store.DataSpecs.{
  Dataset, RequestData, ResponseData, empty_response, emplace_row, table_response,
}
use sage_store.Entities.{User, Role}
use sage_store.Repositories.{RepositoryManager}
use sage_store.ModuleUtils.{get_optional_dataset_value}

abbrev pub component : String
component = "UsersModule"

unfoldable pub get_required_dataset_value : Dataset → String → Result String
unfolding get_optional_dataset_value
get_required_dataset_value request key =
    let value = get_optional_dataset_value request key in
    if is_blank value then throw component ("Missing required field: " ++ key) else ok value

-- What the client learns of a user who has logged in.
abbrev pub login_response : User → ResponseData
login_response user = record {
  dataset = emplace_row [] (("id", user.id) ∷ ("roleId", user.role_id) ∷ []);
}

-- The first user of that name, if the password is right.
unfoldable pub checked_login : {S : Type 0} → List User → String → Exec S ResponseData
checked_login [] client_password = raise component "User with such username does not exist"
checked_login (user ∷ _) client_password =
    if user.password == client_password
    then pure (login_response user)
    else raise component "Wrong password"

abbrev pub user_keys : List String
user_keys = "id" ∷ "username" ∷ "roleId" ∷ []

abbrev pub user_cells : User → List (String × String)
user_cells e = ("id", e.id) ∷ ("username", e.username) ∷ ("roleId", e.role_id) ∷ []

abbrev pub role_keys : List String
role_keys = "id" ∷ "name" ∷ []

abbrev pub role_cells : Role → List (String × String)
role_cells e = ("id", e.id) ∷ ("name", e.name) ∷ []

-- `usersById.front().password`, after the test that there is one
unfoldable pub kept_password : {S : Type 0} → List User → Exec S String
kept_password [] = raise component "User does not exist"
kept_password (user ∷ _) = pure user.password

module _ {S : Type 0} (repositories : RepositoryManager S) where
  open repositories use {users, roles}

  unfoldable pub login_user : Dataset → Exec S ResponseData
  login_user request = do
    client_username ← lift (get_required_dataset_value request "username")
    client_password ← lift (get_required_dataset_value request "password")
    found ← users.get_by_field "username" client_username
    checked_login found client_password

  -- The source returns early where there is no user; the loop then would have run no round.
  unfoldable pub get_users : Exec S ResponseData
  get_users = do found ← users.get_all; pure (table_response user_keys user_cells found)

  unfoldable pub add_user : Dataset → Exec S (Unit {0})
  add_user request = do
    username ← lift (get_required_dataset_value request "username")
    password ← lift (get_required_dataset_value request "password")
    let role_id = get_optional_dataset_value request "roleId"
    found ← users.get_by_field "username" username
    throw_if (not (is_empty found)) component "User with this username already exists"
    users.add (record { id = ""; username = username; password = password; role_id = role_id })

  -- The password of the request, or the one that the user has.
  unfoldable pub updated_password : String → String → Exec S String
  updated_password password user_id =
      if is_blank password then users.get_by_field "id" user_id >>= kept_password else pure password

  unfoldable pub edit_user : Dataset → String → Exec S (Unit {0})
  edit_user request user_id = do
    throw_if (is_blank user_id) component "User ID is empty"
    username ← lift (get_required_dataset_value request "username")
    role_id ← lift (get_required_dataset_value request "roleId")
    password ← updated_password (get_optional_dataset_value request "password") user_id
    users.update
        (record { id = user_id; username = username; password = password; role_id = role_id })

  unfoldable pub delete_user : String → Exec S (Unit {0})
  delete_user user_id = do
    throw_if (is_blank user_id) component "User ID is empty"
    users.delete_resource user_id

  unfoldable pub get_roles : Exec S ResponseData
  get_roles = do found ← roles.get_all; pure (table_response role_keys role_cells found)

  unfoldable pub add_role : Dataset → Exec S (Unit {0})
  add_role request = do
    role_name ← lift (get_required_dataset_value request "name")
    found ← roles.get_by_field "name" role_name
    if is_empty found
        then roles.add (record { id = ""; name = role_name })
        else raise component "Role with this name already exists"

  unfoldable pub update_role : Dataset → String → Exec S (Unit {0})
  update_role request resource_id = do
    throw_if (is_blank resource_id) component "resourceId is empty"
    role_name ← lift (get_required_dataset_value request "name")
    roles.update (record { id = resource_id; name = role_name })

  unfoldable pub delete_role : String → Exec S (Unit {0})
  delete_role resource_id = do
    throw_if (is_blank resource_id) component "resourceId is empty"
    roles.delete_resource resource_id

  -- `executeTask` for each submodule
  unfoldable pub users_task : RequestData → Exec S ResponseData
  users_task request =
      if request.method == "GET"
      then get_users
      else if request.method == "POST"
      then add_user request.dataset >> pure empty_response
      else if request.method == "PUT"
      then edit_user request.dataset request.resource_id >> pure empty_response
      else if request.method == "DELETE"
      then delete_user request.resource_id >> pure empty_response
      else raise component "Unrecognized method"

  unfoldable pub roles_task : RequestData → Exec S ResponseData
  roles_task request =
      if request.method == "GET"
      then get_roles
      else if request.method == "POST"
      then add_role request.dataset >> pure empty_response
      else if request.method == "PUT"
      then update_role request.dataset request.resource_id >> pure empty_response
      else if request.method == "DELETE"
      then delete_role request.resource_id >> pure empty_response
      else raise component "Unrecognized method"

  unfoldable pub execute_task : RequestData → Exec S ResponseData
  execute_task request =
      if request.submodule == "login" && request.method == "POST"
      then login_user request.dataset
      else if request.submodule == "users"
      then users_task request
      else if request.submodule == "roles"
      then roles_task request
      else raise component "Unrecognized task"
