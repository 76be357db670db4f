-- ===== src/Client/Requests/Accounts.antt =====
-- ApiManager.cpp: the requests for users, roles, the log and analytics.
use sage_store.Prelude.{String, [], ◌∷◌}
use sage_store.Entities.{Role, User}
use sage_store.Client.{get, post, put, del, ClientRequest, request}
use sage_store.Client.Endpoints.{
  analytics_inventory, analytics_sales, logs_entries, users, users_login, users_roles,
}

unfoldable pub login_user : String → String → ClientRequest
login_user username password =
    request users_login post (("username", username ∷ []) ∷ ("password", password ∷ []) ∷ []) ""

unfoldable pub get_users : ClientRequest
get_users = request users get [] ""

unfoldable pub add_user : User → ClientRequest
add_user user =
    request users post
      (("id", user.id ∷ [])
        ∷ ("username", user.username ∷ [])
        ∷ ("password", user.password ∷ [])
        ∷ ("roleId", user.role_id ∷ [])
        ∷ [])
      ""

unfoldable pub edit_user : User → ClientRequest
edit_user user =
    request users put
      (("id", user.id ∷ [])
        ∷ ("username", user.username ∷ [])
        ∷ ("password", user.password ∷ [])
        ∷ ("roleId", user.role_id ∷ [])
        ∷ [])
      user.id

unfoldable pub delete_user : String → ClientRequest
delete_user id = request users del [] id

unfoldable pub get_role_list : ClientRequest
get_role_list = request users_roles get [] ""

unfoldable pub create_role : Role → ClientRequest
create_role role = request users_roles post (("name", role.name ∷ []) ∷ ("id", []) ∷ []) ""

unfoldable pub edit_role : Role → ClientRequest
edit_role role = request users_roles put (("name", role.name ∷ []) ∷ []) role.id

unfoldable pub delete_role : String → ClientRequest
delete_role id = request users_roles del [] id

unfoldable pub get_logs : ClientRequest
get_logs = request logs_entries get [] ""

unfoldable pub get_sales_analytics : ClientRequest
get_sales_analytics = request analytics_sales get [] ""

unfoldable pub get_inventory_analytics : ClientRequest
get_inventory_analytics = request analytics_inventory get [] ""
