-- ===== src/Users/Frame.antt =====
-- A request to the users module touches the users and the roles, or nothing.
use sage_store.Prelude.{String, ◌≡◌, refl, ◌==◌, ◌&&◌, List, [], ◌∷◌, is_blank, is_empty}
use sage_store.Exec.{Exec, ◌>>=◌, pure, raise}
use sage_store.Exec.Ensures.{
  Ensures, ensures-pure, ensures-raise, ensures-if, ensures-method, ensures-bind_if, ensures_assoc,
  ensures-read,
}
use sage_store.DataSpecs.{Dataset, RequestData}
use sage_store.Entities.{User}
use sage_store.Repositories.{RepositoryManager}
use sage_store.ModuleUtils.{get_optional_dataset_value}
use sage_store.Tables.{Tables, Affinity}
use sage_store.Tables.Laws.{Views, IsDatabase}
use sage_store.Tables.Rules.{rows_by, ensures-get_by_field, ensures-get_all}
use sage_store.Tables.Settled.{
  Settled, Written-Settled, Settled-respond, Settled-lift, Settled-throw_if,
}
use sage_store.Users.{
  component, get_required_dataset_value, checked_login, kept_password, login_user, get_users,
  add_user, updated_password, edit_user, delete_user, get_roles, add_role, update_role, delete_role,
  users_task, roles_task, execute_task,
}

-- The tables differ in the users and the roles alone.
abbrev pub IsAdministered : Tables → Tables → Type 0
IsAdministered t t' = t' ≡ record t { users = t'.users; roles = t'.roles }

module _ {S : Type 0} (r : RepositoryManager S) {a : Affinity} {v : Views S} (d : IsDatabase a v r)
    (s : S) where
  abbrev Administers : {A : Type 0} → Exec S A → Type 0
  Administers m = Ensures m s (Settled v (IsAdministered (v.view s)) s)

  checked_login-Administers :
      (users : List User) (password : String) → Administers (checked_login users password)
  unfolding checked_login
  checked_login-Administers [] password = ensures-raise _ _ s refl
  checked_login-Administers (user ∷ _) password =
      ensures-if (user.password == password) _ _ s (λ _. ensures-pure _ s refl)
        (λ _. ensures-raise _ _ s refl)

  login_user-Administers : (request : Dataset) → Administers (login_user r request)
  unfolding login_user
  login_user-Administers request =
      Settled-lift v (IsAdministered (v.view s)) s (get_required_dataset_value request "username") _
        λ name _.
          Settled-lift v (IsAdministered (v.view s)) s
            (get_required_dataset_value request "password") _
            λ password _.
              ensures-get_by_field d.users "username" name _ s refl
                (checked_login-Administers _ password)

  add_user-Administers : (request : Dataset) → Administers (add_user r request)
  unfolding add_user
  add_user-Administers request =
      Settled-lift v (IsAdministered (v.view s)) s (get_required_dataset_value request "username") _
        λ name _.
          Settled-lift v (IsAdministered (v.view s)) s
            (get_required_dataset_value request "password") _
            λ password _. ensures-get_by_field d.users "username" name _ s refl (
              Settled-throw_if v (IsAdministered (v.view s)) s _ _ _ _
                λ _. Written-Settled v (IsAdministered (v.view s)) s _ _ (d.users.add_lem _ s) refl)

  kept_password-Administers :
      {B : Type 0} (users : List User) (f : String → Exec S B)
      → ((password : String) → Administers (f password))
      → Administers (kept_password users >>= f)
  unfolding kept_password ◌>>=◌
  kept_password-Administers [] f next = record { holds = refl }
  kept_password-Administers (user ∷ _) f next = record { holds = (next user.password).holds }

  edit_user-Administers : (request : Dataset) (id : String) → Administers (edit_user r request id)
  unfolding edit_user updated_password
  edit_user-Administers request id = Settled-throw_if v (IsAdministered (v.view s)) s _ _ _ _ λ _.
      Settled-lift v (IsAdministered (v.view s)) s (get_required_dataset_value request "username") _
        λ name _.
          Settled-lift v (IsAdministered (v.view s)) s (get_required_dataset_value request "roleId")
            _
            λ role _.
              ensures-bind_if (is_blank (get_optional_dataset_value request "password")) _ _ _ s
                (ensures_assoc (r.users.get_by_field "id" id) kept_password _ s (
                  ensures-get_by_field d.users "id" id _ s refl (
                    kept_password-Administers _ _ λ password.
                      Written-Settled v (IsAdministered (v.view s)) s _ _ (d.users.update_lem _ s)
                        refl)))
                (ensures-read (pure (get_optional_dataset_value request "password")) s _ refl (
                  Written-Settled v (IsAdministered (v.view s)) s _ _ (d.users.update_lem _ s)
                    refl))

  delete_user-Administers : (id : String) → Administers (delete_user r id)
  unfolding delete_user
  delete_user-Administers id = Settled-throw_if v (IsAdministered (v.view s)) s _ _ _ _ λ _.
      Written-Settled v (IsAdministered (v.view s)) s _ _ (d.users.delete_resource_lem id s) refl

  add_role-Administers : (request : Dataset) → Administers (add_role r request)
  unfolding add_role
  add_role-Administers request =
      Settled-lift v (IsAdministered (v.view s)) s (get_required_dataset_value request "name") _
        λ name _. ensures-get_by_field d.roles "name" name _ s refl (
          ensures-if (is_empty (rows_by d.roles "name" name s))
            (r.roles.add (record { id = ""; name = name }))
            (raise component "Role with this name already exists") s
            (λ _. Written-Settled v (IsAdministered (v.view s)) s _ _ (d.roles.add_lem _ s) refl)
            (λ _. ensures-raise _ _ s refl))

  update_role-Administers :
      (request : Dataset) (id : String) → Administers (update_role r request id)
  unfolding update_role
  update_role-Administers request id = Settled-throw_if v (IsAdministered (v.view s)) s _ _ _ _ λ _.
      Settled-lift v (IsAdministered (v.view s)) s (get_required_dataset_value request "name") _
        λ name _. Written-Settled v (IsAdministered (v.view s)) s _ _ (d.roles.update_lem _ s) refl

  delete_role-Administers : (id : String) → Administers (delete_role r id)
  unfolding delete_role
  delete_role-Administers id = Settled-throw_if v (IsAdministered (v.view s)) s _ _ _ _ λ _.
      Written-Settled v (IsAdministered (v.view s)) s _ _ (d.roles.delete_resource_lem id s) refl

  users_task-Administers : (request : RequestData) → Administers (users_task r request)
  unfolding users_task get_users
  users_task-Administers request =
      ensures-method request.method _ _ _ _ _ s
        (ensures-get_all d.users _ s (ensures-pure _ s refl))
        (Settled-respond v (IsAdministered (v.view s)) s _ (add_user-Administers request.dataset))
        (Settled-respond v (IsAdministered (v.view s)) s _
          (edit_user-Administers request.dataset request.resource_id))
        (Settled-respond v (IsAdministered (v.view s)) s _
          (delete_user-Administers request.resource_id))
        (ensures-raise _ _ s refl)

  roles_task-Administers : (request : RequestData) → Administers (roles_task r request)
  unfolding roles_task get_roles
  roles_task-Administers request =
      ensures-method request.method _ _ _ _ _ s
        (ensures-get_all d.roles _ s (ensures-pure _ s refl))
        (Settled-respond v (IsAdministered (v.view s)) s _ (add_role-Administers request.dataset))
        (Settled-respond v (IsAdministered (v.view s)) s _
          (update_role-Administers request.dataset request.resource_id))
        (Settled-respond v (IsAdministered (v.view s)) s _
          (delete_role-Administers request.resource_id))
        (ensures-raise _ _ s refl)

  -- A request to the users module either succeeds, and then no table but the users and the roles is
  -- another, or throws, and the tables are as they were.
  pub execute_task-IsAdministered :
      (request : RequestData)
      → Settled v
          (IsAdministered (v.view s))
          s
          (execute_task r request s).0
          (execute_task r request s).1
  unfolding execute_task
  execute_task-IsAdministered request =
      (ensures-if (request.submodule == "login" && request.method == "POST") _ _ s
        (λ _. login_user-Administers request.dataset)
        λ _.
          ensures-if (request.submodule == "users") _ _ s (λ _. users_task-Administers request)
            λ _.
              ensures-if (request.submodule == "roles") _ _ s (λ _. roles_task-Administers request)
                (λ _. ensures-raise _ _ s refl)).holds
