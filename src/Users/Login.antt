-- ===== src/Users/Login.antt =====
-- Who can log in.
use sage_store.Prelude.{
  String, ◌≡◌, ◌↔◌, refl, false, List, [], ◌∷◌, ◌==◌, eq_iff, is_blank, arith, select,
}
use sage_store.Exec.{ok, ◌>>=◌}
use sage_store.Entities.{User}
use sage_store.DataSpecs.{Dataset, ResponseData}
use sage_store.Repositories.{RepositoryManager}
use sage_store.ModuleUtils.{get_optional_dataset_value}
use sage_store.Tables.{Affinity}
use sage_store.Tables.Laws.{Views, IsDatabase}
use sage_store.Users.{get_required_dataset_value, login_response, checked_login, login_user}

-- The name finds the user first, the password is the user's, and both are given.
pub record IsLogin (request : Dataset) (users : List User) (user : User) : Type 0 where
  pub others : List User
  pub named :
      select (λ e. get_optional_dataset_value request "username" == e.username) users
      ≡ user ∷ others
  pub password : user.password ≡ get_optional_dataset_value request "password"
  pub name_given : is_blank (get_optional_dataset_value request "username") ≡ false
  pub password_given : is_blank (get_optional_dataset_value request "password") ≡ false

module _ {S : Type 0} (r : RepositoryManager S) {a : Affinity} {v : Views S}
    (d : IsDatabase a v r) where
  checked_login_ok :
      (users : List User) (password : String) (s : S) (response : ResponseData)
      → (checked_login users password s).0 ≡ ok response
      → (user : User) × (others : List User) × (users ≡ user ∷ others)
        × (user.password ≡ password)
        × (response ≡ login_response user)
  unfolding checked_login
  checked_login_ok [] password s response h = absurd (cc h)
  checked_login_ok (user ∷ others) password s response h =
      (user, others, refl, ground (arith, eq_iff user.password password), ground (arith))

  login_user_given :
      (request : Dataset) (s : S)
      → is_blank (get_optional_dataset_value request "username") ≡ false
      → is_blank (get_optional_dataset_value request "password") ≡ false
      → login_user r request s
        ≡ checked_login
            (select
              (λ e. get_optional_dataset_value request "username" == e.username)
              (v.view s).users)
            (get_optional_dataset_value request "password")
            s
  unfolding login_user get_required_dataset_value ◌>>=◌
  login_user_given request s name password =
      rw name (rw password (rw (d.users.get_by_field_lem "username" _ s refl) refl))

  login_user_blank :
      (request : Dataset) (s : S) (response : ResponseData)
      → (login_user r request s).0 ≡ ok response
      → (is_blank (get_optional_dataset_value request "username") ≡ false)
        × (is_blank (get_optional_dataset_value request "password") ≡ false)
  unfolding login_user get_required_dataset_value ◌>>=◌
  login_user_blank request s response h = ground arith

  -- A login returns a response exactly if it is the answer to a user that the request names first,
  -- with the password of that user.
  pub login_user_iff :
      (request : Dataset) (s : S) (response : ResponseData)
      → ((login_user r request s).0 ≡ ok response)
        ↔ ((user : User) × IsLogin request (v.view s).users user × (response ≡ login_response user))
  unfolding checked_login
  login_user_iff request s response = (forth, back)
    where
      forth :
          (login_user r request s).0 ≡ ok response
          → (user : User) × IsLogin request (v.view s).users user × (response ≡ login_response user)
      forth h =
          let given = login_user_blank request s response h in
          let checked = rw (login_user_given request s given.0 given.1) at h in
          let (user, others, named, password, answer) = checked_login_ok _ _ s response checked in
          (
            user,
            record {
              others = others;
              named = named;
              password = password;
              name_given = given.0;
              password_given = given.1;
            },
            answer,
          )

      back :
          ((user : User) × IsLogin request (v.view s).users user × (response ≡ login_response user))
          → (login_user r request s).0 ≡ ok response
      back (user, login, answer) =
          rw (login_user_given request s login.name_given login.password_given) (
            rw login.named (
              ground (
                arith,
                login.password,
                eq_iff user.password (get_optional_dataset_value request "password"),
              )))
