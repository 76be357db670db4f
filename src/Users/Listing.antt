-- ===== src/Users/Listing.antt =====
-- What a client is told of the users.
use sage_store.Prelude.{
  String, ◌≡◌, ◌∙◌, refl, ap, false, List, [], ◌∷◌, ◌++◌, map, any, ◌==◌, arith,
}
use sage_store.Exec.{ok, ◌>>=◌}
use sage_store.DataSpecs.{ResponseData, table_response}
use sage_store.DataSpecs.Columns.{column, cells_of, all_cells_of, column-table_response}
use sage_store.Entities.{User}
use sage_store.Repositories.{RepositoryManager}
use sage_store.Tables.{Affinity}
use sage_store.Tables.Laws.{Views, IsDatabase}
use sage_store.Users.{user_keys, user_cells, get_users}

-- The response has these users' ids, names and roles, and nothing else of them.
pub record IsListing (users : List User) (response : ResponseData) : Type 0 where
  pub ids : column "id" response.dataset ≡ map (λ e. e.id) users
  pub names : column "username" response.dataset ≡ map (λ e. e.username) users
  pub roles : column "roleId" response.dataset ≡ map (λ e. e.role_id) users
  pub nothing_else :
      (key : String) → any (λ k. k == key) user_keys ≡ false → column key response.dataset ≡ []

-- A column with one cell in each row.
one_cell :
    (key : String) (cell : User → String)
    → ((e : User) → cells_of key (user_cells e) ≡ cell e ∷ [])
    → (users : List User) → all_cells_of key user_cells users ≡ map cell users
unfolding all_cells_of
one_cell key cell h [] = refl
one_cell key cell h (e ∷ users) =
    ap (λ c. c ++ all_cells_of key user_cells users) (h e)
    ∙ ap (λ c. cell e ∷ c) (one_cell key cell h users)

no_cell :
    (key : String)
    → any (λ k. k == key) user_keys ≡ false
    → (users : List User) → all_cells_of key user_cells users ≡ []
unfolding all_cells_of cells_of any
no_cell key h [] = refl
no_cell key h (e ∷ users) = ground (arith, no_cell key h users)

listing : (users : List User) → IsListing users (table_response user_keys user_cells users)
unfolding cells_of
listing users = record {
  ids =
      column-table_response "id" user_cells user_keys users
      ∙ one_cell "id" (λ e. e.id) (λ e. refl) users;
  names =
      column-table_response "username" user_cells user_keys users
      ∙ one_cell "username" (λ e. e.username) (λ e. refl) users;
  roles =
      column-table_response "roleId" user_cells user_keys users
      ∙ one_cell "roleId" (λ e. e.role_id) (λ e. refl) users;
  nothing_else =
      λ key h. column-table_response key user_cells user_keys users ∙ no_cell key h users;
}

-- The list of users that a client gets has the id, the name and the role of every user, in the order
-- of the table, and no other column has a value, such as that of the passwords; the database is left
-- as it is.
pub get_users-IsListing :
    {S : Type 0} (r : RepositoryManager S) {a : Affinity} {v : Views S} (d : IsDatabase a v r)
    (s : S)
    → (response : ResponseData) × (get_users r s ≡ (ok response, s))
      × IsListing (v.view s).users response
unfolding get_users ◌>>=◌
get_users-IsListing r {v = v} d s = (
  table_response user_keys user_cells (v.view s).users,
  rw (d.users.get_all_lem s) refl,
  listing (v.view s).users,
)
