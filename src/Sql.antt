-- ===== src/Sql.antt =====
-- Database/IDatabaseManager.hpp, and what every repository of Database/ has in common: a statement
-- with `?` for its parameters is executed, and the rows of a query are read one by one. The database
-- manager is a parameter; Sql/Laws says what is relied on of it.
pub mod Grammar
pub mod Schema
pub mod Laws
pub mod People
pub mod Products
pub mod Orders
pub mod Correct
pub mod Mapped
pub mod Manager
use sage_store.Prelude.{
  ℕ, zero, suc, String, Bool, List, [], ◌∷◌, Option, none, some, is_blank, if◌then◌else◌,
}
use sage_store.Exec.{Exception, Result, ok, err, and_then, Exec, pure, lift, ◌>>=◌, ◌>>◌}
use sage_store.Repositories.{Transactions, IRepository}

-- The texts of a row; NULL is read as the empty text.
abbrev pub Row : Type 0
Row = List String

-- `getString(columnIndex)`: there is no text where there is no column.
unfoldable pub get_string : Row → ℕ → String
get_string [] n = ""
get_string (x ∷ row) zero = x
get_string (x ∷ row) (suc n) = get_string row n

-- `IQueryResult`: each `next()` gives a row, the end, or an exception.
pub data QueryResult : Type 0 where
  done : QueryResult
  row : Row → QueryResult → QueryResult
  failed : Exception → QueryResult

-- `IDatabaseManager`; the result of what is not a SELECT is a null pointer.
pub record IDatabaseManager (S : Type 0) : Type 0 where
  pub execute_query : String → List String → Exec S (Option QueryResult)
  pub transactions : Transactions S

module _ {E : Type 0} (from_row : Row → E) where
  -- `while (result->next()) entities.emplace_back(fromCurrentRow(result));`
  unfoldable pub fetch : QueryResult → Result (List E)
  fetch done = ok []
  fetch (row r rest) = and_then (fetch rest) λ others. ok (from_row r ∷ others)
  fetch (failed e) = err e

  -- `while (result && result->next()) …`
  unfoldable pub fetch_all : Option QueryResult → Result (List E)
  unfolding fetch
  fetch_all none = ok []
  fetch_all (some result) = fetch result

-- The statements of a repository and their parameters, and how it reads a row.
pub record Queries (E : Type 0) : Type 0 where
  pub add_query : E → String
  pub add_params : E → List String
  pub update_query : String
  pub update_params : E → List String
  pub delete_query : String
  pub by_field_query : String → String
  pub all_query : String
  pub from_row : Row → E

-- The methods of a repository, which are those of every repository but for its queries.
unfoldable pub sql_repository : {S E : Type 0} → Queries E → IDatabaseManager S → IRepository S E
sql_repository q db = record {
  add = λ e. db.execute_query (q.add_query e) (q.add_params e) >> pure tt;
  update = λ e. db.execute_query q.update_query (q.update_params e) >> pure tt;
  delete_resource = λ id. db.execute_query q.delete_query (id ∷ []) >> pure tt;
  get_by_field = λ field value. db.execute_query (q.by_field_query field) (value ∷ []) >>= λ result.
      lift (fetch_all q.from_row result);
  get_all = db.execute_query q.all_query [] >>= λ result. lift (fetch_all q.from_row result);
}
