-- ===== src/Sql/Laws.antt =====
-- What the repositories rely on of SQLite behind IDatabaseManager, as SQLite documents it, for a
-- statement that reads as one of Sql/Grammar on a table of Sql/Schema. No row was made with a NULL
-- but by these statements, no text holds a NUL, and no SELECT meets a lock or a failing disk. The laws
-- are about tables and columns of the schema, and a rollback about an open transaction.
use sage_store.Prelude.{
  is_blank, ℕ, String, Bool, not, ◌&&◌, leb, length, any, ◌≡◌, true, false, List, [], ◌∷◌, ◌++◌,
  Option, none, some, map, select, ◌==◌, if◌then◌else◌,
}
use sage_store.Prelude.Assoc.{find}
use sage_store.Exec.{Result, ok, err}
use sage_store.Exec.Ensures.{Ensures}
use sage_store.Tables.{Affinity}
use sage_store.Sql.{Row, get_string, QueryResult, done, row, IDatabaseManager}
use sage_store.Sql.Grammar.{
  Value, param, null_if_blank, insert, update_by_id, delete_by_id, select_all, select_by, parse,
}
use sage_store.Sql.Schema.{
  Column, columns_of, all_columns, assign_columns, assign_params, convert, written, has_references,
  defaults, Assigned, schema,
}

-- The rows of every table, by the table's name; the first text of a row is the id.
abbrev pub Database : Type 0
Database = String → List Row

abbrev pub put_table : String → List Row → Database → Database
put_table table rows db name = if name == table then rows else db name

-- The cursor of a SELECT.
unfoldable pub cursor : List Row → QueryResult
cursor [] = done
cursor (r ∷ rest) = row r (cursor rest)

module _ (a : Affinity) where
  abbrev cells_of : Row → Row
  cells_of [] = []
  cells_of (_ ∷ cells) = cells

  -- A comparison with a column behind the id; `r` begins one column before the first of the list.
  unfoldable pub column_matches : List Column → String → String → Row → Bool
  unfolding get_string
  column_matches [] field v r = v == get_string r 0
  column_matches (c ∷ cs) field v r =
      let others = column_matches cs field v (cells_of r) in
      if field == c.name then convert a c.type v == get_string r 1 else others

  unfoldable pub row_matches : String → String → String → Row → Bool
  unfolding column_matches columns_of
  row_matches table field v r =
      if field == "id"
      then a.integer v == get_string r 0
      else column_matches (columns_of table) field v r

  -- `INSERT`, `UPDATE … WHERE id = ?` and `DELETE … WHERE id = ?`
  unfoldable pub inserted : String → String → Assigned → Row
  unfolding columns_of written defaults
  inserted table id assigned =
      id ∷ written a (columns_of table) assigned (defaults (columns_of table))

  unfoldable pub updated : String → String → Assigned → Row → Row
  unfolding columns_of written
  updated table id assigned r =
      if a.integer id == get_string r 0
      then get_string r 0 ∷ written a (columns_of table) assigned (cells_of r)
      else r

  abbrev pub remaining : String → List Row → List Row
  remaining id = select (λ r. not (a.integer id == get_string r 0))

-- `CREATE TABLE` has made the table.
abbrev pub is_made : Option (List Column) → Bool
is_made none = false
is_made (some _) = true

unfoldable pub is_table : String → Bool
unfolding find schema
is_table table = is_made (find table schema)

unfoldable pub is_declared : String → List String → Bool
is_declared field columns = any (λ c. c == field) columns

-- A write gives each of some columns behind the id, which are there and differ, one value, and each
-- value one parameter.
unfoldable pub are_distinct : List String → Bool
unfolding is_declared
are_distinct [] = true
are_distinct (c ∷ cs) = not (is_declared c cs) && are_distinct cs

abbrev pub behind_id : String → List String
behind_id table = map (λ c. c.name) (columns_of table)

-- The one column that statements of the repository make NULL.
unfoldable pub takes_null : String → String → Bool
takes_null table column = table == "Log" && column == "userId"

unfoldable pub nulls_fit : String → List String → List Value → Bool
unfolding takes_null
nulls_fit table (c ∷ cs) (null_if_blank ∷ values) = takes_null table c && nulls_fit table cs values
nulls_fit table (_ ∷ cs) (param ∷ values) = nulls_fit table cs values
nulls_fit table _ _ = true

unfoldable pub is_bound : String → List String → List Value → ℕ → Bool
unfolding are_distinct nulls_fit
is_bound table columns values params =
    is_table table
    && are_distinct columns
    && not (any (λ c. not (is_declared c (behind_id table))) columns)
    && nulls_fit table columns values
    && leb (length columns) (length values)
    && leb (length values) (length columns)
    && leb (length values) params
    && leb params (length values)

-- Every column that an INSERT leaves out has a default.
unfoldable pub is_complete : String → List String → Bool
unfolding is_declared
is_complete table columns =
    not (any (λ c. not (is_declared c.name columns) && is_blank c.default) (columns_of table))

-- How a write ends that is to make the rows of a table these.
abbrev pub Changed :
    Database
    → Option Database
    → String
    → List Row
    → Bool
    → Result (Option QueryResult)
    → Database
    → Option Database
    → Type 0
Changed before saved table rows refers (ok _) after saved' =
    (after ≡ put_table table rows before) × (saved' ≡ saved) × (refers ≡ true)
Changed before saved table rows refers (err _) after saved' = (after ≡ before) × (saved' ≡ saved)

-- A COMMIT that throws leaves the transaction open.
abbrev pub after_commit : Result (Unit {0}) → Option Database → Option Database
after_commit (ok _) saved = none
after_commit (err _) saved = saved

pub record IsSqlite {S : Type 0} (a : Affinity) (db : IDatabaseManager S) : Type 0 where
  pub data_of : S → Database
  -- if a transaction is open, the rows of its beginning
  pub saved_of : S → Option Database
  -- A SELECT of all columns returns the rows.
  pub select_all_lem :
      (q table : String) (s : S)
      → is_table table ≡ true
      → parse q ≡ some (select_all (all_columns table) table)
      → db.execute_query q [] s ≡ (ok (some (cursor (data_of s table))), s)
  pub select_by_lem :
      (q table field v : String) (s : S)
      → is_table table ≡ true
      → is_declared field (all_columns table) ≡ true
      → takes_null table field ≡ false
      → parse q ≡ some (select_by (all_columns table) table field)
      → db.execute_query q (v ∷ []) s
        ≡ (ok (some (cursor (select (row_matches a table field v) (data_of s table)))), s)
  -- AUTOINCREMENT: an id that no row has, as an INTEGER column stores it.
  pub new_id : String → S → String
  pub new_id_unused :
      (table : String) (s : S)
      → select (λ r. a.integer (new_id table s) == get_string r 0) (data_of s table) ≡ []
  pub new_id_stored : (table : String) (s : S) → a.integer (new_id table s) ≡ new_id table s
  -- A write does what it says or throws and does nothing; a foreign key is not blank.
  pub insert_lem :
      (q table : String) (columns : List String) (values : List Value) (params : List String)
      (s : S)
      → is_bound table columns values (length params) ≡ true
      → is_complete table columns ≡ true
      → parse q ≡ some (insert table columns values)
      → Ensures (db.execute_query q params) s (λ o s'.
        Changed
          (data_of s)
          (saved_of s)
          table
          (data_of s table
            ++ inserted a table (new_id table s) (assign_columns columns values params) ∷ [])
          (has_references (columns_of table) (assign_columns columns values params))
          o
          (data_of s')
          (saved_of s'))
  pub update_lem :
      (q table : String) (assignments : List (String × Value)) (params : List String) (id : String)
      (s : S)
      → is_bound table (map (λ x. x.0) assignments) (map (λ x. x.1) assignments) (length params)
        ≡ true
      → parse q ≡ some (update_by_id table assignments)
      → Ensures (db.execute_query q (params ++ id ∷ [])) s (λ o s'.
        Changed
          (data_of s)
          (saved_of s)
          table
          (map (updated a table id (assign_params assignments params)) (data_of s table))
          (has_references (columns_of table) (assign_params assignments params))
          o
          (data_of s')
          (saved_of s'))
  pub delete_lem :
      (q table id : String) (s : S)
      → is_table table ≡ true
      → parse q ≡ some (delete_by_id table)
      → Ensures (db.execute_query q (id ∷ [])) s (λ o s'.
        Changed
          (data_of s)
          (saved_of s)
          table
          (remaining a id (data_of s table))
          true
          o
          (data_of s')
          (saved_of s'))
  -- BEGIN, COMMIT and ROLLBACK
  pub begin_lem :
      (s : S)
      → Ensures db.transactions.begin_transaction s
          (λ o s'. (data_of s' ≡ data_of s) × (o ≡ ok tt → saved_of s' ≡ some (data_of s)))
  pub commit_lem :
      (s : S)
      → Ensures db.transactions.commit_transaction s
          (λ o s'. (data_of s' ≡ data_of s) × (saved_of s' ≡ after_commit o (saved_of s)))
  pub rollback_lem :
      (s : S) (rows : Database)
      → saved_of s ≡ some rows
      → data_of (db.transactions.rollback_transaction s).1 ≡ rows
