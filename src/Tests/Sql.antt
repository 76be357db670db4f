-- ===== src/Tests/Sql.antt =====
-- The repositories of RepositoryManager.cpp on a database manager in memory, and the statements of
-- ProductInfoRepository.cpp.
use sage_store.Prelude.{◌≡◌, refl, List, [], ◌∷◌, none}
use sage_store.Prelude.Decimal.{to_string}
use sage_store.Exec.{ok, Exec, ◌>>=◌}
use sage_store.Entities.{Role}
use sage_store.Tables.Laws.{IsDatabase}
use sage_store.Memory.{affinity, top_id}
use sage_store.Memory.Sqlite.{Rows, memory_manager, run_statement, memory_manager-IsSqlite}
use sage_store.Sql.{sql_repository, fetch_all}
use sage_store.Sql.Laws.{inserted, cursor}
use sage_store.Sql.Schema.{written, has_references, assign_columns}
use sage_store.Sql.People.{role_queries}
use sage_store.Sql.Grammar.{parse, tokens}
use sage_store.Sql.Correct.{views_of}
use sage_store.Sql.Products.{product_info_queries}
use sage_store.Sql.Manager.{sql_repositories}
use sage_store.Sql.Manager.Refined.{tables_of, sql_repositories-IsDatabase}

sql_repositories-IsDatabase_example :
    IsDatabase affinity
      (views_of memory_manager-IsSqlite tables_of)
      (sql_repositories memory_manager)
sql_repositories-IsDatabase_example =
    sql_repositories-IsDatabase affinity memory_manager memory_manager-IsSqlite

-- There is no comma between the last two assignments.
update_test : parse product_info_queries.update_query ≡ none
unfolding parse product_info_queries tokens
update_test = refl

abbrev empty_rows : Rows
empty_rows = record { tables = λ _. []; saved = none }

abbrev roles_after_add : Exec Rows (List Role)
roles_after_add s =
    let roles = (sql_repositories memory_manager).roles in
    roles.get_all (roles.add (record { id = ""; name = "clerk" }) s).1

add_role_test : (roles_after_add empty_rows).0 ≡ ok (record { id = "1"; name = "clerk" } ∷ [])
unfolding sql_repositories sql_repository role_queries run_statement parse ◌>>=◌ fetch_all inserted
    written cursor top_id tokens has_references to_string assign_columns
add_role_test = refl
