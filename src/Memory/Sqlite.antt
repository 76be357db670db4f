-- ===== src/Memory/Sqlite.antt =====
-- A database manager that meets Sql/Laws: it reads a statement and does it to the rows in memory. It
-- models no code; it shows that what is assumed of SQLite can hold, and the examples run on it.
use sage_store.Prelude.{
  String, Bool, ◌≡◌, refl, true, false, ◌==◌, List, [], ◌∷◌, ◌++◌, Option, none, some, map, select,
  if◌then◌else◌,
}
use sage_store.Exec.{standard, Result, ok, err, Exec}
use sage_store.Exec.Ensures.{Ensures}
use sage_store.Tables.{Columns}
use sage_store.Tables.Laws.{IsFresh}
use sage_store.Memory.{affinity, integer_text-to_string, next_id}
use sage_store.Memory.Correct.{next_id-IsFresh}
use sage_store.Sql.{Row, get_string, QueryResult, IDatabaseManager}
use sage_store.Sql.Grammar.{
  Statement, insert, update_by_id, delete_by_id, select_all, select_by, parse,
}
use sage_store.Sql.Schema.{columns_of, assign_columns, assign_params, has_references}
use sage_store.Sql.Laws.{
  Database, put_table, cursor, row_matches, inserted, updated, remaining, IsSqlite, Changed,
}

pub record Rows : Type 0 where
  pub tables : Database
  pub saved : Option Database

abbrev row_columns : Columns Row
row_columns = record {
  id = λ r. get_string r 0;
  with_id = λ id r. id ∷ r;
  stored = λ r. r;
  has = λ _. false;
  matches = λ _ v r. affinity.integer v == get_string r 0;
}

abbrev write : String → List Row → Rows → Result (Option QueryResult) × Rows
write table rows s = (ok none, record s { tables = put_table table rows s.tables })

abbrev refused : Rows → Result (Option QueryResult) × Rows
refused s = (err (standard "FOREIGN KEY constraint failed"), s)

-- The parameters before the last, and the last.
unfoldable pub split_last : List String → List String × String
split_last [] = ([], "")
split_last (x ∷ []) = ([], x)
split_last (x ∷ y ∷ rest) = let (before, last) = split_last (y ∷ rest) in (x ∷ before, last)

unfoldable pub run_statement : Option Statement → List String → Exec Rows (Option QueryResult)
unfolding split_last next_id
run_statement none params s = (err (standard "syntax error"), s)
run_statement (some (select_all _ table)) params s = (ok (some (cursor (s.tables table))), s)
run_statement (some (select_by _ table field)) [] s = (err (standard "a parameter is missing"), s)
run_statement (some (select_by _ table field)) (v ∷ _) s =
    (ok (some (cursor (select (row_matches affinity table field v) (s.tables table)))), s)
run_statement (some (delete_by_id _)) [] s = (err (standard "a parameter is missing"), s)
run_statement (some (delete_by_id table)) (id ∷ _) s =
    write table (remaining affinity id (s.tables table)) s
run_statement (some (insert table columns values)) params s =
    let assigned = assign_columns columns values params in
    let rows = s.tables table in
    if has_references (columns_of table) assigned
    then write table (rows ++ inserted affinity table (next_id row_columns rows) assigned ∷ []) s
    else refused s
run_statement (some (update_by_id table assignments)) params s =
    let (before, id) = split_last params in
    let assigned = assign_params assignments before in
    if has_references (columns_of table) assigned
    then write table (map (updated affinity table id assigned) (s.tables table)) s
    else refused s

abbrev pub memory_manager : IDatabaseManager Rows
memory_manager = record {
  execute_query = λ q params. run_statement (parse q) params;
  transactions = record {
    begin_transaction = λ s. (ok tt, record s { saved = some s.tables });
    commit_transaction = λ s. (ok tt, record s { saved = none });
    rollback_transaction = λ s. elim s.saved [
      | none ↦ (err (standard "cannot rollback - no transaction is active"), s)
      | some tables ↦ (ok tt, record { tables = tables; saved = none })
    ];
  };
}

split_last-append :
    (params : List String) (id : String) → split_last (params ++ id ∷ []) ≡ (params, id)
unfolding split_last
split_last-append [] id = refl
split_last-append (x ∷ []) id = refl
split_last-append (x ∷ y ∷ rest) id = rw (split_last-append (y ∷ rest) id) refl

next_row_id : (rows : List Row) → IsFresh row_columns (next_id row_columns rows) [] rows
unfolding get_string
next_row_id rows = next_id-IsFresh row_columns (λ _ _. refl) (λ _ _. refl) [] rows

next_row_id-stored :
    (rows : List Row) → affinity.integer (next_id row_columns rows) ≡ next_id row_columns rows
unfolding next_id
next_row_id-stored rows = integer_text-to_string _

write_or_refuse :
    (table : String) (rows : List Row) (b : Bool) (s : Rows)
    → Ensures
        (λ s. if b then write table rows s else refused s)
        s
        (λ o s'. Changed s.tables s.saved table rows b o s'.tables s'.saved)
write_or_refuse table rows true s = record { holds = (refl, refl, refl) }
write_or_refuse table rows false s = record { holds = (refl, refl) }

pub memory_manager-IsSqlite : IsSqlite affinity memory_manager
unfolding run_statement
memory_manager-IsSqlite = record {
  data_of = λ s. s.tables;
  saved_of = λ s. s.saved;
  select_all_lem = λ q table s _ h. rw h refl;
  select_by_lem = λ q table field v s _ _ _ h. rw h refl;
  new_id = λ table s. next_id row_columns (s.tables table);
  new_id_unused = λ table s. (next_row_id (s.tables table)).unused;
  new_id_stored = λ table s. next_row_id-stored (s.tables table);
  insert_lem = λ q table columns values params s _ _ h.
      rw h (record { holds = (write_or_refuse table _ _ s).holds });
  update_lem = λ q table assignments params id s _ h.
      rw h (record { holds = rw split_last-append (write_or_refuse table _ _ s).holds });
  delete_lem = λ q table id s _ h. rw h (record { holds = (refl, refl, refl) });
  begin_lem = λ s. record { holds = (refl, λ _. refl) };
  commit_lem = λ s. record { holds = (refl, refl) };
  rollback_lem = λ s rows h. rw h refl;
}
