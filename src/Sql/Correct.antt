-- ===== src/Sql/Correct.antt =====
-- Database/: a repository whose statements insert, update, delete and select what an entity's
-- columns say is the repository of a table.
use sage_store.Prelude.{
  Option, none, length, String, Bool, true, false, ◌≡◌, refl, sym, ap, ◌∙◌, ◌==◌, eq_refl, List, [],
  ◌∷◌, ◌++◌, map, select, some, if◌then◌else◌, not, arith,
}
use sage_store.Exec.{ok, pure, ◌>>=◌, ◌>>◌}
use sage_store.Exec.Ensures.{Ensures, ensures-bind, ensures-pure}
use sage_store.Tables.{Tables, Affinity, Columns, insert_row, update_rows, delete_rows}
use sage_store.Tables.Laws.{Views, Written, IsTable}
use sage_store.Sql.{Row, get_string, fetch, fetch_all, IDatabaseManager, Queries, sql_repository}
use sage_store.Sql.Grammar.{Value, insert, update_by_id, delete_by_id, select_all, select_by, parse}
use sage_store.Sql.Schema.{
  columns_of, all_columns, assign_columns, assign_params, written, has_references,
}
use sage_store.Sql.Laws.{
  Database, put_table, cursor, row_matches, inserted, updated, remaining, Changed, IsSqlite,
  is_table, is_declared, is_bound, is_complete, takes_null,
}

-- What is to be read off the statements of an entity.
pub record IsMapped {E : Type 0} (a : Affinity) (table : String) (c : Columns E) (q : Queries E)
    : Type 0 where
  pub insert_columns : E → List String
  pub insert_values : E → List Value
  pub parse_add :
      (e : E) → parse (q.add_query e) ≡ some (insert table (insert_columns e) (insert_values e))
  pub assignments : List (String × Value)
  pub parse_update : parse q.update_query ≡ some (update_by_id table assignments)
  pub set_params : E → List String
  pub update_params_lem : (e : E) → q.update_params e ≡ set_params e ++ c.id e ∷ []
  pub parse_delete : parse q.delete_query ≡ some (delete_by_id table)
  pub parse_all : parse q.all_query ≡ some (select_all (all_columns table) table)
  pub parse_by_field :
      (field : String)
      → c.has field ≡ true
      → parse (q.by_field_query field) ≡ some (select_by (all_columns table) table field)
  pub from_inserted :
      (id : String) (e : E)
      → q.from_row (
          inserted a table id
            (assign_columns (insert_columns e) (insert_values e) (q.add_params e)))
        ≡ insert_row c id e
  pub from_updated :
      (e : E) (r : Row) (cells : List String)
      → has_references (columns_of table) (assign_params assignments (set_params e)) ≡ true
      → q.from_row (
          get_string r 0
          ∷ written a (columns_of table) (assign_params assignments (set_params e)) cells)
        ≡ c.with_id (c.id (q.from_row r)) (c.stored e)
  pub matches_lem :
      (field v : String) (r : Row)
      → c.has field ≡ true
      → c.matches field v (q.from_row r) ≡ row_matches a table field v r
  pub has_id : c.has "id" ≡ true
  pub declared : is_table table ≡ true
  pub has_declared :
      (field : String) → c.has field ≡ true → is_declared field (all_columns table) ≡ true
  pub has_filled : (field : String) → c.has field ≡ true → takes_null table field ≡ false
  pub add_bound :
      (e : E) → is_bound table (insert_columns e) (insert_values e) (length (q.add_params e)) ≡ true
  pub add_complete : (e : E) → is_complete table (insert_columns e) ≡ true
  pub update_bound :
      (e : E)
      → is_bound table
          (map (λ x. x.0) assignments)
          (map (λ x. x.1) assignments)
          (length (set_params e))
        ≡ true

module _ {E : Type 0} (f : Row → E) where
  fetch-cursor : (rows : List Row) → fetch f (cursor rows) ≡ ok (map f rows)
  unfolding fetch cursor
  fetch-cursor [] = refl
  fetch-cursor (r ∷ rows) = rw (fetch-cursor rows) refl

  select-map :
      (p : E → Bool) (p' : Row → Bool)
      → ((r : Row) → p (f r) ≡ p' r)
      → (rows : List Row) → select p (map f rows) ≡ map f (select p' rows)
  unfolding select
  select-map p p' same [] = refl
  select-map p p' same (r ∷ rows) = rw (same r) (ground (arith, select-map p p' same rows))

  map_commutes :
      (g : E → E) (g' : Row → Row)
      → ((r : Row) → g (f r) ≡ f (g' r))
      → (rows : List Row) → map g (map f rows) ≡ map f (map g' rows)
  map_commutes g g' same [] = refl
  map_commutes g g' same (r ∷ rows) = rw (same r) (rw (map_commutes g g' same rows) refl)

  map-append : (rows more : List Row) → map f (rows ++ more) ≡ map f rows ++ map f more
  map-append [] more = refl
  map-append (r ∷ rows) more = ap (λ rest. f r ∷ rest) (map-append rows more)

if_commutes :
    {E : Type 0} (f : Row → E) (b : Bool) (x y : Row) (z : E)
    → f x ≡ z
    → (if b then z else f y) ≡ f (if b then x else y)
if_commutes f true x y z e = sym e
if_commutes f false x y z e = refl

-- The tables that saved rows stand for.
abbrev pub shown : (Database → Tables) → Option Database → Option Tables
shown f none = none
shown f (some d) = some (f d)

pub shown-some :
    (f : Database → Tables) (saved : Option Database) (t : Tables) (d : Database)
    → ((rows : Database) → saved ≡ some rows → d ≡ rows)
    → shown f saved ≡ some t
    → f d ≡ t
shown-some f none t d h e = absurd (cc e)
shown-some f (some rows) t d h e = rw (h rows refl) (cc e)

module _ {S : Type 0} {a : Affinity} {db : IDatabaseManager S} (l : IsSqlite a db)
    (tables_of : Database → Tables) where
  abbrev pub views_of : Views S
  views_of = record {
    view = λ s. tables_of (l.data_of s);
    saved = λ s. shown tables_of (l.saved_of s);
  }

  module _ {E : Type 0} {table : String} {c : Columns E} {q : Queries E}
      (m : IsMapped a table c q) where
    id_lem :
        (id : String) (r : Row)
        → c.matches "id" id (q.from_row r) ≡ (a.integer id == get_string r 0)
    unfolding row_matches
    id_lem id r = m.matches_lem "id" id r m.has_id

    found_lem :
        (e : E) (s : S)
        → c.matches "id" (l.new_id table s) (insert_row c (l.new_id table s) e) ≡ true
    unfolding inserted get_string
    found_lem e s =
        rw (← m.from_inserted (l.new_id table s) e)
          (rw id_lem (rw (l.new_id_stored table s) (eq_refl _)))

    updated_rows :
        (e : E) (rows : List Row)
        → has_references (columns_of table) (assign_params m.assignments (m.set_params e)) ≡ true
        → map q.from_row
            (map (updated a table (c.id e) (assign_params m.assignments (m.set_params e))) rows)
          ≡ update_rows c e (map q.from_row rows)
    unfolding update_rows updated
    updated_rows e rows h = sym (
        map_commutes q.from_row _ _
          (λ r. rw id_lem (if_commutes q.from_row _ _ _ _ (m.from_updated e r _ h))) rows)

    deleted_rows :
        (id : String) (rows : List Row)
        → map q.from_row (remaining a id rows) ≡ delete_rows c id (map q.from_row rows)
    unfolding delete_rows
    deleted_rows id rows = sym (select-map q.from_row _ _ (λ r. ap not (id_lem id r)) rows)

    module _ (get : Tables → List E) (put : List E → Tables → Tables)
        (get_lem : (d : Database) → get (tables_of d) ≡ map q.from_row (d table))
        (put_lem : (rows : List Row) (d : Database)
          → tables_of (put_table table rows d) ≡ put (map q.from_row rows) (tables_of d)) where
      -- A statement that makes the rows of the table `rows` makes the tables those with `entities`.
      write_lem :
          (text : String) (params : List String) (rows : List Row) (refers : Bool)
          (entities : List E) (s : S)
          → Ensures (db.execute_query text params) s (λ o s'.
            Changed (l.data_of s) (l.saved_of s) table rows refers o (l.data_of s') (l.saved_of s'))
          → (refers ≡ true → map q.from_row rows ≡ entities)
          → Ensures
              (db.execute_query text params >> pure tt)
              s
              (Written views_of (put entities (tables_of (l.data_of s))) s)
      write_lem text params rows refers entities s h same =
          ensures-bind (db.execute_query text params) s _ h
            (λ e s' w. (ap tables_of w.0, ap (shown tables_of) w.1))
            (λ o s' w. ensures-pure tt s' (
              ap tables_of w.0
                  ∙ (put_lem rows (l.data_of s)
                      ∙ ap (λ es. put es (tables_of (l.data_of s))) (same w.2)),
              ap (shown tables_of) w.1,
            ))

      pub sql_repository-IsTable : IsTable views_of get put c (sql_repository q db)
      unfolding sql_repository fetch_all ◌>>=◌
      sql_repository-IsTable = record {
        get_all_lem = λ s.
            rw (l.select_all_lem q.all_query table s m.declared m.parse_all, fetch-cursor, get_lem)
              refl;
        get_by_field_lem = λ field v s h.
            rw
              (
                l.select_by_lem (q.by_field_query field) table field v s m.declared
                    (m.has_declared field h) (m.has_filled field h) (m.parse_by_field field h),
                fetch-cursor,
                get_lem,
              )
              (rw
                (select-map q.from_row (c.matches field v) (row_matches a table field v)
                  (λ r. m.matches_lem field v r h))
                refl);
        new_id = λ _ s. l.new_id table s;
        new_id_fresh = λ e s. record {
          unused =
              rw
                (
                  get_lem,
                  select-map q.from_row _ _ (id_lem (l.new_id table s)),
                  l.new_id_unused table s,
                )
                refl;
          found = found_lem e s;
        };
        add_lem = λ e s.
            write_lem _ _ _ _ _ s
              (l.insert_lem _ table _ _ (q.add_params e) s (m.add_bound e) (m.add_complete e)
                (m.parse_add e))
              (λ _.
                map-append q.from_row (l.data_of s table) (
                  inserted a table (l.new_id table s)
                    (assign_columns (m.insert_columns e) (m.insert_values e) (q.add_params e))
                  ∷ [])
                ∙ rw (m.from_inserted, get_lem) refl);
        update_lem = λ e s.
            write_lem _ (q.update_params e)
              (map (updated a table (c.id e) (assign_params m.assignments (m.set_params e)))
                (l.data_of s table))
              (has_references (columns_of table) (assign_params m.assignments (m.set_params e)))
              (update_rows c e (get (tables_of (l.data_of s)))) s
              (rw m.update_params_lem (
                l.update_lem _ table _ (m.set_params e) (c.id e) s (m.update_bound e)
                  m.parse_update))
              (λ h. updated_rows e _ h ∙ rw get_lem refl);
        delete_resource_lem = λ id s.
            write_lem _ _ _ _ _ s (l.delete_lem _ table id s m.declared m.parse_delete)
              (λ _. deleted_rows id _ ∙ rw get_lem refl);
      }
