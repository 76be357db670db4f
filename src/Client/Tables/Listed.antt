-- ===== src/Client/Tables/Listed.antt =====
-- The client reads a table as the server has sent it.
use sage_store.Prelude.{
  ℕ, suc, String, Bool, true, false, ◌≡◌, ◌∙◌, refl, ap, List, [], ◌∷◌, ◌++◌, foldl, Option, none,
  some, length, map, arith,
}
use sage_store.Prelude.Assoc.{find}
use sage_store.DataSpecs.{
  Data, Dataset, emplace_back, find-emplace_back, empty_columns, emplace_row, table_response,
}
use sage_store.DataSpecs.Columns.{column, cells_of, all_cells_of, column-table_response}
use sage_store.Client.Signals.{Signal}
use sage_store.Client.Tables.{
  Row, columns_at, have_size, rows_of, value_at, advance, item_count, read_rows, read_table,
}

-- Two datasets that are read alike.
abbrev pub SameLookups : Dataset → Dataset → Type 0
SameLookups d d' = (key : String) → find key d ≡ find key d'

abbrev is_some : Option Data → Bool
is_some none = false
is_some (some _) = true

find-is_some : (j : String) (d : Dataset) → is_some (find j d) ≡ true → find j d ≡ some (column j d)
find-is_some j d h = ground arith

is_some-emplace_back :
    (j k v : String) (d : Dataset)
    → is_some (find j d) ≡ true
    → is_some (find j (emplace_back k v d)) ≡ true
is_some-emplace_back j k v d h = ground (arith, find-emplace_back k j v d)

is_some-emplace_row :
    (j : String) (row : List (String × String)) (d : Dataset)
    → is_some (find j d) ≡ true
    → is_some (find j (emplace_row d row)) ≡ true
unfolding emplace_row
is_some-emplace_row j [] d h = h
is_some-emplace_row j ((k, v) ∷ row) d h =
    is_some-emplace_row j row _ (is_some-emplace_back j k v d h)

columns_at-cons :
    (key : String) (keys : List String) (d : Dataset) (c : Data) (cs : List Data)
    → find key d ≡ some c
    → columns_at keys d ≡ some cs
    → columns_at (key ∷ keys) d ≡ some (c ∷ cs)
unfolding columns_at
columns_at-cons key keys d c cs h h' = rw (h, h') refl

read_rows-have_size :
    {E : Type 0} (missing different : String) (n : ℕ) (columns : List Data) (entity : Row → E)
    (signal : List E → Signal)
    → item_count columns ≡ n
    → have_size n columns ≡ true
    → read_rows missing different (some columns) entity signal
      ≡ signal (map entity (rows_of n columns))
unfolding read_rows
read_rows-have_size missing different n columns entity signal h h' = rw h (rw h' refl)

module _ {E : Type 0} where
  is_some-rows :
      (j : String) (cells : E → List (String × String)) (es : List E) (d : Dataset)
      → is_some (find j d) ≡ true
      → is_some (find j (foldl (λ d e. emplace_row d (cells e)) d es)) ≡ true
  is_some-rows j cells [] d h = h
  is_some-rows j cells (e ∷ es) d h =
      is_some-rows j cells es _ (is_some-emplace_row j (cells e) d h)

  one_cell :
      (key : String) (cells : E → List (String × String)) (field : E → String)
      → ((e : E) → cells_of key (cells e) ≡ field e ∷ [])
      → (es : List E) → all_cells_of key cells es ≡ map field es
  unfolding all_cells_of
  one_cell key cells field h [] = refl
  one_cell key cells field h (e ∷ es) =
      ap (λ c. c ++ all_cells_of key cells es) (h e)
      ∙ ap (λ c. field e ∷ c) (one_cell key cells field h es)

  length-map : (field : E → String) (es : List E) → length (map field es) ≡ length es
  length-map field [] = refl
  length-map field (e ∷ es) = ap suc (length-map field es)

  have_size-map :
      (fields : List (E → String)) (es : List E)
      → have_size (length es) (map (λ f. map f es) fields) ≡ true
  unfolding have_size
  have_size-map [] es = refl
  have_size-map (f ∷ fields) es = ground (arith, length-map f es, have_size-map fields es)

  first_values :
      (fields : List (E → String)) (e : E) (es : List E)
      → map value_at (map (λ f. map f (e ∷ es)) fields) ≡ map (λ f. f e) fields
  first_values [] e es = refl
  first_values (f ∷ fields) e es = ap (λ r. f e ∷ r) (first_values fields e es)

  later_values :
      (fields : List (E → String)) (e : E) (es : List E)
      → map advance (map (λ f. map f (e ∷ es)) fields) ≡ map (λ f. map f es) fields
  later_values [] e es = refl
  later_values (f ∷ fields) e es = ap (λ r. map f es ∷ r) (later_values fields e es)

  rows_of-map :
      (fields : List (E → String)) (es : List E)
      → rows_of (length es) (map (λ f. map f es) fields) ≡ map (λ e. map (λ f. f e) fields) es
  unfolding rows_of
  rows_of-map fields [] = refl
  rows_of-map fields (e ∷ es) =
      rw (first_values fields e es, later_values fields e es, rows_of-map fields es) refl

  map_all :
      (entity : Row → E) (row : E → Row) (shown : E → E)
      → ((e : E) → entity (row e) ≡ shown e)
      → (es : List E) → map entity (map row es) ≡ map shown es
  map_all entity row shown h [] = refl
  map_all entity row shown h (e ∷ es) = rw (h e) (rw (map_all entity row shown h es) refl)

  pub map_id : (es : List E) → map (λ e. e) es ≡ es
  map_id [] = refl
  map_id (e ∷ es) = ap (λ r. e ∷ r) (map_id es)

  module _ (keys : List String) (cells : E → List (String × String)) where
    -- Each key has its own column, with the field's value in every row.
    unfoldable pub Fits : List (String × (E → String)) → Type 0
    Fits [] = Unit {0}
    Fits ((key, field) ∷ rest) =
        ((e : E) → cells_of key (cells e) ≡ field e ∷ [])
        × (is_some (find key (empty_columns keys)) ≡ true)
        × Fits rest

    find-table_response :
        (key : String) (field : E → String)
        → ((e : E) → cells_of key (cells e) ≡ field e ∷ [])
        → is_some (find key (empty_columns keys)) ≡ true
        → (es : List E) → find key (table_response keys cells es).dataset ≡ some (map field es)
    unfolding table_response
    find-table_response key field h there es =
        find-is_some key _ (is_some-rows key cells es _ there)
        ∙ ap (λ c. some c)
            (unfold table_response in
              (column-table_response key cells keys es ∙ one_cell key cells field h es))

    columns_at-table_response :
        (fields : List (String × (E → String)))
        → Fits fields
        → (es : List E) (d : Dataset) → SameLookups d (table_response keys cells es).dataset
        → columns_at (map (λ f. f.0) fields) d ≡ some (map (λ f. map f es) (map (λ f. f.1) fields))
    unfolding columns_at Fits
    columns_at-table_response [] h es d alike = refl
    columns_at-table_response ((key, field) ∷ rest) h es d alike =
        columns_at-cons key _ _ _ _ (alike key ∙ find-table_response key field h.0 h.1 es)
          (columns_at-table_response rest h.2 es d alike)

    -- `entity` makes of a row of fields what is shown of the entity.
    pub read_table-table_response :
        (fields : List (String × (E → String))) (missing different : String) (entity : Row → E)
        (signal : List E → Signal) (shown : E → E) (key : String) (field : E → String)
        → Fits ((key, field) ∷ fields)
        → ((e : E) → entity (map (λ f. f e) (map (λ f. f.1) ((key, field) ∷ fields))) ≡ shown e)
        → (es : List E) (d : Dataset) → SameLookups d (table_response keys cells es).dataset
        → read_table missing different (map (λ f. f.0) ((key, field) ∷ fields)) d entity signal
          ≡ signal (map shown es)
    unfolding read_table
    read_table-table_response fields missing different entity signal shown key field h same es d
          alike =
        ap (λ o. read_rows missing different o entity signal)
          (columns_at-table_response ((key, field) ∷ fields) h es d alike)
        ∙ read_rows-have_size missing different (length es) _ entity signal (length-map field es)
            (have_size-map (field ∷ map (λ f. f.1) fields) es)
        ∙ ap (λ rows. signal (map entity rows)) (rows_of-map (field ∷ map (λ f. f.1) fields) es)
        ∙ ap signal (map_all entity _ shown same es)
