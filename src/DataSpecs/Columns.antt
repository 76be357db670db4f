-- ===== src/DataSpecs/Columns.antt =====
-- The columns of the response that a table is sent with.
use sage_store.Prelude.{
  String, ◌≡◌, ◌∙◌, refl, sym, ap, Bool-cases, inl, inr, List, [], ◌∷◌, ◌++◌, foldl, Option, none,
  some, ◌==◌, eq_iff, arith, if◌then◌else◌,
}
use sage_store.Prelude.Assoc.{find, assign, find-assign}
use sage_store.DataSpecs.{
  Data, Dataset, emplace_back, find-emplace_back, grown, empty_columns, emplace_row, table_response,
}

-- The values of a column; a column that is not there has none.
abbrev pub values : Option Data → Data
values none = []
values (some row) = row

abbrev pub column : String → Dataset → Data
column key d = values (find key d)

-- What a row has for a column.
unfoldable pub cells_of : String → List (String × String) → Data
cells_of key [] = []
cells_of key ((k, value) ∷ rest) =
    let others = cells_of key rest in if k == key then value ∷ others else others

-- What all rows have for a column.
unfoldable pub all_cells_of : {E : Type 0} → String → (E → List (String × String)) → List E → Data
all_cells_of key cells [] = []
all_cells_of key cells (e ∷ rest) = cells_of key (cells e) ++ all_cells_of key cells rest

append_assoc : (xs ys zs : Data) → (xs ++ ys) ++ zs ≡ xs ++ (ys ++ zs)
append_assoc [] ys zs = refl
append_assoc (x ∷ xs) ys zs = ap (λ r. x ∷ r) (append_assoc xs ys zs)

append_nil : (xs : Data) → xs ++ [] ≡ xs
append_nil [] = refl
append_nil (x ∷ xs) = ap (λ r. x ∷ r) (append_nil xs)

values-grown : (v : String) (o : Option Data) → grown v o ≡ values o ++ v ∷ []
values-grown v none = refl
values-grown v (some row) = refl

column-emplace_back :
    (k j v : String) (d : Dataset)
    → column j (emplace_back k v d) ≡ column j d ++ cells_of j ((k, v) ∷ [])
unfolding cells_of
column-emplace_back k j v d = ground (
  arith,
  find-emplace_back k j v d,
  values-grown v (find k d),
  eq_iff k j,
  append_nil (column j d),
)

cells_of-cons :
    (j k v : String) (row : List (String × String))
    → cells_of j ((k, v) ∷ []) ++ cells_of j row ≡ cells_of j ((k, v) ∷ row)
unfolding cells_of
cells_of-cons j k v row = elim (Bool-cases (k == j)) [
  | inl same ↦ rw same refl
  | inr other ↦ rw other refl
]

column-emplace_row :
    (j : String) (row : List (String × String)) (d : Dataset)
    → column j (emplace_row d row) ≡ column j d ++ cells_of j row
unfolding emplace_row cells_of
column-emplace_row j [] d = sym (append_nil (column j d))
column-emplace_row j ((k, v) ∷ row) d =
    column-emplace_row j row (emplace_back k v d)
    ∙ ap (λ c. c ++ cells_of j row) (column-emplace_back k j v d)
    ∙ append_assoc (column j d) (cells_of j ((k, v) ∷ [])) (cells_of j row)
    ∙ ap (λ c. column j d ++ c) (cells_of-cons j k v row)

abbrev no_values : Data
no_values = []

column-assign_empty :
    (j key : String) (d : Dataset) → column j d ≡ [] → column j (assign key [] d) ≡ []
column-assign_empty j key d h = ground (arith, find-assign key j no_values d)

column-empty_columns :
    (j : String) (keys : List String) (d : Dataset)
    → column j d ≡ []
    → column j (foldl (λ d key. assign key [] d) d keys) ≡ []
column-empty_columns j [] d h = h
column-empty_columns j (key ∷ keys) d h =
    column-empty_columns j keys (assign key [] d) (column-assign_empty j key d h)

module _ {E : Type 0} (j : String) (cells : E → List (String × String)) where
  column-rows :
      (es : List E) (d : Dataset)
      → column j (foldl (λ d e. emplace_row d (cells e)) d es)
        ≡ column j d ++ all_cells_of j cells es
  unfolding all_cells_of
  column-rows [] d = sym (append_nil (column j d))
  column-rows (e ∷ es) d =
      column-rows es (emplace_row d (cells e))
      ∙ ap (λ c. c ++ all_cells_of j cells es) (column-emplace_row j (cells e) d)
      ∙ append_assoc (column j d) (cells_of j (cells e)) (all_cells_of j cells es)

  -- A column of the response of a table is what its rows have for it, in their order; a key that no
  -- row has a cell for is a column without values.
  pub column-table_response :
      (keys : List String) (es : List E)
      → column j (table_response keys cells es).dataset ≡ all_cells_of j cells es
  unfolding table_response empty_columns
  column-table_response keys es =
      column-rows es (empty_columns keys)
      ∙ ap (λ c. c ++ all_cells_of j cells es)
          (column-empty_columns j keys [] (unfold find in refl))
