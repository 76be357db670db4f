-- ===== src/Client/Tables.antt =====
-- ApiManager.cpp: how every handler reads a table, column by column, from the dataset of a response.
pub mod Listed
use sage_store.Prelude.{
  ℕ, zero, suc, String, Bool, true, ◌&&◌, leb, List, [], ◌∷◌, Option, none, some, length, map,
  if◌then◌else◌,
}
use sage_store.Prelude.Assoc.{find}
use sage_store.DataSpecs.{Data, Dataset}
use sage_store.Client.Signals.{Signal, error_occurred}

-- The values at the iterators of the columns.
abbrev pub Row : Type 0
Row = List String

unfoldable pub cell : ℕ → Row → String
cell n [] = ""
cell zero (x ∷ row) = x
cell (suc n) (x ∷ row) = cell n row

abbrev pub add_column : Option Data → Option (List Data) → Option (List Data)
add_column none _ = none
add_column (some _) none = none
add_column (some column) (some columns) = some (column ∷ columns)

-- `dataset.at(key)` for each key; a missing key throws `std::out_of_range`
unfoldable pub columns_at : List String → Dataset → Option (List Data)
unfolding find
columns_at [] d = some []
columns_at (key ∷ keys) d = add_column (find key d) (columns_at keys d)

unfoldable pub have_size : ℕ → List Data → Bool
have_size n [] = true
have_size n (column ∷ columns) =
    leb (length column) n && leb n (length column) && have_size n columns

abbrev pub value_at : Data → String
value_at [] = ""
value_at (x ∷ _) = x

abbrev pub advance : Data → Data
advance [] = []
advance (_ ∷ xs) = xs

-- `while (idIt != idList.end())`: as many rows as the first column has values
unfoldable pub rows_of : ℕ → List Data → List Row
rows_of zero columns = []
rows_of (suc n) columns = map value_at columns ∷ rows_of n (map advance columns)

abbrev item_count : List Data → ℕ
item_count [] = 0
item_count (column ∷ _) = length column

module _ {E : Type 0} (missing different : String) where
  read_rows : Option (List Data) → (Row → E) → (List E → Signal) → Signal
  unfolding have_size rows_of
  read_rows none entity signal = error_occurred missing
  read_rows (some columns) entity signal =
      if have_size (item_count columns) columns
      then signal (map entity (rows_of (item_count columns) columns))
      else error_occurred different

  unfoldable pub read_table : List String → Dataset → (Row → E) → (List E → Signal) → Signal
  unfolding columns_at read_rows
  read_table keys d entity signal = read_rows (columns_at keys d) entity signal
