-- ===== src/DataSpecs.antt =====
-- The types that the network, the business logic and the modules exchange
-- (_common/include/common/DataTypes.hpp and _server/src/DataSpecs.hpp). A `std::unordered_map` is
-- read by its keys alone, so it is an association list here.
pub mod Columns
use sage_store.Prelude.{
  String, List, [], ◌∷◌, ◌++◌, foldl, Option, none, some, ◌==◌, if◌then◌else◌, ◌≡◌, refl, arith,
  eq_iff,
}
use sage_store.Prelude.Assoc.{find, assign}

abbrev pub Data : Type 0
Data = List String

abbrev pub Dataset : Type 0
Dataset = List (String × Data)

-- `dataset[key].emplace_back(value)`: a key that is not there is made first
unfoldable pub emplace_back : String → String → Dataset → Dataset
emplace_back key value [] = (key, value ∷ []) ∷ []
emplace_back key value ((k, row) ∷ rest) =
    if k == key then (k, row ++ value ∷ []) ∷ rest else (k, row) ∷ emplace_back key value rest

pub record RequestData : Type 0 where
  pub module_name : String
  pub submodule : String
  pub method : String
  pub resource_id : String
  pub dataset : Dataset

pub record ResponseData : Type 0 where
  pub dataset : Dataset

-- `return {};`
abbrev pub empty_response : ResponseData
empty_response = record { dataset = [] }

-- What one more value does to the column that `find` gives.
abbrev pub grown : String → Option Data → Data
grown v none = v ∷ []
grown v (some row) = row ++ v ∷ []

pub find-emplace_back :
    (k j v : String) (d : Dataset)
    → find j (emplace_back k v d) ≡ (if k == j then some (grown v (find k d)) else find j d)
unfolding find emplace_back
find-emplace_back k j v [] = refl
find-emplace_back k j v ((i, old) ∷ d) =
    ground (arith, eq_iff k j, eq_iff i k, eq_iff i j, find-emplace_back k j v d)

-- The columns of a table that is sent to the client: every key is there, also with no row.
unfoldable pub empty_columns : List String → Dataset
unfolding assign
empty_columns = foldl (λ d key. assign key [] d) []

-- One row: a value at the end of each column.
unfoldable pub emplace_row : Dataset → List (String × String) → Dataset
unfolding emplace_back
emplace_row = foldl (λ d cell. emplace_back cell.0 cell.1 d)

-- `response.dataset[key] = {}` for every key, then a row for every entity.
unfoldable pub table_response :
    {E : Type 0} → List String → (E → List (String × String)) → List E → ResponseData
unfolding empty_columns emplace_row
table_response keys cells entities = record {
  dataset = foldl (λ d e. emplace_row d (cells e)) (empty_columns keys) entities;
}
