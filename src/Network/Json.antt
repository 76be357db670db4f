-- ===== src/Network/Json.antt =====
-- _common/src/Network/JsonSerializer.cpp, over the values of nlohmann's library, which is a parameter.
pub mod Laws
use sage_store.Prelude.{String, Bool, List, [], ◌∷◌, Option, none, some, map, if◌then◌else◌}
use sage_store.Prelude.Assoc.{assign}
use sage_store.Exec.{Result, ok}
use sage_store.DataSpecs.{Data, Dataset}
use sage_store.Network.{IDataSerializer, has_non_whitespace}

-- `nlohmann::json`; `braces` is `json({})`, `set` is `object[key] = value`, `dump` can throw, `parse`
-- gives a discarded value for what is no JSON, and `get_string` throws for what is no string.
pub record Json (J : Type 0) : Type 0 where
  pub null : J
  pub braces : J
  pub from_string : String → J
  pub from_array : List J → J
  pub set : String → J → J → J
  pub dump : J → Result String
  pub parse : String → J
  pub is_object : J → Bool
  pub is_array : J → Bool
  pub items : J → List (String × J)
  pub elements : J → List J
  pub get_string : J → Option String

module _ {J : Type 0} (json : Json J) where
  -- `jsonRow`
  unfoldable pub row_of : Data → J
  row_of cells = json.from_array (map json.from_string cells)

  -- An `std::unordered_map` has no order of its own: the columns are set from the last to the first.
  unfoldable pub object_of : Dataset → J
  unfolding row_of
  object_of [] = json.null
  object_of ((key, cells) ∷ rest) = json.set key (row_of cells) (object_of rest)

  unfoldable pub value_of : Dataset → J
  unfolding object_of
  value_of [] = json.braces
  value_of (column ∷ rest) = object_of (column ∷ rest)

  -- A cell that is no string is skipped.
  unfoldable pub strings_of : List J → Data
  strings_of [] = []
  strings_of (cell ∷ cells) =
      let others = strings_of cells in
      elim (json.get_string cell) [ none ↦ others | some text ↦ text ∷ others ]

  -- A member that is no array is skipped; the keys of an object differ, so the order does not count.
  unfoldable pub read_members : List (String × J) → Dataset
  unfolding strings_of assign
  read_members [] = []
  read_members ((key, row) ∷ rest) =
      let others = read_members rest in
      if json.is_array row then assign key (strings_of (json.elements row)) others else others

  unfoldable pub dataset_of : J → Dataset
  unfolding read_members
  dataset_of value = if json.is_object value then read_members (json.items value) else []

  unfoldable pub json_serializer : IDataSerializer
  unfolding value_of dataset_of has_non_whitespace
  json_serializer = record {
    serialize = λ dataset. json.dump (value_of dataset);
    deserialize = λ text. ok (if has_non_whitespace text then dataset_of (json.parse text) else []);
  }
