-- ===== src/Network/Json/Laws.antt =====
-- What JsonSerializer.cpp relies on of nlohmann's library, as its documentation has it, and the round
-- trip of a dataset.
use sage_store.Prelude.{
  any, not, ◌&&◌, String, Bool, true, ◌≡◌, inl, inr, refl, ap, ◌∙◌, sym, List, [], ◌∷◌, Option,
  none, some, map, ◌==◌, eq_iff, Bool-cases, if◌then◌else◌,
}
use sage_store.Prelude.Assoc.{find, find-assign}
use sage_store.Exec.{Exception, err, ok, and_then}
use sage_store.DataSpecs.{Data, Dataset}
use sage_store.Network.{has_non_whitespace}
use sage_store.Network.Json.{
  Json, row_of, object_of, value_of, strings_of, read_members, dataset_of, json_serializer,
}

-- All keys and cells are UTF-8.
unfoldable pub are_utf8 : (String → Bool) → Dataset → Bool
are_utf8 is_utf8 [] = true
are_utf8 is_utf8 ((key, cells) ∷ rest) =
    is_utf8 key && not (any (λ cell. not (is_utf8 cell)) cells) && are_utf8 is_utf8 rest

-- No key occurs twice.
unfoldable pub HasDistinctKeys : {A : Type 0} → List (String × A) → Type 0
HasDistinctKeys [] = Unit {0}
HasDistinctKeys ((key, _) ∷ rest) = (find key rest ≡ none) × HasDistinctKeys rest

-- `IsSound` holds of null, of `json({})` and of the objects of arrays of strings.
pub record IsJson {J : Type 0} (json : Json J) : Type 1 where
  pub IsSound : J → Type 0
  pub null_sound : IsSound json.null
  pub braces_sound : IsSound json.braces
  pub set_sound :
      (key : String) (cells : Data) (object : J)
      → IsSound object
      → IsSound (json.set key (row_of json cells) object)
  -- A value is valid if its texts are UTF-8. It is dumped and parsed again; the dump of any other
  -- throws `type_error.316`.
  pub is_utf8 : String → Bool
  pub is_valid : J → Bool
  pub null_valid : is_valid json.null ≡ true
  pub braces_valid : is_valid json.braces ≡ true
  pub set_valid :
      (key : String) (cells : Data) (object : J)
      → IsSound object
      → find key (json.items object) ≡ none
      → is_valid (json.set key (row_of json cells) object)
        ≡ (is_utf8 key && not (any (λ cell. not (is_utf8 cell)) cells) && is_valid object)
  pub dumped : J → String
  pub type_error : J → Exception
  pub dump_lem :
      (value : J)
      → IsSound value
      → json.dump value ≡ (if is_valid value then ok (dumped value) else err (type_error value))
  pub dumped_visible : (value : J) → IsSound value → has_non_whitespace (dumped value) ≡ true
  pub parse_lem :
      (value : J) → IsSound value → is_valid value ≡ true → json.parse (dumped value) ≡ value
  -- strings and arrays
  pub get_string_lem : (text : String) → json.get_string (json.from_string text) ≡ some text
  pub is_array_lem : (values : List J) → json.is_array (json.from_array values) ≡ true
  pub elements_lem :
      (cells : Data)
      → json.elements (json.from_array (map json.from_string cells)) ≡ map json.from_string cells
  -- objects
  pub items_null : json.items json.null ≡ []
  pub items_braces : json.items json.braces ≡ []
  pub distinct_keys : (value : J) → IsSound value → HasDistinctKeys (json.items value)
  pub set_is_object :
      (key : String) (cells : Data) (object : J)
      → IsSound object
      → json.is_object (json.set key (row_of json cells) object) ≡ true
  pub find_set :
      (key : String) (cells : Data) (object : J) (j : String)
      → IsSound object
      → find j (json.items (json.set key (row_of json cells) object))
        ≡ (if key == j then some (row_of json cells) else find j (json.items object))

abbrev pub map_some : {A B : Type 0} → (A → B) → Option A → Option B
map_some f none = none
map_some f (some a) = some (f a)

module _ {J : Type 0} (json : Json J) (l : IsJson json) where
  object_of-IsSound : (d : Dataset) → l.IsSound (object_of json d)
  unfolding object_of
  object_of-IsSound [] = l.null_sound
  object_of-IsSound ((key, cells) ∷ rest) = l.set_sound key cells _ (object_of-IsSound rest)

  find-object_of :
      (j : String) (d : Dataset)
      → find j (json.items (object_of json d)) ≡ map_some (row_of json) (find j d)
  unfolding object_of find
  find-object_of j [] = rw l.items_null refl
  find-object_of j ((key, cells) ∷ rest) =
      l.find_set key cells (object_of json rest) j (object_of-IsSound rest)
      ∙ elim (Bool-cases (key == j)) [ inl e ↦ rw e refl | inr e ↦ rw e (find-object_of j rest) ]

  -- What is read of a member.
  abbrev read_row : Option J → Option Data
  read_row none = none
  read_row (some row) =
      if json.is_array row then some (strings_of json (json.elements row)) else none

  find-read_members :
      (j : String) (items : List (String × J))
      → HasDistinctKeys items
      → find j (read_members json items) ≡ read_row (find j items)
  unfolding read_members find HasDistinctKeys
  find-read_members j [] h = refl
  find-read_members j ((key, row) ∷ rest) h = elim (Bool-cases (json.is_array row)) [
    | inl a ↦ rw a (
        find-assign key j _ (read_members json rest) ∙ elim (Bool-cases (key == j)) [
          | inl e ↦ rw (e, a) refl
          | inr e ↦ rw e (find-read_members j rest h.1)
        ])
    | inr a ↦ rw a (
        find-read_members j rest h.1 ∙ elim (Bool-cases (key == j)) [
          | inl e ↦ rw (e, a) (ap read_row (ap (λ k. find k rest) (sym ((eq_iff key j).0 e)) ∙ h.0))
          | inr e ↦ rw e refl
        ])
  ]

  strings_of-row : (cells : Data) → strings_of json (map json.from_string cells) ≡ cells
  unfolding strings_of
  strings_of-row [] = refl
  strings_of-row (cell ∷ cells) = rw l.get_string_lem (rw (strings_of-row cells) refl)

  read_row-row_of : (o : Option Data) → read_row (map_some (row_of json) o) ≡ o
  unfolding row_of
  read_row-row_of none = refl
  read_row-row_of (some cells) = rw (l.is_array_lem, l.elements_lem, strings_of-row) refl

  value_of-IsSound : (d : Dataset) → l.IsSound (value_of json d)
  unfolding value_of
  value_of-IsSound [] = l.braces_sound
  value_of-IsSound (column ∷ rest) = object_of-IsSound (column ∷ rest)

  find-dataset_of :
      (j : String) (d : Dataset) → find j (dataset_of json (value_of json d)) ≡ find j d
  unfolding dataset_of value_of object_of find read_members
  find-dataset_of j [] = elim (Bool-cases (json.is_object json.braces)) [
    | inl e ↦ rw (e, l.items_braces) refl
    | inr e ↦ rw e refl
  ]
  find-dataset_of j ((key, cells) ∷ rest) =
      rw (l.set_is_object key cells (object_of json rest) (object_of-IsSound rest)) (
        find-read_members j _ (l.distinct_keys _ (object_of-IsSound ((key, cells) ∷ rest)))
        ∙ ap read_row (find-object_of j ((key, cells) ∷ rest))
        ∙ read_row-row_of (find j ((key, cells) ∷ rest)))

  object_of-valid :
      (d : Dataset) → HasDistinctKeys d → l.is_valid (object_of json d) ≡ are_utf8 l.is_utf8 d
  unfolding object_of are_utf8 HasDistinctKeys
  object_of-valid [] h = l.null_valid
  object_of-valid ((key, cells) ∷ rest) h =
      l.set_valid key cells _ (object_of-IsSound rest)
        (find-object_of key rest ∙ ap (map_some (row_of json)) h.0)
      ∙ ap (λ b. l.is_utf8 key && not (any (λ cell. not (l.is_utf8 cell)) cells) && b)
          (object_of-valid rest h.1)

  value_of-valid :
      (d : Dataset) → HasDistinctKeys d → l.is_valid (value_of json d) ≡ are_utf8 l.is_utf8 d
  unfolding value_of are_utf8
  value_of-valid [] h = l.braces_valid
  value_of-valid (column ∷ rest) h = object_of-valid (column ∷ rest) h

  -- On a JSON library that does what it documents, a dataset, whose keys differ as those of a map do, is
  -- serialized if all its keys and cells are UTF-8, and what is deserialized of that text has for each
  -- key the column that the dataset has for it, or none; if one cell or key is not UTF-8, the whole
  -- dataset fails with the exception of the dump.
  pub deserialize-serialize :
      (d : Dataset) (key : String)
      → HasDistinctKeys d
      → and_then
          (and_then ((json_serializer json).serialize d) (json_serializer json).deserialize)
          (λ back. ok (find key back))
        ≡ (if are_utf8 l.is_utf8 d then ok (find key d) else err (l.type_error (value_of json d)))
  unfolding json_serializer
  deserialize-serialize d key h = elim (Bool-cases (are_utf8 l.is_utf8 d)) [
    | inl valid ↦
        let valid_value = value_of-valid d h ∙ valid in
        rw
          (
            l.dump_lem _ (value_of-IsSound d),
            valid_value,
            valid,
            l.dumped_visible _ (value_of-IsSound d),
            l.parse_lem _ (value_of-IsSound d) valid_value,
          )
          (ap ok (find-dataset_of key d))
    | inr invalid ↦ rw (l.dump_lem _ (value_of-IsSound d), value_of-valid d h, invalid) refl
  ]
