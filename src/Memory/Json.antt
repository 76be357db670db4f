-- ===== src/Memory/Json.antt =====
-- JSON values that meet what JsonSerializer.cpp relies on of nlohmann's library: null, texts, arrays of
-- texts, and objects of those. They model no code; they show that it can hold.
use Prim.Native.Char.{code}
use sage_store.Prelude.{
  ◌&&◌, any, not, ◌&&◌, String, leb, Bool, true, false, ◌≡◌, refl, sym, ap, ◌∙◌, List, [], ◌∷◌,
  Option, none, some, map, ◌==◌, eq_iff, arith, Bool-cases, inl, inr, if◌then◌else◌,
}
use sage_store.Prelude.Assoc.{find, assign, find-assign}
use sage_store.Exec.{ok, err, standard}
use sage_store.DataSpecs.{Data, Dataset}
use sage_store.Network.{has_non_whitespace}
use sage_store.Network.Json.{Json, row_of}
use sage_store.Network.Json.Laws.{are_utf8, HasDistinctKeys, IsJson, map_some}
use sage_store.Memory.Wire.{text_of, parts, parts-text_of}

pub data Value : Type 0 where
  nothing : Value
  text : String → Value
  row : Data → Value
  members : Dataset → Value

texts : List Value → Data
texts [] = []
texts (text t ∷ values) = t ∷ texts values
texts (nothing ∷ values) = texts values
texts (row _ ∷ values) = texts values
texts (members _ ∷ values) = texts values

set : String → Value → Value → Value
set key (row cells) nothing = members ((key, cells) ∷ [])
set key (row cells) (members d) = members (assign key cells d)
set key _ object = object

written : Value → String
written (members d) = String.◌∷◌ "d" (text_of d)
written _ = "n"

read : String → Value
read String.[] = nothing
read (String.◌∷◌ c t) = if leb (code c) b'd' then members (parts t).columns else nothing

is_members : Value → Bool
is_members (members _) = true
is_members _ = false

is_row : Value → Bool
is_row (row _) = true
is_row _ = false

rows : Dataset → List (String × Value)
rows [] = []
rows ((key, cells) ∷ rest) = (key, row cells) ∷ rows rest

items : Value → List (String × Value)
items (members d) = rows d
items _ = []

elements : Value → List Value
elements (row cells) = map text cells
elements _ = []

string_in : Value → Option String
string_in (text t) = some t
string_in _ = none

is_ascii : String → Bool
is_ascii String.[] = true
is_ascii (String.◌∷◌ c t) = leb (code c) 127 && is_ascii t

valid : Value → Bool
unfolding are_utf8 is_ascii
valid nothing = true
valid (members d) = are_utf8 is_ascii d
valid _ = false

pub json_in_memory : Json Value
json_in_memory = record {
  null = nothing;
  braces = nothing;
  from_string = text;
  from_array = λ values. row (texts values);
  set = set;
  dump = λ value. if valid value then ok (written value) else err (standard "type_error.316");
  parse = read;
  is_object = is_members;
  is_array = is_row;
  items = items;
  elements = elements;
  get_string = string_in;
}

texts-map : (cells : Data) → texts (map text cells) ≡ cells
unfolding texts
texts-map [] = refl
texts-map (cell ∷ cells) = ap (λ rest. cell ∷ rest) (texts-map cells)

find-rows : (j : String) (d : Dataset) → find j (rows d) ≡ map_some row (find j d)
unfolding rows find
find-rows j [] = refl
find-rows j ((key, cells) ∷ rest) = elim (Bool-cases (key == j)) [
  | inl e ↦ rw e refl
  | inr e ↦ rw e (find-rows j rest)
]

rows-HasDistinctKeys : (d : Dataset) → HasDistinctKeys d → HasDistinctKeys (rows d)
unfolding rows HasDistinctKeys
rows-HasDistinctKeys [] h = tt
rows-HasDistinctKeys ((key, cells) ∷ rest) h =
    (find-rows key rest ∙ ap (map_some row) h.0, rows-HasDistinctKeys rest h.1)

assign-HasDistinctKeys :
    (key : String) (cells : Data) (d : Dataset)
    → HasDistinctKeys d
    → HasDistinctKeys (assign key cells d)
unfolding assign HasDistinctKeys find
assign-HasDistinctKeys key cells [] h = (refl, tt)
assign-HasDistinctKeys key cells ((k, old) ∷ rest) h = elim (Bool-cases (k == key)) [
  | inl e ↦ rw e h
  | inr e ↦ rw e (
    ground (arith, h.0, eq_iff k key, eq_iff key k, find-assign key k cells rest),
    assign-HasDistinctKeys key cells rest h.1,
  )
]

Sound : Value → Type 0
Sound nothing = Unit {0}
Sound (members d) = HasDistinctKeys d
Sound (text _) = false ≡ true
Sound (row _) = false ≡ true

set-Sound :
    (key : String) (cells : Data) (object : Value)
    → Sound object
    → Sound (set key (row cells) object)
unfolding set Sound HasDistinctKeys find
set-Sound key cells nothing h = (refl, tt)
set-Sound key cells (members d) h = assign-HasDistinctKeys key cells d h
set-Sound key cells (text _) h = h
set-Sound key cells (row _) h = h

row_of-cells : (cells : Data) → row_of json_in_memory cells ≡ row cells
unfolding row_of json_in_memory
row_of-cells cells = ap row (texts-map cells)

written_visible : (value : Value) → has_non_whitespace (written value) ≡ true
unfolding written has_non_whitespace
written_visible nothing = refl
written_visible (text _) = refl
written_visible (row _) = refl
written_visible (members d) = refl

read-written : (value : Value) → Sound value → read (written value) ≡ value
unfolding read written Sound
read-written nothing h = refl
read-written (members d) h = rw parts-text_of refl
read-written (text _) h = absurd (cc h)
read-written (row _) h = absurd (cc h)

items-HasDistinctKeys : (value : Value) → Sound value → HasDistinctKeys (items value)
unfolding items Sound HasDistinctKeys
items-HasDistinctKeys nothing h = tt
items-HasDistinctKeys (members d) h = rows-HasDistinctKeys d h
items-HasDistinctKeys (text _) h = tt
items-HasDistinctKeys (row _) h = tt

set_is_members :
    (key : String) (cells : Data) (object : Value)
    → Sound object
    → is_members (set key (row cells) object) ≡ true
unfolding is_members set Sound
set_is_members key cells nothing h = refl
set_is_members key cells (members d) h = refl
set_is_members key cells (text _) h = h
set_is_members key cells (row _) h = h

find-set :
    (key : String) (cells : Data) (object : Value) (j : String)
    → Sound object
    → find j (items (set key (row cells) object))
      ≡ (if key == j then some (row cells) else find j (items object))
unfolding items set Sound find rows
find-set key cells nothing j h = refl
find-set key cells (members d) j h =
    find-rows j (assign key cells d)
    ∙ ap (map_some row) (find-assign key j cells d)
    ∙ elim (Bool-cases (key == j)) [ inl e ↦ rw e refl | inr e ↦ rw e (sym (find-rows j d)) ]
find-set key cells (text _) j h = absurd (cc h)
find-set key cells (row _) j h = absurd (cc h)

are_utf8-assign :
    (p : String → Bool) (key : String) (cells : Data) (d : Dataset)
    → find key d ≡ none
    → are_utf8 p (assign key cells d)
      ≡ (p key && not (any (λ cell. not (p cell)) cells) && are_utf8 p d)
unfolding are_utf8 assign find
are_utf8-assign p key cells [] h = ground arith
are_utf8-assign p key cells ((k, old) ∷ rest) h = ground (arith, are_utf8-assign p key cells rest)

no_row : (o : Option Data) → map_some row o ≡ none → o ≡ none
no_row none h = refl
no_row (some cells) h = absurd (cc h)

set-valid :
    (key : String) (cells : Data) (object : Value)
    → Sound object
    → find key (items object) ≡ none
    → valid (set key (row cells) object)
      ≡ (is_ascii key && not (any (λ cell. not (is_ascii cell)) cells) && valid object)
unfolding valid set Sound items are_utf8
set-valid key cells nothing h new = ground arith
set-valid key cells (members d) h new =
    are_utf8-assign is_ascii key cells d (no_row (find key d) (sym (find-rows key d) ∙ new))
set-valid key cells (text _) h new = absurd (cc h)
set-valid key cells (row _) h new = absurd (cc h)

pub json_in_memory-IsJson : IsJson json_in_memory
unfolding json_in_memory elements string_in is_row items Sound valid
json_in_memory-IsJson = record {
  IsSound = Sound;
  null_sound = tt;
  braces_sound = tt;
  set_sound = λ key cells object h. rw row_of-cells (set-Sound key cells object h);
  dumped = written;
  is_utf8 = is_ascii;
  is_valid = valid;
  null_valid = refl;
  braces_valid = refl;
  set_valid = λ key cells object h new. rw row_of-cells (set-valid key cells object h new);
  type_error = λ _. standard "type_error.316";
  dump_lem = λ value h. refl;
  dumped_visible = λ value h. written_visible value;
  parse_lem = λ value h _. read-written value h;
  get_string_lem = λ t. refl;
  is_array_lem = λ values. refl;
  elements_lem = λ cells. ap (map text) (texts-map cells);
  items_null = refl;
  items_braces = refl;
  distinct_keys = items-HasDistinctKeys;
  set_is_object = λ key cells object h. rw row_of-cells (set_is_members key cells object h);
  find_set = λ key cells object j h. rw row_of-cells (find-set key cells object j h);
}
