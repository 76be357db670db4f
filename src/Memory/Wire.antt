-- ===== src/Memory/Wire.antt =====
-- A split, and a serializer, that meet what is relied on of those. They model no code; they show that
-- it can hold, and the examples run on them.
use Prim.Native.Char.{Char, code}
use Prim.Native.String.{◌++◌}
use text.Mathlib.TextLemmas.{cons-append, nil-append}
use sage_store.Prelude.{String, false, leb, ◌≡◌, ◌∙◌, refl, ap, List, [], ◌∷◌, arith, if◌then◌else◌}
use sage_store.Exec.{ok}
use sage_store.DataSpecs.{Data, Dataset}
use sage_store.Network.{IDataSerializer, IsSerializer, has_non_whitespace}
use sage_store.Network.Transaction.Endpoints.{is_slash, has_slash, begins_with_slash, IsSplit}

abbrev longer : Char → List String → List String
longer c [] = (String.◌∷◌ c "") ∷ []
longer c (piece ∷ pieces) = (String.◌∷◌ c piece) ∷ pieces

-- The pieces between slashes; neighbouring slashes count as one.
unfoldable pub split_at_slashes : String → List String
unfolding begins_with_slash
split_at_slashes String.[] = "" ∷ []
split_at_slashes (String.◌∷◌ c s) =
    let pieces = split_at_slashes s in
    if is_slash c then (if begins_with_slash s then pieces else "" ∷ pieces) else longer c pieces

no_slash : (t : String) → has_slash t ≡ false → split_at_slashes t ≡ t ∷ []
unfolding split_at_slashes has_slash
no_slash String.[] h = refl
no_slash (String.◌∷◌ c t) h = ground (arith, no_slash t)

one_lem : (t : String) → "/" ++ t ≡ String.◌∷◌ "/" t
one_lem t = cons-append "/" "" t ∙ ap (λ u. String.◌∷◌ "/" u) (nil-append t)

two_lem : (t : String) → "//" ++ t ≡ String.◌∷◌ "/" (String.◌∷◌ "/" t)
two_lem t = cons-append "/" "/" t ∙ ap (λ u. String.◌∷◌ "/" u) (one_lem t)

at_slash :
    (t : String)
    → begins_with_slash t ≡ false
    → split_at_slashes (String.◌∷◌ "/" t) ≡ "" ∷ split_at_slashes t
unfolding split_at_slashes
at_slash t h = rw h refl

at_slashes :
    (t : String)
    → split_at_slashes (String.◌∷◌ "/" (String.◌∷◌ "/" t)) ≡ split_at_slashes (String.◌∷◌ "/" t)
unfolding split_at_slashes
at_slashes t = refl

one_slash :
    (s t : String)
    → has_slash s ≡ false
    → begins_with_slash t ≡ false
    → split_at_slashes (s ++ "/" ++ t) ≡ s ∷ split_at_slashes t
unfolding split_at_slashes has_slash
one_slash String.[] t h h' = rw (nil-append, one_lem) (at_slash t h')
one_slash (String.◌∷◌ c s) t h h' = rw (cons-append c s ("/" ++ t)) (ground (arith, one_slash s t))

slashes :
    (s t : String)
    → has_slash s ≡ false
    → split_at_slashes (s ++ "//" ++ t) ≡ split_at_slashes (s ++ "/" ++ t)
unfolding split_at_slashes has_slash
slashes String.[] t h =
    rw (nil-append ("//" ++ t), nil-append ("/" ++ t), one_lem, two_lem) (at_slashes t)
slashes (String.◌∷◌ c s) t h =
    rw (cons-append c s ("//" ++ t), cons-append c s ("/" ++ t)) (ground (arith, slashes s t))

pub split_at_slashes-IsSplit : IsSplit split_at_slashes
split_at_slashes-IsSplit = record {
  no_slash_lem = no_slash;
  one_slash_lem = one_slash;
  slashes_lem = slashes;
}

-- What has been read from the end of a text on: the text at hand, the values of the column at hand,
-- and the columns.
pub record Parts : Type 0 where
  text : String
  values : Data
  pub columns : Dataset

-- Two characters at a time: a mark, and what it marks.
abbrev step : Char → Char → Parts → Parts
step mark c p =
    if leb (code mark) b'c'
    then record p { text = String.◌∷◌ c p.text }
    else if leb (code mark) b'k'
    then record { text = ""; values = []; columns = (p.text, p.values) ∷ p.columns }
    else record p { text = ""; values = p.text ∷ p.values }

pub parts : String → Parts
parts String.[] = record { text = ""; values = []; columns = [] }
parts (String.◌∷◌ mark String.[]) = record { text = ""; values = []; columns = [] }
parts (String.◌∷◌ mark (String.◌∷◌ c s)) = step mark c (parts s)

put_text : String → String → String
put_text String.[] rest = rest
put_text (String.◌∷◌ c s) rest = String.◌∷◌ "c" (String.◌∷◌ c (put_text s rest))

put_values : Data → String → String
unfolding put_text
put_values [] rest = rest
put_values (v ∷ vs) rest = String.◌∷◌ "v" (String.◌∷◌ "v" (put_text v (put_values vs rest)))

pub text_of : Dataset → String
unfolding put_values
text_of [] = ""
text_of ((key, vs) ∷ rest) =
    String.◌∷◌ "k" (String.◌∷◌ "k" (put_text key (put_values vs (text_of rest))))

parts-put_text :
    (s rest : String) (values : Data) (columns : Dataset)
    → parts rest ≡ record { text = ""; values = values; columns = columns }
    → parts (put_text s rest) ≡ record { text = s; values = values; columns = columns }
unfolding parts put_text
parts-put_text String.[] rest values columns h = h
parts-put_text (String.◌∷◌ c s) rest values columns h =
    rw (parts-put_text s rest values columns h) refl

parts-put_values :
    (vs : Data) (rest : String) (columns : Dataset)
    → parts rest ≡ record { text = ""; values = []; columns = columns }
    → parts (put_values vs rest) ≡ record { text = ""; values = vs; columns = columns }
unfolding parts put_values
parts-put_values [] rest columns h = h
parts-put_values (v ∷ vs) rest columns h =
    rw (parts-put_text v _ vs columns (parts-put_values vs rest columns h)) refl

pub parts-text_of :
    (d : Dataset) → parts (text_of d) ≡ record { text = ""; values = []; columns = d }
unfolding parts text_of
parts-text_of [] = refl
parts-text_of ((key, vs) ∷ rest) =
    rw (parts-put_text key _ vs rest (parts-put_values vs (text_of rest) rest (parts-text_of rest)))
      refl

abbrev without_first : String → String
without_first String.[] = ""
without_first (String.◌∷◌ c s) = s

unfoldable pub text_serializer : IDataSerializer
unfolding text_of parts
text_serializer = record {
  serialize = λ d. ok (String.◌∷◌ "d" (text_of d));
  deserialize = λ t. ok (parts (without_first t)).columns;
}

pub text_serializer-IsSerializer : IsSerializer text_serializer
unfolding text_serializer has_non_whitespace
text_serializer-IsSerializer = record {
  text_of = λ d. String.◌∷◌ "d" (text_of d);
  read_back = λ d. d;
  serialize_lem = λ d. refl;
  deserialize_lem = λ d. rw parts-text_of refl;
  visible_lem = λ d. refl;
  read_back_lem = λ d key. refl;
}
