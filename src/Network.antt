-- ===== src/Network.antt =====
-- What goes over the network: HTTP requests and responses without their other header fields, and the
-- serializer (_common/include/common/Network/IDataSerializer.hpp) that both sides use.
pub mod Transaction
pub mod Json
use Prim.Native.Char.{Char, code}
use sage_store.Prelude.{ℕ, String, Bool, true, false, ◌&&◌, ◌||◌, leb, ◌≡◌}
use sage_store.Prelude.Assoc.{find}
use sage_store.Exec.{Result, ok}
use sage_store.DataSpecs.{Dataset}

pub record HttpRequest : Type 0 where
  pub method_string : String
  pub target : String
  pub body : String

pub record HttpResponse : Type 0 where
  pub result : ℕ
  pub content_type : String
  pub body : String

-- `IDataSerializer`; either call can throw.
pub record IDataSerializer : Type 0 where
  pub serialize : Dataset → Result String
  pub deserialize : String → Result Dataset

-- `std::isspace` in the locale "C"
abbrev pub is_space : Char → Bool
is_space c = (leb 9 (code c) && leb (code c) 13) || (leb 32 (code c) && leb (code c) 32)

-- `std::any_of(…, [](unsigned char character) { return !std::isspace(character); })`
unfoldable pub has_non_whitespace : String → Bool
has_non_whitespace String.[] = false
has_non_whitespace (String.◌∷◌ c s) =
    let rest = has_non_whitespace s in elim (is_space c) [ true ↦ rest | false ↦ true ]

-- What is relied on: every dataset can be sent, as a text that is not blank, and what is read of it has
-- the same columns.
pub record IsSerializer (serializer : IDataSerializer) : Type 0 where
  pub text_of : Dataset → String
  pub read_back : Dataset → Dataset
  pub serialize_lem : (d : Dataset) → serializer.serialize d ≡ ok (text_of d)
  pub deserialize_lem : (d : Dataset) → serializer.deserialize (text_of d) ≡ ok (read_back d)
  pub visible_lem : (d : Dataset) → has_non_whitespace (text_of d) ≡ true
  pub read_back_lem : (d : Dataset) (key : String) → find key (read_back d) ≡ find key d
