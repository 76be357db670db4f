-- ===== src/Client/Wire/Paths.antt =====
-- What is relied on of the paths of Qt's URLs in NetworkService.cpp.
use Prim.Native.Char.{Char, code}
use sage_store.Prelude.{String, Bool, true, ◌&&◌, ◌||◌, leb, ◌≡◌}

-- What a path of a URL holds as it is: letters, digits, and "-._~/".
abbrev is_plain_char : Char → Bool
is_plain_char c =
    (leb b'a' (code c) && leb (code c) b'z')
    || (leb b'A' (code c) && leb (code c) b'Z')
    || (leb b'-' (code c) && leb (code c) b'9')
    || (leb b'_' (code c) && leb (code c) b'_')
    || (leb b'~' (code c) && leb (code c) b'~')

unfoldable pub is_plain : String → Bool
is_plain String.[] = true
is_plain (String.◌∷◌ c s) = is_plain_char c && is_plain s

-- Qt sends such a path unchanged.
pub record IsEncoding (encoded_path : String → String) : Type 0 where
  pub plain_lem : (path : String) → is_plain path ≡ true → encoded_path path ≡ path
