-- ===== src/Startup.antt =====
-- ServerStartupConfig.cpp: the settings that the server reads of the environment, which is a parameter.
pub mod Ports
use Prim.Native.Char.{Char, code}
use sage_store.Prelude.{
  ℕ, String, Bool, true, false, not, ◌&&◌, ◌||◌, ◌+◌, ◌*◌, ◌-◌, ◌^◌, ◌%◌, Option, none, some, leb,
  ltb, is_blank, if◌then◌else◌,
}
use sage_store.Prelude.Decimal.{is_digit}
use sage_store.Network.{is_space}

-- What `std::stol` gives: the number, as a sign and a magnitude, and how many characters it has read.
pub record Parsed : Type 0 where
  pub negative : Bool
  pub magnitude : ℕ
  pub parsed_length : ℕ

unfoldable pub size : String → ℕ
size String.[] = 0
size (String.◌∷◌ _ s) = 1 + size s

-- The digits at the beginning, after `length` characters that made `n`.
unfoldable pub read_digits : Bool → ℕ → ℕ → String → Parsed
read_digits negative n length String.[] = record {
  negative = negative;
  magnitude = n;
  parsed_length = length;
}
read_digits negative n length (String.◌∷◌ c s) =
    let more = read_digits negative (n * 10 + (code c - b'0')) (1 + length) s in
    if is_digit c
    then more
    else record { negative = negative; magnitude = n; parsed_length = length }

unfoldable pub begins_with_digit : String → Bool
begins_with_digit String.[] = false
begins_with_digit (String.◌∷◌ c _) = is_digit c

-- Without a digit, or for a number that is no `long` of 64 bits, `std::stol` throws.
unfoldable pub as_long : Bool → ℕ → String → Option Parsed
unfolding read_digits begins_with_digit
as_long negative length s =
    let parsed = read_digits negative 0 length s in
    if begins_with_digit s && leb parsed.magnitude (if negative then 2 ^ 63 else 2 ^ 63 - 1)
    then some parsed
    else none

abbrev is_minus : Char → Bool
is_minus c = leb b'-' (code c) && leb (code c) b'-'

abbrev is_plus : Char → Bool
is_plus c = leb b'+' (code c) && leb (code c) b'+'

-- `std::stol(value, &parsedLength)`, after `length` blanks
unfoldable pub stol_from : ℕ → String → Option Parsed
unfolding as_long
stol_from length String.[] = none
stol_from length (String.◌∷◌ c s) =
    let more = stol_from (1 + length) s in
    if is_space c
    then more
    else if is_minus c
    then as_long true (1 + length) s
    else if is_plus c
    then as_long false (1 + length) s
    else as_long false length (String.◌∷◌ c s)

abbrev pub ushort_max : ℕ
ushort_max = 2 ^ 16 - 1

unfoldable pub in_port_range : String → Parsed → Bool
unfolding size
in_port_range value parsed =
    leb parsed.parsed_length (size value)
    && leb (size value) parsed.parsed_length
    && not (parsed.negative && ltb 0 parsed.magnitude)
    && leb parsed.magnitude ushort_max

abbrev port_of : String → ℕ → Option Parsed → ℕ
port_of value fallback none = fallback
port_of value fallback (some parsed) =
    if in_port_range value parsed then parsed.magnitude % 2 ^ 16 else fallback

abbrev filled_or : {A : Type 0} → Option String → A → (String → A) → A
filled_or none fallback f = fallback
filled_or (some value) fallback f = if is_blank value then fallback else f value

module _ (getenv : String → Option String) where
  unfoldable pub env_or_default : String → String → String
  env_or_default name fallback = filled_or (getenv name) fallback (λ value. value)

  unfoldable pub env_or_default_port : String → ℕ → ℕ
  unfolding stol_from in_port_range
  env_or_default_port name fallback =
      filled_or (getenv name) fallback λ value. port_of value fallback (stol_from 0 value)
