-- ===== src/Startup/Ports.antt =====
-- ServerStartupConfig.cpp: the port that a text of the environment stands for.
use Prim.Native.Char.{code}
use native.Mathlib.Numerals.{unary_clauses}
use sage_store.Prelude.{
  ℕ, ◌*◌, ◌-◌, is_blank, String, true, false, ◌≡◌, refl, ap, ◌∙◌, ◌+◌, Option, none, some, ◌^◌, leb,
  arith, Bool-cases, inl, inr, if◌then◌else◌,
}
use sage_store.Prelude.Decimal.{all_digits, decimal, decimal_from}
use sage_store.ModuleUtils.{is_digits}
use sage_store.Startup.{
  size, read_digits, begins_with_digit, as_long, stol_from, in_port_range, ushort_max, port_of,
  env_or_default_port,
}

read_digits-all :
    (n length : ℕ) (s : String)
    → all_digits s ≡ true
    → read_digits false n length s
      ≡ record { negative = false; magnitude = decimal_from n s; parsed_length = length + size s }
unfolding read_digits all_digits decimal_from size
read_digits-all n length String.[] h = simp unary_clauses refl
read_digits-all n length (String.◌∷◌ c s) h =
    ground (arith, read_digits-all (n * 10 + (code c - b'0')) (1 + length) s)

begins_digits : (s : String) → is_digits s ≡ true → begins_with_digit s ≡ true
unfolding is_digits begins_with_digit all_digits
begins_digits String.[] h = h
begins_digits (String.◌∷◌ c s) h = ground arith

all_digits-is : (s : String) → is_digits s ≡ true → all_digits s ≡ true
unfolding is_digits
all_digits-is s h = ground arith

read_digits_from_0 :
    (s : String)
    → all_digits s ≡ true
    → read_digits false 0 0 s
      ≡ record { negative = false; magnitude = decimal s; parsed_length = size s }
unfolding decimal
read_digits_from_0 s h =
    read_digits-all 0 0 s h
    ∙ ap (λ k. record { negative = false; magnitude = decimal s; parsed_length = k }) (omega arith)

as_long-digits :
    (s : String)
    → is_digits s ≡ true
    → as_long false 0 s ≡ (
        if leb (decimal s) (2 ^ 63 - 1)
        then some (record { negative = false; magnitude = decimal s; parsed_length = size s })
        else none)
unfolding as_long is_digits decimal
as_long-digits s h = rw (begins_digits s h, read_digits_from_0 s (all_digits-is s h)) refl

stol_from-digits : (s : String) → is_digits s ≡ true → stol_from 0 s ≡ as_long false 0 s
unfolding stol_from is_digits all_digits
stol_from-digits String.[] h = absurd (cc h)
stol_from-digits (String.◌∷◌ c s) h = ground arith

in_port_range-digits :
    (s : String)
    → in_port_range s (record { negative = false; magnitude = decimal s; parsed_length = size s })
      ≡ leb (decimal s) ushort_max
unfolding in_port_range
in_port_range-digits s = ground arith

is_blank-digits : (s : String) → is_digits s ≡ true → is_blank s ≡ false
unfolding is_digits
is_blank-digits s h = ground arith

port_of-digits :
    (s : String) (fallback : ℕ)
    → port_of s fallback (
        if leb (decimal s) (2 ^ 63 - 1)
        then some (record { negative = false; magnitude = decimal s; parsed_length = size s })
        else none)
      ≡ (if leb (decimal s) ushort_max then decimal s else fallback)
port_of-digits s fallback = elim (Bool-cases (leb (decimal s) (2 ^ 63 - 1))) [
  | inl long ↦ rw (long, in_port_range-digits s) (ground arith)
  | inr too_long ↦ rw too_long (ground arith)
]

module _ (getenv : String → Option String) where
  -- A text of digits is the port of its name if it stands for at most 65,535, and is refused for the
  -- fallback if it stands for more, however long it is.
  pub env_or_default_port-digits :
      (name value : String) (fallback : ℕ)
      → getenv name ≡ some value
      → is_digits value ≡ true
      → env_or_default_port getenv name fallback
        ≡ (if leb (decimal value) ushort_max then decimal value else fallback)
  unfolding env_or_default_port
  env_or_default_port-digits name value fallback h d =
      rw (h, stol_from-digits value d, as_long-digits value d)
        (rw (is_blank-digits value d) (port_of-digits value fallback))
