-- ===== src/Prelude/Decimal.antt =====
-- Decimal numerals: the standard library's `isdigit`, `std::stoull` on a text of digits, and
-- `std::to_string` of a number that is not negative.
use Prim.Native.Nat.{ℕ, zero, suc, ◌+◌, ◌-◌, ◌*◌, ◌/◌, ◌%◌, ◌<◌}
use Prim.Native.Char.{Char, code}
use Prim.Native.String.{String}
use mathlib.Core.Path.{◌≡◌, refl, ap, ◌∙◌}
use mathlib.Core.Bool.{Bool, true, false, ◌&&◌}
use native.Mathlib.Omega.{arith}
use sage_store.Prelude.Basics.{ltb, leb, if◌then◌else◌, Bool-cases, is_blank}
use text.Mathlib.TextEquality.{eq_iff}
use mathlib.Core.Logic.{inl, inr}

-- `std::isdigit` in the C locale
abbrev pub is_digit : Char → Bool
is_digit c = leb b'0' (code c) && leb (code c) b'9'

-- `std::all_of(value.begin(), value.end(), isdigit)`
unfoldable pub all_digits : String → Bool
all_digits String.[] = true
all_digits (String.◌∷◌ c s) = is_digit c && all_digits s

-- The number that a text of digits stands for, read from the left after `n`.
unfoldable pub decimal_from : ℕ → String → ℕ
decimal_from n String.[] = n
decimal_from n (String.◌∷◌ c s) = decimal_from (n * 10 + (code c - b'0')) s

unfoldable pub decimal : String → ℕ
unfolding decimal_from
decimal s = decimal_from 0 s

digit_char : ℕ → Char
digit_char zero = "0"
digit_char (suc zero) = "1"
digit_char (suc (suc zero)) = "2"
digit_char (suc (suc (suc zero))) = "3"
digit_char (suc (suc (suc (suc zero)))) = "4"
digit_char (suc (suc (suc (suc (suc zero))))) = "5"
digit_char (suc (suc (suc (suc (suc (suc zero)))))) = "6"
digit_char (suc (suc (suc (suc (suc (suc (suc zero))))))) = "7"
digit_char (suc (suc (suc (suc (suc (suc (suc (suc zero)))))))) = "8"
digit_char n = "9"

code-digit_char : (d : ℕ) → d < 10 → code (digit_char d) ≡ b'0' + d
unfolding digit_char
code-digit_char zero h = refl
code-digit_char (suc zero) h = refl
code-digit_char (suc (suc zero)) h = refl
code-digit_char (suc (suc (suc zero))) h = refl
code-digit_char (suc (suc (suc (suc zero)))) h = refl
code-digit_char (suc (suc (suc (suc (suc zero))))) h = refl
code-digit_char (suc (suc (suc (suc (suc (suc zero)))))) h = refl
code-digit_char (suc (suc (suc (suc (suc (suc (suc zero))))))) h = refl
code-digit_char (suc (suc (suc (suc (suc (suc (suc (suc zero)))))))) h = refl
code-digit_char (suc (suc (suc (suc (suc (suc (suc (suc (suc n))))))))) h = ground arith

-- The digits of `n` in front of `s`, the last digit first: with more fuel than `n` it ends.
digits_before : ℕ → ℕ → String → String
digits_before zero n s = s
digits_before (suc fuel) n s =
    let rest = digits_before fuel (n / 10) (String.◌∷◌ (digit_char (n % 10)) s) in
    if ltb n 10 then String.◌∷◌ (digit_char n) s else rest

-- `std::to_string`
unfoldable pub to_string : ℕ → String
unfolding digits_before digit_char
to_string n = digits_before (suc n) n ""

to_string_test : to_string 1024 ≡ "1024"
unfolding to_string
to_string_test = refl

decimal_test : decimal "1024" ≡ 1024
unfolding decimal
decimal_test = refl

-- One more digit of a number, as the reader computes it.
digit_step : (k d : ℕ) → d < 10 → k * 10 + (code (digit_char d) - b'0') ≡ k * 10 + d
digit_step k d h = rw code-digit_char (omega arith)

decimal_from-digits_before :
    (fuel n : ℕ) (s : String)
    → n < fuel
    → decimal_from 0 (digits_before fuel n s) ≡ decimal_from n s
unfolding decimal_from digits_before
decimal_from-digits_before zero n s h = absurd (omega arith)
decimal_from-digits_before (suc fuel) n s h = elim (Bool-cases (ltb n 10)) [
  | inl small ↦ rw small (ap (λ k. decimal_from k s) (digit_step 0 n (ground arith) ∙ omega arith))
  | inr large ↦ rw large (
      decimal_from-digits_before fuel (n / 10) _ (ground arith)
      ∙ ap (λ k. decimal_from k s) (digit_step (n / 10) (n % 10) (omega arith) ∙ omega arith))
]

all_digits-digits_before :
    (fuel n : ℕ) (s : String) → all_digits s ≡ true → all_digits (digits_before fuel n s) ≡ true
unfolding all_digits digits_before
all_digits-digits_before zero n s h = h
all_digits-digits_before (suc fuel) n s h = elim (Bool-cases (ltb n 10)) [
  | inl small ↦ rw small (ground (arith, code-digit_char n))
  | inr large ↦
      rw large (all_digits-digits_before fuel (n / 10) _ (ground (arith, code-digit_char (n % 10))))
]

-- Printing a number and reading it back gives the number.
pub decimal-to_string : (n : ℕ) → decimal (to_string n) ≡ n
unfolding decimal to_string
decimal-to_string n =
    decimal_from-digits_before (suc n) n "" (omega arith) ∙ unfold decimal_from in refl

-- A printed number consists of digits.
pub all_digits-to_string : (n : ℕ) → all_digits (to_string n) ≡ true
unfolding to_string
all_digits-to_string n = all_digits-digits_before (suc n) n "" (unfold all_digits in refl)

-- A printed number is not the empty text.
pub to_string-filled : (n : ℕ) → is_blank (to_string n) ≡ false
to_string-filled zero = unfold to_string in refl
to_string-filled (suc n) = elim (Bool-cases (is_blank (to_string (suc n)))) [
  | inl blank ↦
      let zero_read : decimal (to_string (suc n)) ≡ 0 =
        ap decimal ((eq_iff _ "").0 blank) ∙ unfold decimal in refl in
      absurd (omega (arith, decimal-to_string (suc n)))
  | inr filled ↦ filled
]
