-- ===== src/State/Command/Decimal.antt =====
-- The decimal digits of a number read back as the number.
use mikmongo.Base.{
  ℕ, zero, suc, ◌+◌, ◌/◌, ◌%◌, ◌<◌, ◌≡◌, sym, ap, ◌∙◌, inl, inr, [], ◌∷◌, arith, ltb, Bool-cases,
}
use mikmongo.Text.{Text, digits_from, parse_int}
use mikmongo.State.Command.{decimal_digits, show_nat}

digits_from-decimal_digits :
    (fuel n : ℕ) (read : Text)
    → n < fuel
    → digits_from 0 (decimal_digits fuel n read) ≡ digits_from n read
unfolding digits_from decimal_digits
digits_from-decimal_digits zero n read h = absurd (omega arith)
digits_from-decimal_digits (suc fuel) n read h = elim (Bool-cases (ltb n 10)) [
  | inl small ↦ rw small (ap (λ m. digits_from m read) (omega arith))
  | inr large ↦ rw large (
      digits_from-decimal_digits fuel (n / 10) ((b'0' + n % 10) ∷ read) (ground arith)
      ∙ ap (λ m. digits_from m read) (omega arith))
]

pub parse_int-show_nat : (n : ℕ) → parse_int (show_nat n) ≡ n
unfolding parse_int show_nat digits_from
parse_int-show_nat n = digits_from-decimal_digits (suc n) n [] (omega arith)

pub show_nat_injective : (a b : ℕ) → show_nat a ≡ show_nat b → a ≡ b
show_nat_injective a b e = sym (parse_int-show_nat a) ∙ ap parse_int e ∙ parse_int-show_nat b
