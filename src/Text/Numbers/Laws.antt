-- ===== src/Text/Numbers/Laws.antt =====
-- Printing a number and parsing it, and the bound of what is parsed.
use uri.Prelude.{
  zero, Option-cases, ap, inr, ◌%◌, inl, ◌==◌, ◌/◌, ◌∙◌, ◌+◌, [], Bool-cases, arith, suc, ◌*◌, ◌∷◌,
  ◌<◌, ◌≤◌, ◌≡◌, List, ℕ,
}
use uri.Text.Numbers.{parse_uint, parse_digits, parsed, decimal, decimal_onto, to_decimal_digit}

abbrev StartsWithDigit : List ℕ → Type 0
StartsWithDigit [] = ⊥
StartsWithDigit (c ∷ s) = (b'0' ≤ c) × (c ≤ b'9')

decimal_onto-StartsWithDigit :
    (fuel n : ℕ) (out : List ℕ) → n < fuel → StartsWithDigit (decimal_onto fuel n out)
unfolding decimal_onto
decimal_onto-StartsWithDigit zero n out h = absurd (omega arith)
decimal_onto-StartsWithDigit (suc fuel) n out h = elim (Bool-cases (n / 10 == 0)) [
  | inl e ↦ rw e (omega arith, omega arith)
  | inr e ↦ rw e (decimal_onto-StartsWithDigit fuel (n / 10) ((b'0' + n % 10) ∷ out) (ground arith))
]

-- One more digit.
parse_digits_digit :
    (top n d : ℕ) (out : List ℕ)
    → d < 10
    → n * 10 + d ≤ top
    → parse_digits top ((b'0' + d) ∷ out) n ≡ parse_digits top out (n * 10 + d)
unfolding parse_digits to_decimal_digit
parse_digits_digit top n d out h fits = ground arith

parse_digits-decimal_onto :
    (top fuel n : ℕ) (out : List ℕ)
    → n < fuel
    → n ≤ top
    → parse_digits top (decimal_onto fuel n out) 0 ≡ parse_digits top out n
unfolding decimal_onto
parse_digits-decimal_onto top zero n out h fits = absurd (omega arith)
parse_digits-decimal_onto top (suc fuel) n out h fits = elim (Bool-cases (n / 10 == 0)) [
  | inl e ↦ rw e (
      parse_digits_digit top 0 (n % 10) out (omega arith) (omega arith)
      ∙ ap (parse_digits top out) (ground arith))
  | inr e ↦ rw e (
      parse_digits-decimal_onto top fuel (n / 10) ((b'0' + n % 10) ∷ out) (ground arith)
        (omega arith)
      ∙ parse_digits_digit top (n / 10) (n % 10) out (omega arith) (omega arith)
      ∙ ap (parse_digits top out) (omega arith))
]

parse_uint-parse_digits :
    (top : ℕ) (s : List ℕ) → StartsWithDigit s → parse_uint top s ≡ parse_digits top s 0
unfolding parse_uint
parse_uint-parse_digits top [] h = absurd h
parse_uint-parse_digits top (c ∷ []) h = ground arith
parse_uint-parse_digits top (c ∷ d ∷ s) h = ground arith

-- A number that fits the type is read back from its decimal print.
pub parse_uint-decimal : (top n : ℕ) → n ≤ top → parse_uint top (decimal n) ≡ parsed n
unfolding decimal parse_digits
parse_uint-decimal top n fits =
    parse_uint-parse_digits top _ (decimal_onto-StartsWithDigit (suc n) n [] (omega arith))
    ∙ parse_digits-decimal_onto top (suc n) n [] (omega arith) fits

parse_digits-le :
    (top : ℕ) (s : List ℕ) (n r : ℕ) → n ≤ top → parse_digits top s n ≡ parsed r → r ≤ top
unfolding parse_digits
parse_digits-le top [] n r fits h = ground arith
parse_digits-le top (c ∷ s) n r fits h = elim (Option-cases (to_decimal_digit c)) [
  | inl e ↦ ground (arith, e)
  | inr (d, e) ↦ ground (arith, e, parse_digits-le top s (n * 10 + d) r)
]

-- Whatever is parsed fits the type.
pub parse_uint-le : (top : ℕ) (s : List ℕ) (r : ℕ) → parse_uint top s ≡ parsed r → r ≤ top
unfolding parse_uint
parse_uint-le top [] r h = cc
parse_uint-le top (c ∷ []) r h = elim (Bool-cases (c == b'+')) [
  | inl e ↦ cc (rw e at h)
  | inr e ↦ parse_digits-le top (c ∷ []) 0 r (omega arith) (rw e at h)
]
parse_uint-le top (c ∷ d ∷ s) r h = elim (Bool-cases (c == b'+')) [
  | inl e ↦ parse_digits-le top (d ∷ s) 0 r (omega arith) (rw e at h)
  | inr e ↦ parse_digits-le top (c ∷ d ∷ s) 0 r (omega arith) (rw e at h)
]
