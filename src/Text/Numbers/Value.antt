-- ===== src/Text/Numbers/Value.antt =====
-- The number that decimal digits spell, and what the parser makes of them.
use uri.Prelude.{
  zero, inr, inl, ◌==◌, ◌/◌, Bool-cases, ◌%◌, suc, ◌∙◌, ◌-◌, sym, ◌↔◌, ◌+◌, arith, [], refl, ◌*◌,
  within, false, All, ◌≤◌, ◌≢◌, true, ◌∷◌, ℕ, ◌≡◌, Bool, List,
}
use uri.Text.Numbers.{
  decimal_onto, decimal, ParseInt, parse_uint, parse_digits, parsed, not_parsed, to_decimal_digit,
}

abbrev pub IsDigits : List ℕ → Type 0
IsDigits = All (λ c. within b'0' b'9' c ≡ true)

-- The number that digits spell behind `n`, with no bound.
abbrev pub value : ℕ → List ℕ → ℕ
value n [] = n
value n (c ∷ s) = value (n * 10 + (c - b'0')) s

le-value : (s : List ℕ) (n : ℕ) → n ≤ value n s
le-value [] n = omega arith
le-value (c ∷ s) n = omega (arith, le-value s (n * 10 + (c - b'0')))

pub parse_digits-value :
    (top : ℕ) (s : List ℕ) (n : ℕ)
    → IsDigits s
    → value n s ≤ top
    → parse_digits top s n ≡ parsed (value n s)
unfolding parse_digits to_decimal_digit
parse_digits-value top [] n d le = refl
parse_digits-value top (c ∷ s) n (hc, hs) le =
    let m = n * 10 + (c - b'0') in ground (arith, parse_digits-value top s m hs le, le-value s m)

pub parse_digits_sound :
    (top : ℕ) (s : List ℕ) (n r : ℕ)
    → IsDigits s
    → n ≤ top
    → parse_digits top s n ≡ parsed r
    → (r ≡ value n s) × (r ≤ top)
unfolding parse_digits to_decimal_digit
parse_digits_sound top [] n r d le h = ground arith
parse_digits_sound top (c ∷ s) n r (hc, hs) le h =
    ground (arith, parse_digits_sound top s (n * 10 + (c - b'0')) r hs)

pub parse_uint_digits :
    (top : ℕ) (s : List ℕ) → IsDigits s → s ≢ [] → parse_uint top s ≡ parse_digits top s 0
unfolding parse_uint
parse_uint_digits top [] d ne = absurd (ne refl)
parse_uint_digits top (c ∷ []) (hc, hs) ne = ground arith
parse_uint_digits top (c ∷ d ∷ s) (hc, hs) ne = ground arith

abbrev pub is_parsed : ParseInt → Bool
is_parsed (parsed n) = true
is_parsed (not_parsed e) = false

is_parsed-value : (r : ParseInt) → is_parsed r ≡ true → (n : ℕ) × (r ≡ parsed n)
is_parsed-value (parsed n) h = (n, refl)
is_parsed-value (not_parsed e) h = cc

-- Digits are parsed exactly if the type can hold the number that they spell.
pub is_parsed-parse_uint :
    (top : ℕ) (s : List ℕ)
    → IsDigits s
    → s ≢ []
    → (is_parsed (parse_uint top s) ≡ true) ↔ (value 0 s ≤ top)
is_parsed-parse_uint top s d ne = (
  λ h.
      let (n, e) = is_parsed-value (parse_uint top s) h in
      let (exact, fits) =
        parse_digits_sound top s 0 n d (omega arith) (sym (parse_uint_digits top s d ne) ∙ e) in
      omega (arith, exact),
  λ le. rw (parse_uint_digits top s d ne, parse_digits-value top s 0 d le) refl,
)

decimal_onto-IsDigits :
    (fuel n : ℕ) (out : List ℕ) → IsDigits out → IsDigits (decimal_onto fuel n out)
unfolding decimal_onto
decimal_onto-IsDigits zero n out h = h
decimal_onto-IsDigits (suc fuel) n out h =
    let digit : within b'0' b'9' (b'0' + n % 10) ≡ true = ground arith in
    elim (Bool-cases (n / 10 == 0)) [
      | inl e ↦ rw e (digit, h)
      | inr e ↦ rw e (decimal_onto-IsDigits fuel (n / 10) _ (digit, h))
    ]

-- A number is printed in digits alone.
pub decimal-IsDigits : (n : ℕ) → IsDigits (decimal n)
unfolding decimal
decimal-IsDigits n = decimal_onto-IsDigits (suc n) n [] tt
