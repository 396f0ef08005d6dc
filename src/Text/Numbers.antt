-- ===== src/Text/Numbers.antt =====
-- `char::to_digit`, `str::parse` into an unsigned number, and decimal and hexadecimal printing.
pub mod Laws
pub mod Value
use uri.Prelude.{
  ℕ, zero, suc, ◌+◌, ◌-◌, ◌*◌, ◌/◌, ◌%◌, List, [], ◌∷◌, Option, none, some, ◌==◌, ltb, within,
  if◌then◌else◌,
}

-- `c.to_digit(10)`
unfoldable pub to_decimal_digit : ℕ → Option ℕ
to_decimal_digit c = if within b'0' b'9' c then some (c - b'0') else none

-- `c.to_digit(16)`
unfoldable pub to_hex_digit : ℕ → Option ℕ
to_hex_digit c =
    if within b'0' b'9' c
    then some (c - b'0')
    else if within b'a' b'f' c
    then some (c - b'a' + 10)
    else if within b'A' b'F' c
    then some (c - b'A' + 10)
    else none

-- `std::num::IntErrorKind`, as far as an unsigned type has it.
pub data ParseIntError : Type 0 where
  empty invalid_digit pos_overflow : ParseIntError

pub data ParseInt : Type 0 where
  parsed : ℕ → ParseInt
  not_parsed : ParseIntError → ParseInt

-- The digit loop, with `checked_mul` and `checked_add` at the type's largest value.
unfoldable pub parse_digits : ℕ → List ℕ → ℕ → ParseInt
parse_digits top [] n = parsed n
parse_digits top (c ∷ s) n = elim (to_decimal_digit c) [
  | none ↦ not_parsed invalid_digit
  | some d ↦
      if ltb top (n * 10)
      then not_parsed pos_overflow
      else if ltb top (n * 10 + d)
      then not_parsed pos_overflow
      else parse_digits top s (n * 10 + d)
]

-- `str::parse` for an unsigned type: a lone sign is no number, and a leading `+` is passed over.
unfoldable pub parse_uint : ℕ → List ℕ → ParseInt
unfolding parse_digits to_decimal_digit
parse_uint top [] = not_parsed empty
parse_uint top (c ∷ []) =
    if c == b'+' then not_parsed invalid_digit else parse_digits top (c ∷ []) 0
parse_uint top (c ∷ d ∷ s) =
    if c == b'+' then parse_digits top (d ∷ s) 0 else parse_digits top (c ∷ d ∷ s) 0

abbrev pub u8_max : ℕ
u8_max = 255

abbrev pub u16_max : ℕ
u16_max = 65535

-- Decimal digits of `n` in front of `out`; each round divides by ten.
unfoldable pub decimal_onto : ℕ → ℕ → List ℕ → List ℕ
decimal_onto zero n out = out
decimal_onto (suc fuel) n out =
    let rest = decimal_onto fuel (n / 10) ((b'0' + n % 10) ∷ out) in
    if n / 10 == 0 then (b'0' + n % 10) ∷ out else rest

-- `{}` on an unsigned number; a number has fewer digits than one more than itself.
unfoldable pub decimal : ℕ → List ℕ
unfolding decimal_onto
decimal n = decimal_onto (suc n) n []

unfoldable pub hex_digit : ℕ → ℕ
hex_digit d = if ltb d 10 then b'0' + d else b'A' + (d - 10)

-- `{:02X}` on a byte
unfoldable pub upper_hex : ℕ → List ℕ
unfolding hex_digit
upper_hex b = hex_digit (b / 16) ∷ hex_digit (b % 16) ∷ []
