-- ===== src/PercentEncodedCharacterDecoder/Digits.antt =====
-- The decoder on hexadecimal digits, and on any character.
use uri.Prelude.{ℕ, ◌+◌, ◌*◌, ◌<◌, ◌≡◌, ◌≤◌, Option, none, some, arith}
use uri.Text.Numbers.{to_hex_digit, hex_digit}
use uri.Error.{Error, illegal_percent_encoding, Result, ok, err, panic}
use uri.PercentEncodedCharacterDecoder.{PercentEncodedCharacterDecoder, new, next}

-- What printing in hexadecimal writes is read back.
pub to_hex_digit-hex_digit : (d : ℕ) → d < 16 → to_hex_digit (hex_digit d) ≡ some d
unfolding to_hex_digit hex_digit
to_hex_digit-hex_digit d h = ground arith

-- Behind one digit `h`.
abbrev pub half_read : ℕ → PercentEncodedCharacterDecoder
half_read h = record { decoded_character = h; digits_left = 1 }

pub next-new : (c h : ℕ) → h < 16 → to_hex_digit c ≡ some h → next new c ≡ (half_read h, ok none)
unfolding next
next-new c h lt e = ground arith

pub next-half_read :
    (c h l : ℕ)
    → h < 16
    → l < 16
    → to_hex_digit c ≡ some l
    → next (half_read h) c ≡ (new, ok (some (h * 16 + l)))
unfolding next
next-half_read c h l hh hl e = ground arith

-- A decoder between two calls: fresh, or behind one digit.
pub record IsReady (d : PercentEncodedCharacterDecoder) : Type 0 where
  pub small : d.decoded_character < 256
  pub positive : 0 < d.digits_left
  pub at_most_two : d.digits_left ≤ 2

abbrev pub Sound : PercentEncodedCharacterDecoder × Result Error (Option ℕ) → Type 0
Sound (d, ok none) = IsReady d
Sound (d, ok (some b)) = (d ≡ new) × (b < 256)
Sound (d, err e) = (d ≡ new) × (e ≡ illegal_percent_encoding)
Sound (d, panic) = ⊥

pub to_hex_digit-lt : (c d : ℕ) → to_hex_digit c ≡ some d → d < 16
unfolding to_hex_digit
to_hex_digit-lt c d h = ground arith

pub next-Sound : (d : PercentEncodedCharacterDecoder) (c : ℕ) → IsReady d → Sound (next d c)
unfolding next to_hex_digit
next-Sound d c r = ground arith

pub new-IsReady : IsReady new
new-IsReady = record { small = omega arith; positive = omega arith; at_most_two = omega arith }
