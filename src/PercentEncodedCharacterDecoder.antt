-- ===== src/PercentEncodedCharacterDecoder.antt =====
-- src/percent_encoded_character_decoder.rs: the decoder of the two digits behind a `%`.
pub mod Digits
use uri.Prelude.{ℕ, ◌+◌, ◌-◌, ◌*◌, ◌%◌, Option, none, some, ◌==◌, ltb, if◌then◌else◌}
use uri.Text.Numbers.{to_hex_digit, u8_max}
use uri.Error.{Error, illegal_percent_encoding, Result, ok, err, panic}

pub record PercentEncodedCharacterDecoder : Type 0 where
  pub decoded_character : ℕ
  pub digits_left : ℕ

abbrev pub new : PercentEncodedCharacterDecoder
new = record { decoded_character = 0; digits_left = 2 }

reset : PercentEncodedCharacterDecoder → PercentEncodedCharacterDecoder
reset d = record d { decoded_character = 0; digits_left = 2 }

-- A method returns the decoder that it leaves and its result. `<<=` drops the high bits, `u8::try_from`
-- fails above 255, and `+=` on a `u8` overflows above 255.
shift_in_hex_digit :
    PercentEncodedCharacterDecoder → ℕ → PercentEncodedCharacterDecoder × Result Error (Unit {0})
unfolding reset
shift_in_hex_digit d c =
    let shifted = d.decoded_character * 16 % 256 in
    elim (to_hex_digit c) [
      | some ci ↦
          if ltb u8_max ci
          then (record d { decoded_character = shifted }, panic)
          else if ltb u8_max (shifted + ci)
          then (record d { decoded_character = shifted }, panic)
          else (record d { decoded_character = shifted + ci }, ok tt)
      | none ↦ (reset d, err illegal_percent_encoding)
    ]

-- `digits_left -= 1` and the rest of `next`.
count_digit :
    PercentEncodedCharacterDecoder → PercentEncodedCharacterDecoder × Result Error (Option ℕ)
unfolding reset
count_digit d =
    if d.digits_left == 0
    then (d, panic)
    else if d.digits_left - 1 == 0
    then (reset d, ok (some d.decoded_character))
    else (record d { digits_left = d.digits_left - 1 }, ok none)

after_shift :
    PercentEncodedCharacterDecoder × Result Error (Unit {0})
    → PercentEncodedCharacterDecoder × Result Error (Option ℕ)
unfolding count_digit
after_shift (d, ok _) = count_digit d
after_shift (d, err e) = (d, err e)
after_shift (d, panic) = (d, panic)

unfoldable pub next :
    PercentEncodedCharacterDecoder → ℕ → PercentEncodedCharacterDecoder × Result Error (Option ℕ)
unfolding shift_in_hex_digit after_shift
next d c = after_shift (shift_in_hex_digit d c)
