-- ===== src/Codec/RoundTrip.antt =====
-- Decoding what `encode_element` writes.
use uri.CharacterClasses.Delimiters.{Subset}
use native.Mathlib.Nat.{mod-eq_of_lt}
use uri.CharacterClasses.{eq-false}
use uri.Prelude.{
  ◌==◌, ℕ, ◌+◌, ◌*◌, ◌/◌, ◌%◌, ◌<◌, ◌≡◌, refl, arith, inl, inr, true, false, ◌∷◌, [], ◌++◌, All,
  Bool-cases, ◌∙◌,
}
use uri.Text.{Text, Bytes}
use uri.Text.Numbers.{hex_digit, upper_hex}
use uri.Error.{Context, ok, ◌>>=◌}
use uri.CharacterClasses.{CharSet}
use uri.PercentEncodedCharacterDecoder.Digits.{next-new, next-half_read, to_hex_digit-hex_digit}
use uri.Codec.{decode_from, not_decoding, decode_element, encode_byte, encode_element}

abbrev pub IsByte : ℕ → Type 0
IsByte b = b < 256

pub halves : (b : ℕ) → b / 16 * 16 + b % 16 ≡ b
halves b = omega arith

-- Two digits behind a `%` are one byte.
pub decode_from_percent :
    (allowed : CharSet) (context : Context) (b : ℕ) (rest : Text)
    → IsByte b
    → decode_from allowed context not_decoding (b'%' ∷ (upper_hex b ++ rest))
      ≡ (decode_from allowed context not_decoding rest >>= λ bs. ok (b ∷ bs))
unfolding decode_from upper_hex
decode_from_percent allowed context b rest h =
    let hi = to_hex_digit-hex_digit (b / 16) (omega arith) in
    let lo = to_hex_digit-hex_digit (b % 16) (omega arith) in
    rw (next-new (hex_digit (b / 16)) (b / 16) (omega arith) hi) (
      rw (next-half_read (hex_digit (b % 16)) (b / 16) (b % 16) (omega arith) (omega arith) lo)
        (rw (halves b)))

-- A character of the set stands for itself.
pub decode_from_allowed :
    (allowed : CharSet) (context : Context) (c : ℕ) (rest : Text)
    → IsByte c
    → allowed c ≡ true
    → (c == b'%') ≡ false
    → decode_from allowed context not_decoding (c ∷ rest)
      ≡ (decode_from allowed context not_decoding rest >>= λ bs. ok (c ∷ bs))
unfolding decode_from
decode_from_allowed allowed context c rest h e ne = rw (ne, e, mod-eq_of_lt h)

module _ (written allowed : CharSet) (context : Context) (subset : Subset written allowed)
    (percent : written b'%' ≡ false) where
  decode_from-encode_byte :
      (b : ℕ) (rest : Text)
      → IsByte b
      → decode_from allowed context not_decoding (encode_byte written b ++ rest)
        ≡ (do bs ← decode_from allowed context not_decoding rest; ok (b ∷ bs))
  unfolding encode_byte
  decode_from-encode_byte b rest h = elim (Bool-cases (written b)) [
    | inl e ↦ rw e (
        decode_from_allowed allowed context b rest h (subset b e)
          (eq-false written b'%' percent b e))
    | inr e ↦ rw e (decode_from_percent allowed context b rest h)
  ]

  -- Decoding an encoded element gives its bytes back.
  pub decode_element-encode_element :
      (bs : Bytes)
      → All IsByte bs
      → decode_element (encode_element bs written) allowed context ≡ ok bs
  unfolding decode_element encode_element
  decode_element-encode_element [] h = refl
  decode_element-encode_element (b ∷ bs) (hb, hs) =
      decode_from-encode_byte b _ hb ∙ rw (decode_element-encode_element bs hs)
