-- ===== src/Codec/Output.antt =====
-- The characters that `encode_element` writes.
use uri.Prelude.{
  ℕ, ◌/◌, ◌%◌, ◌<◌, ◌≡◌, arith, inl, inr, true, false, ◌∷◌, [], All, All-append, Bool-cases, ◌==◌,
}
use uri.Text.{Bytes}
use uri.Text.Slices.Laws.{Avoids}
use uri.Text.Numbers.{hex_digit, upper_hex}
use uri.CharacterClasses.{CharSet, hexdig, eq-false}
use uri.Codec.{encode_byte, encode_element}
use uri.Codec.RoundTrip.{IsByte}

-- No character of an encoded element passes a test that the set's elements, `%` and the
-- hexadecimal digits fail.
module _ (allowed stop : CharSet) (set : (c : ℕ) → allowed c ≡ true → stop c ≡ false)
    (percent : stop b'%' ≡ false) (hex : (d : ℕ) → d < 16 → stop (hex_digit d) ≡ false) where
  encode_byte-Avoids : (b : ℕ) → IsByte b → Avoids stop (encode_byte allowed b)
  unfolding encode_byte upper_hex
  encode_byte-Avoids b h = elim (Bool-cases (allowed b)) [
    | inl e ↦ rw e (set b e, tt)
    | inr e ↦ rw e (percent, (hex (b / 16) (omega arith), (hex (b % 16) (omega arith), tt)))
  ]

  pub encode_element-Avoids : (bs : Bytes) → All IsByte bs → Avoids stop (encode_element bs allowed)
  unfolding encode_element
  encode_element-Avoids [] _ = tt
  encode_element-Avoids (b ∷ bs) (hb, hs) =
      All-append _ (encode_byte allowed b) (encode_element bs allowed) (encode_byte-Avoids b hb)
        (encode_element-Avoids bs hs)

-- So for a single character that is none of these.
module _ (allowed : CharSet) (d : ℕ) (out : allowed d ≡ false) where
  hex_digit-ne : hexdig d ≡ false → (n : ℕ) → n < 16 → (hex_digit n == d) ≡ false
  unfolding hexdig hex_digit
  hex_digit-ne h n lt = ground arith

  pub encode_element-Lacks :
      (bs : Bytes)
      → (b'%' == d) ≡ false
      → hexdig d ≡ false
      → All IsByte bs
      → Avoids (λ c. c == d) (encode_element bs allowed)
  encode_element-Lacks bs p h =
      encode_element-Avoids allowed (λ c. c == d) (eq-false allowed d out) p (hex_digit-ne h) bs
