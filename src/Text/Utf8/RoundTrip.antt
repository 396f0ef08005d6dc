-- ===== src/Text/Utf8/RoundTrip.antt =====
-- The UTF-8 bytes of a text, and what `from_utf8` reads from them.
use uri.Text.Utf8.Ascii.{emit-none}
use uri.Prelude.{
  [], All, refl, ltb, ◌∙◌, ◌∷◌, ◌++◌, List, inr, inl, ◌==◌, Bool-cases, arith, ◌%◌, ◌-◌, ◌*◌, suc,
  ◌+◌, none, some, ◌/◌, ◌⊎◌, true, within, ◌<◌, ◌≡◌, ◌≤◌, ℕ,
}
use uri.Text.Utf8.{
  as_bytes, Utf8State, emit, from_utf8, decode_utf8, encode_char, start, inside, next_byte,
}

-- A `char` is no surrogate.
abbrev pub IsChar : ℕ → Type 0
IsChar c = (c < 0xD800) ⊎ ((0xE000 ≤ c) × (c < 0x110000))

-- A byte inside a character, with more to come, and the last one.
next_byte_more :
    (more lo hi acc b : ℕ)
    → within lo hi b ≡ true
    → next_byte (inside (suc more) lo hi acc) b
      ≡ some (inside more 0x80 0xBF (acc * 64 + (b - 0x80)), none)
unfolding next_byte
next_byte_more more lo hi acc b h = rw h

next_byte_last :
    (lo hi acc b : ℕ)
    → within lo hi b ≡ true
    → next_byte (inside 0 lo hi acc) b ≡ some (start, some (acc * 64 + (b - 0x80)))
unfolding next_byte
next_byte_last lo hi acc b h = rw h

-- The range that the first byte of a character gives to the second one.
record Leads (more bits second first : ℕ) : Type 0 where
  lo : ℕ
  hi : ℕ
  leads : next_byte start first ≡ some (inside more lo hi bits, none)
  in_range : within lo hi second ≡ true

two-Leads : (c : ℕ) → 0x80 ≤ c → c < 0x800 → Leads 0 (c / 64) (0x80 + c % 64) (0xC0 + c / 64)
unfolding next_byte
two-Leads c l h = record { lo = 0x80; hi = 0xBF; leads = ground arith; in_range = ground arith }

three-Leads :
    (c : ℕ)
    → 0x800 ≤ c
    → c < 0x10000
    → IsChar c
    → Leads 1 (c / 4096) (0x80 + c / 64 % 64) (0xE0 + c / 4096)
unfolding next_byte
three-Leads c l h ch = elim (Bool-cases (c / 4096 == 0)) [
  | inl e ↦ record { lo = 0xA0; hi = 0xBF; leads = ground arith; in_range = ground arith }
  | inr e ↦ elim (Bool-cases (c / 4096 == 13)) [
    | inl d ↦ record { lo = 0x80; hi = 0x9F; leads = ground arith; in_range = ground (arith, ch) }
    | inr d ↦ record { lo = 0x80; hi = 0xBF; leads = ground arith; in_range = ground arith }
  ]
]

four-Leads :
    (c : ℕ)
    → 0x10000 ≤ c
    → c < 0x110000
    → Leads 2 (c / 262144) (0x80 + c / 4096 % 64) (0xF0 + c / 262144)
unfolding next_byte
four-Leads c l h = elim (Bool-cases (c / 262144 == 0)) [
  | inl e ↦ record { lo = 0x90; hi = 0xBF; leads = ground arith; in_range = ground arith }
  | inr e ↦ elim (Bool-cases (c / 262144 == 4)) [
    | inl d ↦ record { lo = 0x80; hi = 0x8F; leads = ground arith; in_range = ground arith }
    | inr d ↦ record { lo = 0x80; hi = 0xBF; leads = ground arith; in_range = ground arith }
  ]
]

decode_utf8_more :
    (st st' : Utf8State) (b : ℕ) (bs : List ℕ)
    → next_byte st b ≡ some (st', none)
    → decode_utf8 st (b ∷ bs) ≡ decode_utf8 st' bs
unfolding decode_utf8
decode_utf8_more start st' b bs h = rw (decode_utf8, h, emit-none (decode_utf8 st' bs))
decode_utf8_more (inside m lo hi acc) st' b bs h =
    rw (decode_utf8, h, emit-none (decode_utf8 st' bs))

decode_utf8_last :
    (lo hi acc b : ℕ) (bs : List ℕ)
    → within lo hi b ≡ true
    → decode_utf8 (inside 0 lo hi acc) (b ∷ bs)
      ≡ emit (some (acc * 64 + (b - 0x80))) (decode_utf8 start bs)
unfolding decode_utf8
decode_utf8_last lo hi acc b bs h = rw (decode_utf8, next_byte_last lo hi acc b h)

-- A continuation byte carries six bits.
continues : (n : ℕ) → within 0x80 0xBF (0x80 + n % 64) ≡ true
continues n = ground arith

module _ (c : ℕ) (bs : List ℕ) where
  decode_two :
      0x80 ≤ c
      → c < 0x800
      → decode_utf8 start ((0xC0 + c / 64) ∷ (0x80 + c % 64) ∷ bs)
        ≡ emit (some c) (decode_utf8 start bs)
  decode_two l h =
      let v = two-Leads c l h in
      let value : c / 64 * 64 + (0x80 + c % 64 - 0x80) ≡ c = omega arith in
      decode_utf8_more start _ _ _ v.leads
      ∙ decode_utf8_last v.lo v.hi (c / 64) (0x80 + c % 64) bs v.in_range
      ∙ rw value

  decode_three :
      0x800 ≤ c
      → c < 0x10000
      → IsChar c
      → decode_utf8 start ((0xE0 + c / 4096) ∷ (0x80 + c / 64 % 64) ∷ (0x80 + c % 64) ∷ bs)
        ≡ emit (some c) (decode_utf8 start bs)
  decode_three l h ch =
      let v = three-Leads c l h ch in
      let value : (c / 4096 * 64 + (0x80 + c / 64 % 64 - 0x80)) * 64 + (0x80 + c % 64 - 0x80) ≡ c =
        omega arith in
      decode_utf8_more start _ _ _ v.leads
      ∙ decode_utf8_more _ _ _ _
          (next_byte_more 0 v.lo v.hi (c / 4096) (0x80 + c / 64 % 64) v.in_range)
      ∙ decode_utf8_last 0x80 0xBF (c / 4096 * 64 + (0x80 + c / 64 % 64 - 0x80)) (0x80 + c % 64) bs
          (continues c)
      ∙ rw value

  decode_four :
      0x10000 ≤ c
      → c < 0x110000
      → decode_utf8 start (
          (0xF0 + c / 262144)
          ∷ (0x80 + c / 4096 % 64)
          ∷ (0x80 + c / 64 % 64)
          ∷ (0x80 + c % 64)
          ∷ bs)
        ≡ emit (some c) (decode_utf8 start bs)
  decode_four l h =
      let v = four-Leads c l h in
      let acc = c / 262144 * 64 + (0x80 + c / 4096 % 64 - 0x80) in
      let acc' = acc * 64 + (0x80 + c / 64 % 64 - 0x80) in
      let value : acc' * 64 + (0x80 + c % 64 - 0x80) ≡ c = omega arith in
      decode_utf8_more start _ _ _ v.leads
      ∙ decode_utf8_more _ _ _ _
          (next_byte_more 1 v.lo v.hi (c / 262144) (0x80 + c / 4096 % 64) v.in_range)
      ∙ decode_utf8_more _ _ _ _
          (next_byte_more 0 0x80 0xBF acc (0x80 + c / 64 % 64) (continues (c / 64)))
      ∙ decode_utf8_last 0x80 0xBF acc' (0x80 + c % 64) bs (continues c)
      ∙ rw value

decode_one :
    (c : ℕ) (bs : List ℕ)
    → ltb c 0x80 ≡ true
    → decode_utf8 start (c ∷ bs) ≡ emit (some c) (decode_utf8 start bs)
unfolding decode_utf8 next_byte
decode_one c bs h = rw (decode_utf8, lead_ascii)
  where
    lead_ascii : next_byte start c ≡ some (start, some c)
    lead_ascii = ground (arith, h)

decode_utf8-encode_char :
    (c : ℕ) (bs : List ℕ)
    → IsChar c
    → decode_utf8 start (encode_char c ++ bs) ≡ emit (some c) (decode_utf8 start bs)
unfolding encode_char
decode_utf8-encode_char c bs h = elim (Bool-cases (ltb c 0x80)) [
  | inl a ↦ rw a (decode_one c bs a)
  | inr a ↦ elim (Bool-cases (ltb c 0x800)) [
    | inl b ↦ rw (a, b) (decode_two c bs (ground arith) (ground arith))
    | inr b ↦ elim (Bool-cases (ltb c 0x10000)) [
      | inl d ↦ rw (a, b, d) (decode_three c bs (ground arith) (ground arith) h)
      | inr d ↦ rw (a, b, d) (decode_four c bs (ground arith) (ground arith))
    ]
  ]
]

-- The bytes of a text are read back as the text.
pub from_utf8-as_bytes : (s : List ℕ) → All IsChar s → from_utf8 (as_bytes s) ≡ some s
unfolding from_utf8 as_bytes
from_utf8-as_bytes [] h = refl
from_utf8-as_bytes (c ∷ s) (h, hs) =
    decode_utf8-encode_char c (as_bytes s) h ∙ rw (from_utf8-as_bytes s hs)
