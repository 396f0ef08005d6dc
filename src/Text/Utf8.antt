-- ===== src/Text/Utf8.antt =====
-- `str::as_bytes` and `String::from_utf8`.
pub mod Ascii
pub mod RoundTrip
use uri.Prelude.{
  ℕ, suc, zero, ◌+◌, ◌-◌, ◌*◌, ◌/◌, ◌%◌, List, [], ◌∷◌, ◌++◌, Option, none, some, ◌==◌, ltb, within,
  if◌then◌else◌,
}

-- The UTF-8 form of one character.
unfoldable pub encode_char : ℕ → List ℕ
encode_char c =
    if ltb c 0x80
    then c ∷ []
    else if ltb c 0x800
    then (0xC0 + c / 64) ∷ (0x80 + c % 64) ∷ []
    else if ltb c 0x10000
    then (0xE0 + c / 4096) ∷ (0x80 + c / 64 % 64) ∷ (0x80 + c % 64) ∷ []
    else (0xF0 + c / 262144) ∷ (0x80 + c / 4096 % 64) ∷ (0x80 + c / 64 % 64) ∷ (0x80 + c % 64) ∷ []

-- `str::as_bytes`
unfoldable pub as_bytes : List ℕ → List ℕ
unfolding encode_char
as_bytes [] = []
as_bytes (c ∷ s) = encode_char c ++ as_bytes s

-- Between two characters, or inside one: the bytes still wanted after the next, the range of the
-- next byte, and the bits read so far.
pub data Utf8State : Type 0 where
  start : Utf8State
  inside : ℕ → ℕ → ℕ → ℕ → Utf8State

-- The well-formed first bytes, and the ranges of their second bytes (no overlong form, no
-- surrogate, nothing above U+10FFFF).
unfoldable pub lead_byte : ℕ → Option (Utf8State × Option ℕ)
lead_byte b =
    if ltb b 0x80
    then some (start, some b)
    else if within 0xC2 0xDF b
    then some (inside 0 0x80 0xBF (b - 0xC0), none)
    else if b == 0xE0
    then some (inside 1 0xA0 0xBF 0, none)
    else if b == 0xED
    then some (inside 1 0x80 0x9F 0xD, none)
    else if within 0xE1 0xEF b
    then some (inside 1 0x80 0xBF (b - 0xE0), none)
    else if b == 0xF0
    then some (inside 2 0x90 0xBF 0, none)
    else if within 0xF1 0xF3 b
    then some (inside 2 0x80 0xBF (b - 0xF0), none)
    else if b == 0xF4
    then some (inside 2 0x80 0x8F 4, none)
    else none

-- One byte: the next state, and the character that it completes.
unfoldable pub next_byte : Utf8State → ℕ → Option (Utf8State × Option ℕ)
unfolding lead_byte
next_byte start b = lead_byte b
next_byte (inside zero lo hi acc) b =
    if within lo hi b then some (start, some (acc * 64 + (b - 0x80))) else none
next_byte (inside (suc more) lo hi acc) b =
    if within lo hi b then some (inside more 0x80 0xBF (acc * 64 + (b - 0x80)), none) else none

abbrev pub emit : Option ℕ → Option (List ℕ) → Option (List ℕ)
emit out none = none
emit none (some s) = some s
emit (some c) (some s) = some (c ∷ s)

unfoldable pub decode_utf8 : Utf8State → List ℕ → Option (List ℕ)
unfolding next_byte
decode_utf8 start [] = some []
decode_utf8 (inside _ _ _ _) [] = none
decode_utf8 st (b ∷ s) = elim (next_byte st b) [
  | none ↦ none
  | some (st', out) ↦ emit out (decode_utf8 st' s)
]

-- `String::from_utf8`; `none` is its error, which keeps the bytes.
unfoldable pub from_utf8 : List ℕ → Option (List ℕ)
unfolding decode_utf8
from_utf8 = decode_utf8 start
