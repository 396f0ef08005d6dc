-- ===== src/Text/Str.antt =====
-- `str::len`, `str::find` and slices of a `str`, at positions that count bytes.
pub mod Offsets
use uri.Prelude.{
  true, false, ℕ, ◌+◌, ◌-◌, Bool, List, [], ◌∷◌, Option, none, some, ◌==◌, ltb, if◌then◌else◌,
}
use uri.Error.{Error, Result, ok, panic, ◌>>=◌}

-- `char::len_utf8`
abbrev pub len_utf8 : ℕ → ℕ
len_utf8 c = if ltb c 0x80 then 1 else if ltb c 0x800 then 2 else if ltb c 0x10000 then 3 else 4

unfoldable pub byte_len : List ℕ → ℕ
byte_len [] = 0
byte_len (c ∷ s) = len_utf8 c + byte_len s

unfoldable pub find : (ℕ → Bool) → List ℕ → Option ℕ
find p [] = none
find p (c ∷ s) =
    if p c then some 0 else (elim (find p s) [ none ↦ none | some i ↦ some (len_utf8 c + i) ])

-- `find(…).unwrap_or_else(|| s.len())`
abbrev pub find_or_end : (ℕ → Bool) → List ℕ → ℕ
find_or_end p s = elim (find p s) [ some i ↦ i | none ↦ byte_len s ]

unfoldable pub starts_with : List ℕ → List ℕ → Bool
starts_with [] s = true
starts_with (p ∷ ps) [] = false
starts_with (p ∷ ps) (c ∷ s) = if c == p then starts_with ps s else false

-- `s[i..]`, which panics behind the end and inside a character.
unfoldable pub slice_from : ℕ → List ℕ → Result Error (List ℕ)
slice_from i [] = if i == 0 then ok [] else panic
slice_from i (c ∷ s) =
    let rest = slice_from (i - len_utf8 c) s in
    if i == 0 then ok (c ∷ s) else if ltb i (len_utf8 c) then panic else rest

-- `s[0..i]`, which panics at the same positions.
unfoldable pub slice_to : ℕ → List ℕ → Result Error (List ℕ)
slice_to i [] = if i == 0 then ok [] else panic
slice_to i (c ∷ s) =
    let rest = slice_to (i - len_utf8 c) s in
    if i == 0 then ok [] else if ltb i (len_utf8 c) then panic else (rest >>= λ t. ok (c ∷ t))
