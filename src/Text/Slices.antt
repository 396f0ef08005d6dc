-- ===== src/Text/Slices.antt =====
-- `str::find`, `str::split` on one character and `str::strip_prefix`.
pub mod Laws
pub mod Until
use uri.Prelude.{length, ℕ, suc, Bool, List, [], ◌∷◌, Option, none, some, ◌==◌, if◌then◌else◌}

-- The position of the first character that passes the test.
unfoldable pub find : (ℕ → Bool) → List ℕ → Option ℕ
find p [] = none
find p (c ∷ s) = if p c then some 0 else (elim (find p s) [ none ↦ none | some i ↦ some (suc i) ])

-- A character in front of the first part.
abbrev pub extend_first : ℕ → List (List ℕ) → List (List ℕ)
extend_first c [] = (c ∷ []) ∷ []
extend_first c (p ∷ ps) = (c ∷ p) ∷ ps

unfoldable pub split : ℕ → List ℕ → List (List ℕ)
split sep [] = [] ∷ []
split sep (c ∷ s) = let rest = split sep s in if c == sep then [] ∷ rest else extend_first c rest

unfoldable pub strip_prefix : List ℕ → List ℕ → Option (List ℕ)
strip_prefix [] s = some s
strip_prefix (p ∷ ps) [] = none
strip_prefix (p ∷ ps) (c ∷ s) = if c == p then strip_prefix ps s else none

-- `find(…).unwrap_or_else(|| s.len())`
abbrev pub find_or_end : (ℕ → Bool) → List ℕ → ℕ
find_or_end p s = elim (find p s) [ some i ↦ i | none ↦ length s ]
