-- ===== src/Text.antt =====
-- Rust's `char`, `str` and byte vectors, as the crate uses them. A `str` is the list of its
-- characters (code points). Str has its slices at positions that count bytes, Slices the same
-- cuts at positions that count characters. The children model the parts of the standard library
-- that the crate calls.
pub mod Str
pub mod Slices
pub mod Numbers
pub mod Utf8
use Prim.Native.Char.{code}
use Prim.Native.String.{String}
use uri.Prelude.{
  ℕ, suc, Bool, true, false, List, [], ◌∷◌, Option, none, some, ◌==◌, within, ◌&&◌, ◌||◌,
  if◌then◌else◌, ◌+◌, map,
}

abbrev pub Text : Type 0
Text = List ℕ

abbrev pub Bytes : Type 0
Bytes = List ℕ

-- The code points of a literal.
abbrev pub codes : String → Text
codes String.[] = []
codes (String.◌∷◌ c s) = code c ∷ codes s

-- `==` on texts and on byte vectors.
unfoldable pub equal : Text → Text → Bool
equal [] [] = true
equal (c ∷ s) (d ∷ t) = c == d && equal s t
equal _ _ = false

-- `u8::to_ascii_lowercase`
unfoldable pub to_lower : ℕ → ℕ
to_lower c = if within b'A' b'Z' c then c + 32 else c

-- `str::to_ascii_lowercase`, `make_ascii_lowercase` on bytes, and `str::to_lowercase` on a text of
-- ASCII characters.
abbrev pub lowercase : Text → Text
lowercase = map to_lower

-- `contains` on a set that is given by its elements.
abbrev pub one_of : Text → ℕ → Bool
one_of [] c = false
one_of (d ∷ s) c = c == d || one_of s c
