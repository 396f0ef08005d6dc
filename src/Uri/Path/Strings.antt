-- ===== src/Uri/Path/Strings.antt =====
-- src/uri.rs: the conversions of a path from and to strings.
use uri.Error.{ok}
use uri.Text.Utf8.RoundTrip.{from_utf8-as_bytes, IsChar}
use uri.Text.{Bytes, Text}
use uri.Text.Utf8.{from_utf8, encode_char, as_bytes}
use uri.Prelude.{
  true, sym, arith, false, All, inr, ap, ◌∙◌, ==_iff, inl, append_assoc, ◌==◌, refl, Bool-cases,
  ◌++◌, ◌∷◌, [], ◌≡◌, ◌≢◌, map, ℕ, List,
}
use uri.Uri.Data.{Uri, to_string, set_path}
use uri.Uri.Path.{is_root, join, path_to_string, set_path_from_str}
use uri.Text.Slices.{extend_first, split}

extend_first-ne-nil : (c : ℕ) (parts : List Text) → extend_first c parts ≢ []
extend_first-ne-nil c [] e = cc
extend_first-ne-nil c (p ∷ parts) e = cc

-- A split has a first part.
split-ne-nil : (sep : ℕ) (s : Text) → split sep s ≢ []
unfolding split
split-ne-nil sep [] = λ e. cc
split-ne-nil sep (c ∷ s) = elim (Bool-cases (c == sep)) [
  | inl h ↦ rw h (λ e. cc)
  | inr h ↦ rw h (extend_first-ne-nil c (split sep s))
]

-- The bytes of the parts, with a separator between two of them.
join-extend_first :
    (c : ℕ) (parts : List Text)
    → parts ≢ []
    → join (map as_bytes (extend_first c parts)) ≡ encode_char c ++ join (map as_bytes parts)
unfolding join as_bytes
join-extend_first c [] h = absurd (h refl)
join-extend_first c (p ∷ []) h = refl
join-extend_first c (p ∷ q ∷ parts) h = rw append_assoc

join_slash :
    (parts : List Text)
    → parts ≢ []
    → join ([] ∷ map as_bytes parts) ≡ b'/' ∷ join (map as_bytes parts)
unfolding join
join_slash [] h = absurd (h refl)
join_slash (p ∷ parts) h = refl

join-split : (s : Text) → join (map as_bytes (split b'/' s)) ≡ as_bytes s
unfolding split as_bytes join encode_char
join-split [] = refl
join-split (c ∷ s) = elim (Bool-cases (c == b'/')) [
  | inl e ↦
      let same : c ≡ b'/' = (==_iff c b'/').0 e in
      rw (e, same) (join_slash (split b'/' s) (split-ne-nil b'/' s) ∙ ap (◌∷◌ b'/') (join-split s))
  | inr e ↦ rw e (
      join-extend_first c (split b'/' s) (split-ne-nil b'/' s)
      ∙ ap (◌++◌ (encode_char c)) (join-split s))
]

as_bytes-ne-nil : (c : ℕ) (s : Text) → as_bytes (c ∷ s) ≢ []
unfolding as_bytes encode_char
as_bytes-ne-nil c s = ground arith

root-join : (path : List Bytes) → is_root path ≡ true → join path ≡ []
unfolding join
root-join [] h = refl
root-join ([] ∷ []) h = refl
root-join ((c ∷ s) ∷ []) h = cc
root-join ([] ∷ b ∷ path) h = cc
root-join ((c ∷ s) ∷ b ∷ path) h = cc

-- No text gives the path that `path_to_string` treats apart.
is_root-split : (c : ℕ) (s : Text) → is_root (map as_bytes (split b'/' (c ∷ s))) ≡ false
is_root-split c s = elim (Bool-cases (is_root (map as_bytes (split b'/' (c ∷ s))))) [
  | inl e ↦ absurd (as_bytes-ne-nil c s (sym (join-split (c ∷ s)) ∙ root-join _ e))
  | inr e ↦ e
]

-- The string that a path was set from is the string that it converts to.
pub path_to_string-set_path_from_str :
    (u : Uri) (s : Text) → All IsChar s → path_to_string (set_path_from_str u s) ≡ ok s
unfolding path_to_string set_path_from_str set_path to_string from_utf8
path_to_string-set_path_from_str u [] h = refl
path_to_string-set_path_from_str u (c ∷ s) h =
    rw (is_root-split c s) (rw (join-split (c ∷ s), to_string, from_utf8-as_bytes (c ∷ s) h))
