-- ===== src/Uri/Path/Delimiters.antt =====
-- How a printed path begins, and which characters it does not hold.
use uri.Codec.Output.{encode_element-Lacks}
use uri.Text.Slices.Laws.{Avoids}
use uri.Codec.{encode_element}
use uri.Codec.RoundTrip.{IsByte}
use uri.Prelude.{
  All-append, refl, append-nil, arith, ◌==◌, sym, ◌∙◌, ◌++◌, true, [], false, none, ◌≡◌, ◌∷◌, ◌≢◌,
  All, List, ℕ,
}
use uri.Text.{codes, Text, Bytes}
use uri.Text.Slices.{strip_prefix}
use uri.CharacterClasses.{pchar_not_pct_encoded, hexdig}
use uri.Uri.Path.{join, is_path_absolute}
use uri.Uri.Display.{fmt_path}
use uri.Uri.Path.RoundTrip.{
  IsPathBytes, encode_segment, path_text, fmt_path-path_text, fmt_path-root, segment-Lacks,
  encode_element-ne-nil,
}

module _ (d : ℕ) (out : pchar_not_pct_encoded d ≡ false) (hex : hexdig d ≡ false)
    (marks : ((b'%' == d) ≡ false) × ((b'/' == d) ≡ false)) where
  path_text-Avoids : (path : List Bytes) → IsPathBytes path → Avoids (λ c. c == d) (path_text path)
  unfolding join
  path_text-Avoids [] h = tt
  path_text-Avoids (a ∷ []) h = encode_element-Lacks pchar_not_pct_encoded d out a marks.0 hex h.0
  path_text-Avoids (a ∷ b ∷ path) (h, hs) =
      All-append _ (encode_segment a) (b'/' ∷ path_text (b ∷ path))
        (encode_element-Lacks pchar_not_pct_encoded d out a marks.0 hex h)
        (marks.1, path_text-Avoids (b ∷ path) hs)

  -- A path holds no character that is neither in its set nor a slash.
  pub fmt_path-Avoids :
      (path : List Bytes) → IsPathBytes path → Avoids (λ c. c == d) (fmt_path path)
  fmt_path-Avoids [] h = rw (fmt_path-path_text [] (λ e. cc)) (path_text-Avoids [] h)
  fmt_path-Avoids ([] ∷ []) h = rw fmt_path-root (marks.1, tt)
  fmt_path-Avoids ([] ∷ b ∷ path) h =
      rw (fmt_path-path_text ([] ∷ b ∷ path) (λ e. cc)) (path_text-Avoids ([] ∷ b ∷ path) h)
  fmt_path-Avoids ((x ∷ a) ∷ path) h =
      rw (fmt_path-path_text ((x ∷ a) ∷ path) (λ e. cc)) (path_text-Avoids ((x ∷ a) ∷ path) h)

-- An absolute path begins with a slash.
pub fmt_path-Begins :
    (path : List Bytes) → is_path_absolute path ≡ true → (s : Text) × (fmt_path path ≡ b'/' ∷ s)
unfolding is_path_absolute
fmt_path-Begins [] h = cc
fmt_path-Begins ([] ∷ []) h = ([], fmt_path-root)
fmt_path-Begins ([] ∷ b ∷ path) h = (
  path_text (b ∷ path),
  fmt_path-path_text ([] ∷ b ∷ path) (λ e. cc) ∙ unfold join encode_element in refl,
)
fmt_path-Begins ((x ∷ a) ∷ path) h = cc

-- The first two segments are not both empty.
abbrev pub NotTwoEmpty : List Bytes → Type 0
NotTwoEmpty ([] ∷ [] ∷ path) = ⊥
NotTwoEmpty _ = Unit

strip_prefix-Avoids :
    (s t : Text)
    → s ≢ []
    → Avoids (λ c. c == b'/') s
    → (strip_prefix (codes "//") (s ++ t) ≡ none)
      × (strip_prefix (codes "//") (b'/' ∷ (s ++ t)) ≡ none)
unfolding strip_prefix
strip_prefix-Avoids [] t h a = absurd (h refl)
strip_prefix-Avoids (c ∷ s) t h (a, _) = (ground arith, ground arith)

-- A segment that is not empty, and what follows it.
path_text-cons :
    (a : Bytes) (path : List Bytes) → (t : Text) × (path_text (a ∷ path) ≡ encode_segment a ++ t)
unfolding join
path_text-cons a [] = ([], sym (append-nil (encode_segment a)))
path_text-cons a (b ∷ path) = (b'/' ∷ path_text (b ∷ path), refl)

strip_prefix-segment :
    (x : ℕ) (a : Bytes) (path : List Bytes)
    → All IsByte (x ∷ a)
    → (strip_prefix (codes "//") (path_text ((x ∷ a) ∷ path)) ≡ none)
      × (strip_prefix (codes "//") (b'/' ∷ path_text ((x ∷ a) ∷ path)) ≡ none)
strip_prefix-segment x a path h =
    let (t, e) = path_text-cons (x ∷ a) path in
    rw e (
      strip_prefix-Avoids (encode_segment (x ∷ a)) t (encode_element-ne-nil x a)
        (segment-Lacks (x ∷ a) h))

-- Without two empty segments in front a path is not taken for an authority.
pub strip_prefix-fmt_path :
    (path : List Bytes)
    → IsPathBytes path
    → NotTwoEmpty path
    → strip_prefix (codes "//") (fmt_path path) ≡ none
strip_prefix-fmt_path [] h n =
    rw (fmt_path-path_text [] (λ e. cc)) (unfold strip_prefix join in refl)
strip_prefix-fmt_path ([] ∷ []) h n = rw fmt_path-root (unfold strip_prefix in refl)
strip_prefix-fmt_path ([] ∷ [] ∷ path) h n = absurd n
strip_prefix-fmt_path ([] ∷ (x ∷ a) ∷ path) h n =
    rw (fmt_path-path_text ([] ∷ (x ∷ a) ∷ path) (λ e. cc))
      (unfold join encode_element in (strip_prefix-segment x a path h.1.0).1)
strip_prefix-fmt_path ((x ∷ a) ∷ path) h n =
    rw (fmt_path-path_text ((x ∷ a) ∷ path) (λ e. cc)) (strip_prefix-segment x a path h.0).0
