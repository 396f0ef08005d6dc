-- ===== src/Uri/Path/RoundTrip.antt =====
-- Parsing what `Display` writes for a path.
use uri.CharacterClasses.Delimiters.{pchar-Excludes}
use uri.Codec.Output.{encode_element-Lacks}
use uri.Text.Slices.Laws.{split-append, Avoids, split-one}
use uri.CharacterClasses.{hexdig, pchar_not_pct_encoded}
use uri.Error.{Context, ok}
use uri.Codec.{encode_byte, encode_element}
use uri.Text.Slices.{split}
use uri.Codec.RoundTrip.{decode_element-encode_element, IsByte}
use uri.Prelude.{
  sym, ◌&&◌, ==_iff, is_empty, suc, ◌++◌, true, inr, append-nil, arith, inl, false, Bool-cases, ltb,
  ◌≢◌, ap, ◌∙◌, refl, ◌==◌, [], ◌≡◌, length, All, ◌∷◌, map, ◌+◌, List, ℕ,
}
use uri.Text.{equal, codes, Text, Bytes}
use uri.Uri.Path.{join, is_path_absolute}
use uri.Uri.Parse.{parse_path, decode_segments}
use uri.Uri.Display.{fmt_path, fmt_segments}

abbrev pub IsPathBytes : List Bytes → Type 0
IsPathBytes = All (All IsByte)

abbrev pub encode_segment : Bytes → Text
encode_segment segment = encode_element segment pchar_not_pct_encoded

-- The loop of `fmt` puts a slash between two segments.
fmt_segments-join :
    (n i : ℕ) (path : List Bytes)
    → i + length path ≡ n
    → fmt_segments n i path ≡ join (map encode_segment path)
unfolding fmt_segments join
fmt_segments-join n i [] e = refl
fmt_segments-join n i (a ∷ []) e =
    let last : ltb (i + 1) n ≡ false = ground arith in rw last (append-nil (encode_segment a))
fmt_segments-join n i (a ∷ b ∷ path) e =
    let more : ltb (i + 1) n ≡ true = ground arith in
    rw more (
      ap (λ (t : Text). encode_segment a ++ b'/' ∷ t)
        (fmt_segments-join n (suc i) (b ∷ path) (omega (arith, e))))

pub segment-Lacks : (a : Bytes) → All IsByte a → Avoids (λ c. c == b'/') (encode_segment a)
segment-Lacks a h =
    encode_element-Lacks pchar_not_pct_encoded b'/' pchar-Excludes.slash a refl
      (unfold hexdig in refl) h

split-join :
    (a : Bytes) (path : List Bytes)
    → IsPathBytes (a ∷ path)
    → split b'/' (join (map encode_segment (a ∷ path))) ≡ map encode_segment (a ∷ path)
unfolding join
split-join a [] (h, _) = split-one b'/' (encode_segment a) (segment-Lacks a h)
split-join a (b ∷ path) (h, hs) =
    split-append b'/' (encode_segment a) _ (segment-Lacks a h)
    ∙ ap (◌∷◌ (encode_segment a)) (split-join b path hs)

decode_segments-map :
    (path : List Bytes) → IsPathBytes path → decode_segments (map encode_segment path) ≡ ok path
unfolding decode_segments
decode_segments-map [] h = refl
decode_segments-map (a ∷ path) (h, hs) =
    rw
      (decode_element-encode_element pchar_not_pct_encoded pchar_not_pct_encoded Context.path
        (λ c e. e) pchar-Excludes.percent a h)
      (rw (decode_segments-map path hs))

-- The paths in the form in which the parser leaves them: `["", ""]` prints as `/`, which is read as
-- `[""]`.
pub record IsPath (path : List Bytes) : Type 0 where
  pub bytes : IsPathBytes path
  pub not_two_empty : path ≢ [] ∷ [] ∷ []

pub encode_element-ne-nil : (b : ℕ) (bs : Bytes) → encode_segment (b ∷ bs) ≢ []
unfolding encode_element encode_byte
encode_element-ne-nil b bs h = elim (Bool-cases (pchar_not_pct_encoded b)) [
  | inl e ↦ cc (rw e at h)
  | inr e ↦ cc (rw e at h)
]

-- The text of a path.
abbrev pub path_text : List Bytes → Text
path_text path = join (map encode_segment path)

pub fmt_path-root : fmt_path ([] ∷ []) ≡ codes "/"
unfolding fmt_path encode_element is_path_absolute
fmt_path-root = refl

pub fmt_path-path_text : (path : List Bytes) → path ≢ [] ∷ [] → fmt_path path ≡ path_text path
unfolding fmt_path is_path_absolute join
fmt_path-path_text [] h = refl
fmt_path-path_text ([] ∷ []) h = absurd (h refl)
fmt_path-path_text ((b ∷ bs) ∷ []) h = fmt_segments-join 1 0 ((b ∷ bs) ∷ []) refl
fmt_path-path_text (a ∷ b ∷ path) h =
    let long : (is_empty a && length (a ∷ b ∷ path) == 1) ≡ false = ground arith in
    rw long (fmt_segments-join (length (a ∷ b ∷ path)) 0 (a ∷ b ∷ path) (omega arith))

-- A text that is neither empty nor one slash is split.
parse_path-split :
    (s : Text) → s ≢ [] → s ≢ codes "/" → parse_path s ≡ decode_segments (split b'/' s)
unfolding parse_path equal
parse_path-split [] h k = absurd (h refl)
parse_path-split (c ∷ []) h k = elim (Bool-cases (c == b'/')) [
  | inl e ↦ absurd (k (ap (λ (x : ℕ). x ∷ []) ((==_iff c b'/').0 e)))
  | inr e ↦ ground (arith, e)
]
parse_path-split (c ∷ d ∷ s) h k = ground arith

encode_segment-eq-nil : (a : Bytes) → encode_segment a ≡ [] → a ≡ []
encode_segment-eq-nil [] e = refl
encode_segment-eq-nil (b ∷ a) e = absurd (encode_element-ne-nil b a e)

map-eq-root : (path : List Bytes) → map encode_segment path ≡ [] ∷ [] → path ≡ [] ∷ []
map-eq-root [] e = cc
map-eq-root (a ∷ []) e = ap (λ (x : Bytes). x ∷ []) (encode_segment-eq-nil a (cc))
map-eq-root (a ∷ b ∷ path) e = cc

map-eq-two_empty :
    (path : List Bytes) → map encode_segment path ≡ [] ∷ [] ∷ [] → path ≡ [] ∷ [] ∷ []
map-eq-two_empty [] e = cc
map-eq-two_empty (a ∷ []) e = cc
map-eq-two_empty (a ∷ b ∷ []) e = cc (encode_segment-eq-nil a (cc), encode_segment-eq-nil b (cc))
map-eq-two_empty (a ∷ b ∷ c ∷ path) e = cc

parse_path-path_text :
    (a : Bytes) (path : List Bytes)
    → IsPath (a ∷ path)
    → a ∷ path ≢ [] ∷ []
    → parse_path (fmt_path (a ∷ path)) ≡ ok (a ∷ path)
parse_path-path_text a path h ne =
    let parts = split-join a path h.bytes in
    let cut : split b'/' [] ≡ [] ∷ [] = unfold split in refl in
    let cut_slash : split b'/' (codes "/") ≡ [] ∷ [] ∷ [] = unfold split in refl in
    rw (fmt_path-path_text (a ∷ path) ne) (
      parse_path-split (path_text (a ∷ path))
        (λ e. ne (map-eq-root (a ∷ path) (sym parts ∙ ap (split b'/') e ∙ cut)))
        (λ e.
          h.not_two_empty (map-eq-two_empty (a ∷ path) (sym parts ∙ ap (split b'/') e ∙ cut_slash)))
      ∙ ap decode_segments parts
      ∙ decode_segments-map (a ∷ path) h.bytes)

-- A path is read back from its print.
pub parse_path-fmt_path : (path : List Bytes) → IsPath path → parse_path (fmt_path path) ≡ ok path
parse_path-fmt_path [] h = unfold parse_path fmt_path is_path_absolute equal in refl
parse_path-fmt_path ([] ∷ []) h = rw fmt_path-root (unfold parse_path equal in refl)
parse_path-fmt_path ([] ∷ b ∷ path) h = parse_path-path_text [] (b ∷ path) h (λ e. cc)
parse_path-fmt_path ((x ∷ a) ∷ path) h = parse_path-path_text (x ∷ a) path h (λ e. cc)
