-- ===== src/Uri/RoundTrip.antt =====
-- Parsing what `Display` writes for a URI.
use uri.CharacterClasses.{user_info_not_pct_encoded}
use uri.CharacterClasses.Delimiters.{pchar-Excludes, user_info-Excludes}
use uri.Authority.Delimiters.{
  hash-IsDelimiter, IsDelimiter, question-IsDelimiter, slash-IsDelimiter,
}
use uri.Error.{ok}
use uri.Text.Slices.Until.{
  drop_until-append, drop-find_or_end, take_until-append, take-find_or_end, take_until,
}
use uri.Uri.Path.Delimiters.{fmt_path-Avoids, fmt_path-Begins, NotTwoEmpty}
use uri.Authority.RoundTrip.{IsOptionBytes}
use uri.Text.Slices.Laws.{Avoids}
use uri.Text.{codes, Bytes, Text}
use uri.Prelude.{
  refl, [], ◌∷◌, false, append_assoc, is_empty, ap, ◌||◌, Bool, All-append, ℕ, ◌∙◌, none, true,
  some, ◌≡◌, ◌==◌, ◌++◌, List, Option,
}
use uri.Uri.Path.RoundTrip.{parse_path-fmt_path, IsPath}
use uri.Text.Slices.{strip_prefix}
use uri.Authority
use uri.Authority.{Authority}
use uri.Uri.Data.{Uri}
use uri.Uri.Parse.{parse}
use uri.Uri.Cut.{cut_uri, cut_scheme, cut_rest, cut_authority_and_path}
use uri.Uri.Slices.{parse-cut_uri}
use uri.Uri.Path.{is_path_absolute}
use uri.Uri.Display.{fmt, fmt_scheme, fmt_authority, fmt_path, fmt_query, fmt_fragment}
use uri.Uri.Pieces.{
  cut_query-fmt_query, cut_scheme-some, cut_fragment-fmt, cut_scheme-none, fmt_query-Begins,
  split_authority-none, IsScheme, ends_path,
}

-- With an authority the path is absolute; without one it does not begin with two empty segments.
abbrev pub FitsPath : Option Authority → List Bytes → Type 0
FitsPath none path = NotTwoEmpty path
FitsPath (some a) path = Authority.RoundTrip.IsCanonical a × (is_path_absolute path ≡ true)

-- Everything behind the scheme.
abbrev pub rest_text : Uri → Text
rest_text u =
    fmt_authority u.authority ++ (fmt_path u.path ++ (fmt_query u.query ++ fmt_fragment u.fragment))

-- Without a scheme no colon stands in front of the first slash, where it would end a scheme.
abbrev pub FitsScheme : Option Text → Text → Type 0
FitsScheme none rest = Avoids (λ c. c == b':') (take_until (λ c. c == b'/') rest)
FitsScheme (some s) rest = IsScheme s

-- The URIs in the form in which the parser leaves them.
pub record IsCanonical (u : Uri) : Type 0 where
  pub fits_scheme : FitsScheme u.scheme (rest_text u)
  pub fits_path : FitsPath u.authority u.path
  pub canonical_path : IsPath u.path
  pub query_bytes : IsOptionBytes u.query
  pub fragment_bytes : IsOptionBytes u.fragment

split_authority-some :
    (a : Authority) (path : List Bytes)
    → IsPath path
    → Authority.RoundTrip.IsCanonical a
    → is_path_absolute path ≡ true
    → cut_authority_and_path (fmt_authority (some a) ++ fmt_path path) ≡ ok (some a, path)
unfolding cut_authority_and_path fmt_authority strip_prefix
split_authority-some a path h ca abs =
    let (s, e) = fmt_path-Begins path abs in
    let slashes =
      Authority.RoundTrip.fmt-Avoids b'/' a slash-IsDelimiter user_info-Excludes.slash refl ca in
    let front =
      take-find_or_end (λ c. c == b'/') (Authority.fmt a ++ fmt_path path)
      ∙ take_until-append (λ c. c == b'/') (Authority.fmt a) (fmt_path path) slashes (rw e refl) in
    let back =
      drop-find_or_end (λ c. c == b'/') (Authority.fmt a ++ fmt_path path)
      ∙ drop_until-append (λ c. c == b'/') (Authority.fmt a) (fmt_path path) slashes (rw e refl) in
    let not_empty : is_empty (fmt_path path) ≡ false = rw e refl in
    rw (
      front,
      back,
      not_empty,
      Authority.RoundTrip.parse_authority-fmt a ca,
      parse_path-fmt_path path h,
    )

split_authority-fmt :
    (a : Option Authority) (path : List Bytes)
    → IsPath path
    → FitsPath a path
    → cut_authority_and_path (fmt_authority a ++ fmt_path path) ≡ ok (a, path)
split_authority-fmt none path h f = unfold fmt_authority in split_authority-none path h f
split_authority-fmt (some a) path h (ca, abs) = split_authority-some a path h ca abs

Avoids-or : (p q : ℕ → Bool) (s : Text) → Avoids p s → Avoids q s → Avoids (λ c. p c || q c) s
Avoids-or p q [] _ _ = tt
Avoids-or p q (c ∷ s) (hp, ps) (hq, qs) = (rw (hp, hq), Avoids-or p q s ps qs)

fmt_authority-Avoids :
    (d : ℕ) (a : Option Authority) (path : List Bytes)
    → IsDelimiter d
    → user_info_not_pct_encoded d ≡ false
    → ((b'@' == d) ≡ false) × ((b'/' == d) ≡ false)
    → FitsPath a path
    → Avoids (λ c. c == d) (fmt_authority a)
unfolding fmt_authority
fmt_authority-Avoids d none path out user marks f = tt
fmt_authority-Avoids d (some a) path out user marks (ca, _) =
    (marks.1, (marks.1, Authority.RoundTrip.fmt-Avoids d a out user marks.0 ca))

-- Authority and path hold nothing that ends the path.
front-Avoids :
    (a : Option Authority) (path : List Bytes)
    → IsPath path
    → FitsPath a path
    → Avoids ends_path (fmt_authority a ++ fmt_path path)
front-Avoids a path h f =
    let question =
      All-append _ (fmt_authority a) (fmt_path path)
        (fmt_authority-Avoids b'?' a path question-IsDelimiter user_info-Excludes.question
          (refl, refl) f)
        (fmt_path-Avoids b'?' pchar-Excludes.question question-IsDelimiter.hex (refl, refl) path
          h.bytes) in
    let hash =
      All-append _ (fmt_authority a) (fmt_path path)
        (fmt_authority-Avoids b'#' a path hash-IsDelimiter user_info-Excludes.hash (refl, refl) f)
        (fmt_path-Avoids b'#' pchar-Excludes.hash hash-IsDelimiter.hex (refl, refl) path h.bytes) in
    Avoids-or (λ c. c == b'?') (λ c. c == b'#') (fmt_authority a ++ fmt_path path) question hash

cut_rest-fmt : (u : Uri) → IsCanonical u → cut_rest u.scheme (rest_text u) ≡ ok u
cut_rest-fmt u h =
    let front = fmt_authority u.authority ++ fmt_path u.path in
    let back = fmt_query u.query ++ fmt_fragment u.fragment in
    let avoids = front-Avoids u.authority u.path h.canonical_path h.fits_path in
    let begins = fmt_query-Begins u.query u.fragment in
    let first =
      take-find_or_end ends_path (front ++ back)
      ∙ take_until-append ends_path front back avoids begins in
    let second =
      drop-find_or_end ends_path (front ++ back)
      ∙ drop_until-append ends_path front back avoids begins in
    rw (← append_assoc) (
      rw (
        first,
        second,
        split_authority-fmt u.authority u.path h.canonical_path h.fits_path,
        cut_fragment-fmt u.query u.fragment h.query_bytes h.fragment_bytes,
        cut_query-fmt_query u.query h.query_bytes,
      ))

cut_scheme-fmt :
    (s : Option Text) (rest : Text)
    → FitsScheme s rest
    → cut_scheme (fmt_scheme s ++ rest) ≡ ok (s, rest)
unfolding fmt_scheme
cut_scheme-fmt none rest h = cut_scheme-none rest h
cut_scheme-fmt (some s) rest h =
    ap cut_scheme (append_assoc s (codes ":") rest) ∙ cut_scheme-some s rest h

-- A canonical URI is read back from its print. Canonical: a scheme, if there is one, is legal and in
-- lower case, and without one no colon stands in front of the first slash of the print; userinfo,
-- path segments, query and fragment are bytes; an authority has a host that is a lower-case
-- registered name or IPv6 address and a 16-bit port or none, and the path behind it is absolute;
-- without an authority the path does not begin with two empty segments; and the path is not two
-- empty segments.
pub parse-fmt : (u : Uri) → IsCanonical u → parse (fmt u) ≡ ok u
unfolding cut_uri fmt
parse-fmt u h =
    rw (parse-cut_uri) (rw (cut_scheme-fmt u.scheme (rest_text u) h.fits_scheme) (cut_rest-fmt u h))
