-- ===== src/Uri/Parsed.antt =====
-- src/uri.rs: what `Uri::parse` returns, whatever it is given.
use uri.Uri.Schemes.{cut_scheme-Ensures, IsOptionScheme}
use uri.Text.Slices.Until.{drop_until-Begins, drop-find_or_end, Begins}
use uri.Codec.{decode_from, decode_element}
use uri.Codec.Decoded.{decode_element-Ensures}
use uri.Codec.RoundTrip.{IsByte}
use uri.Uri.Path.{is_path_absolute}
use uri.Text.Slices.{strip_prefix, split, find_or_end, find}
use uri.Authority.Parsed.{parse_authority-Ensures, IsParsedAuthority}
use uri.Authority.RoundTrip.{IsOptionBytes}
use uri.Error.Ensures.{bind-Ensures, Ensures}
use uri.Prelude.{
  drop, is_empty, inr, inl, true, take, All, refl, ◌==◌, suc, none, [], ◌≡◌, Bool-cases, ◌∷◌, List,
  ℕ, some, Option,
}
use uri.CharacterClasses.{query_or_fragment_not_pct_encoded, pchar_not_pct_encoded}
use uri.Uri.Path.RoundTrip.{IsPathBytes}
use uri.Text.{codes, equal, Bytes, Text}
use uri.Authority
use uri.Authority.{Authority}
use uri.Uri.Data.{Uri}
use uri.Uri.Parse.{
  decode_query_or_fragment, parse_path_after_authority, decode_segments, parse, parse_path,
}
use uri.Uri.Cut.{cut_uri, cut_rest, cut_query, cut_authority_and_path, cut_fragment, cut_scheme}
use uri.Uri.Slices.{parse-cut_uri}
use uri.Error.{panic, err, ok, ◌>>=◌, Error, Result, Context}

abbrev pub IsOptionAuthority : Option Authority → Type 0
IsOptionAuthority none = Unit
IsOptionAuthority (some a) = IsParsedAuthority a

-- Behind an authority stands an absolute path.
abbrev pub Follows : Option Authority → List Bytes → Type 0
Follows none path = Unit
Follows (some a) path = is_path_absolute path ≡ true

-- The scheme is legal and in lower case, every other part is bytes, and the port has 16 bits.
pub record IsParsed (u : Uri) : Type 0 where
  pub legal_scheme : IsOptionScheme u.scheme
  pub parsed_authority : IsOptionAuthority u.authority
  pub path_bytes : IsPathBytes u.path
  pub path_follows : Follows u.authority u.path
  pub query_bytes : IsOptionBytes u.query
  pub fragment_bytes : IsOptionBytes u.fragment

decode_segments-Ensures : (segments : List Text) → Ensures IsPathBytes (decode_segments segments)
unfolding decode_segments
decode_segments-Ensures [] = tt
decode_segments-Ensures (segment ∷ rest) =
    bind-Ensures (All IsByte) IsPathBytes _ _
      (decode_element-Ensures segment pchar_not_pct_encoded Context.path)
      (λ b h.
        bind-Ensures IsPathBytes IsPathBytes (decode_segments rest) _ (decode_segments-Ensures rest)
          (λ bs hs. (h, hs)))

pub parse_path-Ensures : (s : Text) → Ensures IsPathBytes (parse_path s)
unfolding parse_path
parse_path-Ensures s = elim (Bool-cases (equal s (codes "/"))) [
  | inl e ↦ rw e (tt, tt)
  | inr e ↦ rw e (elim (Bool-cases (is_empty s)) [
    | inl d ↦ rw d tt
    | inr d ↦ rw d (decode_segments-Ensures (split b'/' s))
  ])
]

-- A path that begins with a slash is absolute.
parse_path-is_path_absolute :
    (s : Text)
    → Begins (λ c. c == b'/') s
    → Ensures (λ path. is_path_absolute path ≡ true) (parse_path_after_authority s)
unfolding parse_path decode_segments split decode_element decode_from is_path_absolute
parse_path-is_path_absolute [] h = refl
parse_path-is_path_absolute (c ∷ s) h = elim (Bool-cases (equal (c ∷ s) (codes "/"))) [
  | inl e ↦ rw e refl
  | inr e ↦
      rw (e, h)
        (bind-Ensures IsPathBytes (λ path. is_path_absolute path ≡ true)
          (decode_segments (split b'/' s)) (λ bs. ok ([] ∷ bs))
          (decode_segments-Ensures (split b'/' s)) (λ bs hs. refl))
]

parse_path_after_authority-Ensures : (s : Text) → Ensures IsPathBytes (parse_path_after_authority s)
parse_path_after_authority-Ensures s = elim (Bool-cases (is_empty s)) [
  | inl e ↦ rw e (tt, tt)
  | inr e ↦ rw e (parse_path-Ensures s)
]

abbrev IsFront : Option Authority × List Bytes → Type 0
IsFront (a, path) = IsOptionAuthority a × IsPathBytes path × Follows a path

Ensures-and :
    {A : Type 0} (P Q : A → Type 0) (m : Result Error A)
    → Ensures P m
    → Ensures Q m
    → Ensures (λ a. P a × Q a) m
Ensures-and P Q (ok a) p q = (p, q)
Ensures-and P Q (err x) p q = tt
Ensures-and P Q panic p q = p

authority_and_path-Ensures :
    (rest : Text)
    → Ensures IsFront (do
      authority ← Authority.parse (take (find_or_end (λ c. c == b'/') rest) rest)
      path ← parse_path_after_authority (drop (find_or_end (λ c. c == b'/') rest) rest)
      ok (some authority, path))
authority_and_path-Ensures rest =
    let text = drop (find_or_end (λ c. c == b'/') rest) rest in
    let begins : Begins (λ c. c == b'/') text =
      rw (drop-find_or_end (λ c. c == b'/') rest) (drop_until-Begins (λ c. c == b'/') rest) in
    bind-Ensures IsParsedAuthority IsFront _ _ (parse_authority-Ensures _) (λ a ha.
      bind-Ensures (λ path. IsPathBytes path × (is_path_absolute path ≡ true)) IsFront
        (parse_path_after_authority text) _
        (Ensures-and IsPathBytes (λ path. is_path_absolute path ≡ true)
          (parse_path_after_authority text) (parse_path_after_authority-Ensures text)
          (parse_path-is_path_absolute text begins))
        (λ path (hp, hf). (ha, hp, hf)))

cut_authority_and_path-Ensures : (s : Text) → Ensures IsFront (cut_authority_and_path s)
unfolding cut_authority_and_path
cut_authority_and_path-Ensures s = go (strip_prefix (codes "//") s) refl
  where
    go :
        (r : Option Text)
        → strip_prefix (codes "//") s ≡ r
        → Ensures IsFront (cut_authority_and_path s)
    go (some rest) e = rw (e, cut_authority_and_path) (authority_and_path-Ensures rest)
    go none e =
        rw (e, cut_authority_and_path)
          (bind-Ensures IsPathBytes IsFront (parse_path s) _ (parse_path-Ensures s)
            (λ path h. (tt, h, tt)))

cut_fragment-Ensures : (s : Text) → Ensures (λ r. IsOptionBytes r.0) (cut_fragment s)
unfolding cut_fragment
cut_fragment-Ensures s = go (find (λ c. c == b'#') s) refl
  where
    go :
        (r : Option ℕ)
        → find (λ c. c == b'#') s ≡ r
        → Ensures (λ r. IsOptionBytes r.0) (cut_fragment s)
    go (some n) e =
        rw (e, cut_fragment)
          (bind-Ensures (All IsByte) (λ r. IsOptionBytes r.0) _ _
            (decode_element-Ensures (drop (suc n) s) query_or_fragment_not_pct_encoded
              Context.fragment)
            (λ bs h. h))
    go none e = rw (e, cut_fragment) tt

cut_query-Ensures : (s : Text) → Ensures IsOptionBytes (cut_query s)
unfolding cut_query decode_query_or_fragment
cut_query-Ensures [] = tt
cut_query-Ensures (c ∷ s) =
    bind-Ensures (All IsByte) IsOptionBytes _ _
      (decode_element-Ensures s query_or_fragment_not_pct_encoded Context.query) (λ bs h. h)

abbrev assemble : Option Text → Option Authority → List Bytes → Option Bytes → Option Bytes → Uri
assemble scheme authority path query fragment = record {
  scheme = scheme;
  authority = authority;
  path = path;
  query = query;
  fragment = fragment;
}

cut_rest-Ensures :
    (scheme : Option Text) (rest : Text)
    → IsOptionScheme scheme
    → Ensures IsParsed (cut_rest scheme rest)
cut_rest-Ensures scheme rest hs =
    bind-Ensures IsFront IsParsed _ _ (cut_authority_and_path-Ensures _) (λ (a, path) (ha, hp, hf).
      bind-Ensures (λ r. IsOptionBytes r.0) IsParsed _ _ (cut_fragment-Ensures _)
        (λ (fragment, possible_query) hg.
          bind-Ensures IsOptionBytes IsParsed (cut_query possible_query)
            (λ query. ok (assemble scheme a path query fragment)) (cut_query-Ensures possible_query)
            (λ query hq. record {
              legal_scheme = hs;
              parsed_authority = ha;
              path_bytes = hp;
              path_follows = hf;
              query_bytes = hq;
              fragment_bytes = hg;
            })))

-- Any text is refused with an error or gives a URI whose scheme, if there is one, is legal and in
-- lower case, whose other parts are lists of bytes, whose port is at most 65535, and whose path is
-- absolute behind an authority. Nothing panics on the way: no slice of a
-- text is at a byte position behind its end or inside a character, no `unwrap` meets an error, and no
-- sum of the decoder of percent-encoded characters overflows.
pub parse-Ensures : (s : Text) → Ensures IsParsed (parse s)
unfolding cut_uri
parse-Ensures s = rw (parse-cut_uri s) (
    bind-Ensures (λ r. IsOptionScheme r.0) IsParsed (cut_scheme s) _ (cut_scheme-Ensures s)
      (λ (scheme, rest) hs. cut_rest-Ensures scheme rest hs))
