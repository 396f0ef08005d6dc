-- ===== src/Uri/Parse.antt =====
-- src/uri.rs: the parser of a URI, and `set_scheme`, which shares the check of a scheme.
use uri.Prelude.{
  ℕ, suc, ◌+◌, ◌∷◌, [], List, ◌||◌, Option, none, some, ◌==◌, if◌then◌else◌, is_empty,
}
use uri.Text.{Text, Bytes, codes, equal, lowercase}
use uri.Text.Slices.{split, strip_prefix}
use uri.Text.Str
use uri.Text.Str.{slice_from, slice_to}
use uri.Error.{Context, Error, empty_scheme, illegal_character, Result, ok, err, panic, ◌>>=◌, ◌>>◌}
use uri.CharacterClasses.{
  alpha, scheme_not_first, pchar_not_pct_encoded, query_or_fragment_not_pct_encoded,
}
use uri.Codec.{decode_element}
use uri.Authority
use uri.Authority.{Authority}
use uri.Uri.Data.{Uri}

-- The `try_fold` of `check_scheme`, from position `i`.
unfoldable pub check_scheme_from : ℕ → Text → Result Error (Unit {0})
check_scheme_from i [] = ok tt
check_scheme_from i (c ∷ s) =
    if (if i == 0 then alpha c else scheme_not_first c)
    then check_scheme_from (suc i) s
    else err (illegal_character Context.scheme)

unfoldable pub check_scheme : Text → Result Error Text
unfolding check_scheme_from
check_scheme [] = err empty_scheme
check_scheme (c ∷ s) = do check_scheme_from 0 (c ∷ s); ok (c ∷ s)

-- `set_scheme` leaves the URI as it is where the check fails.
unfoldable pub set_scheme : Uri → Option Text → Uri × Result Error (Unit {0})
set_scheme u none = (record u { scheme = none }, ok tt)
set_scheme u (some scheme) = elim (check_scheme scheme) [
  | ok s ↦ (record u { scheme = some scheme }, ok tt)
  | err e ↦ (u, err e)
  | panic ↦ (u, panic)
]

unfoldable pub parse_scheme : Text → Result Error (Option Text × Text)
parse_scheme s = do
  front ← slice_to (Str.find_or_end (λ c. c == b'/') s) s
  elim (Str.find (λ c. c == b':') front) [
    | some scheme_end ↦ do
      text ← slice_to scheme_end s
      scheme ← check_scheme text
      rest ← slice_from (scheme_end + 1) s
      ok (some (lowercase scheme), rest)
    | none ↦ ok (none, s)
  ]

unfoldable pub decode_query_or_fragment : Text → Context → Result Error Bytes
decode_query_or_fragment s context = decode_element s query_or_fragment_not_pct_encoded context

unfoldable pub parse_fragment : Text → Result Error (Option Bytes × Text)
unfolding decode_query_or_fragment
parse_fragment s = elim (Str.find (λ c. c == b'#') s) [
  | some fragment_delimiter ↦ do
    text ← slice_from (fragment_delimiter + 1) s
    fragment ← decode_query_or_fragment text Context.fragment
    possible_query ← slice_to fragment_delimiter s
    ok (some fragment, possible_query)
  | none ↦ ok (none, s)
]

unfoldable pub parse_query : Text → Result Error (Option Bytes)
unfolding decode_query_or_fragment
parse_query s = if is_empty s then ok none else do
  text ← slice_from 1 s
  query ← decode_query_or_fragment text Context.query
  ok (some query)

-- `map(decode_element).collect()`
unfoldable pub decode_segments : List Text → Result Error (List Bytes)
decode_segments [] = ok []
decode_segments (segment ∷ rest) = do
  b ← decode_element segment pchar_not_pct_encoded Context.path
  bs ← decode_segments rest
  ok (b ∷ bs)

unfoldable pub parse_path : Text → Result Error (List Bytes)
unfolding decode_segments
parse_path s =
    if equal s (codes "/")
    then ok ([] ∷ [])
    else if is_empty s
    then ok []
    else decode_segments (split b'/' s)

-- With an authority an empty path is an absolute one.
abbrev pub parse_path_after_authority : Text → Result Error (List Bytes)
parse_path_after_authority s = if is_empty s then ok ([] ∷ []) else parse_path s

unfoldable pub split_authority_from_path_and_parse_them :
    Text → Result Error (Option Authority × List Bytes)
split_authority_from_path_and_parse_them s = elim (strip_prefix (codes "//") s) [
  | some rest ↦
      let authority_end = Str.find_or_end (λ c. c == b'/') rest in
      do
        authority_string ← slice_to authority_end rest
        path_string ← slice_from authority_end rest
        authority ← Authority.parse authority_string
        path ← parse_path_after_authority path_string
        ok (some authority, path)
  | none ↦ do path ← parse_path s; ok (none, path)
]

-- Everything behind the scheme.
abbrev pub parse_rest : Option Text → Text → Result Error Uri
parse_rest scheme rest =
    let path_end = Str.find_or_end (λ c. c == b'?' || c == b'#') rest in
    do
      authority_and_path_string ← slice_to path_end rest
      query_and_or_fragment ← slice_from path_end rest
      (authority, path) ← split_authority_from_path_and_parse_them authority_and_path_string
      (fragment, possible_query) ← parse_fragment query_and_or_fragment
      query ← parse_query possible_query
      ok (record {
        scheme = scheme;
        authority = authority;
        path = path;
        query = query;
        fragment = fragment;
      })

-- `Uri::parse`, and both `TryFrom` implementations.
unfoldable pub parse : Text → Result Error Uri
parse s = do (scheme, rest) ← parse_scheme s; parse_rest scheme rest

-- `impl TryFrom<&str> for Uri` and `impl TryFrom<String> for Uri`
unfoldable pub try_from_str : Text → Result Error Uri
unfolding parse
try_from_str = parse

unfoldable pub try_from_string : Text → Result Error Uri
unfolding parse
try_from_string = parse
