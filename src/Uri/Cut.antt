-- ===== src/Uri/Cut.antt =====
-- src/uri.rs: the parser with its texts cut at positions that count characters, where no cut can
-- fail.
use uri.Authority.{Authority}
use uri.Uri.Data.{Uri}
use uri.Error.{Context, ok, Error, Result, ◌>>=◌}
use uri.Prelude.{suc, drop, [], ◌∷◌, none, List, some, take, ◌||◌, ◌==◌, Option}
use uri.Text.{codes, Bytes, Text, lowercase}
use uri.Uri.Parse.{decode_query_or_fragment, parse_path, parse_path_after_authority, check_scheme}
use uri.Authority
use uri.Text.Slices.{find, find_or_end, strip_prefix}

unfoldable pub cut_scheme : Text → Result Error (Option Text × Text)
cut_scheme s = elim (find (λ c. c == b':') (take (find_or_end (λ c. c == b'/') s) s)) [
  | some scheme_end ↦ do
    scheme ← check_scheme (take scheme_end s)
    ok (some (lowercase scheme), drop (suc scheme_end) s)
  | none ↦ ok (none, s)
]

unfoldable pub cut_fragment : Text → Result Error (Option Bytes × Text)
unfolding decode_query_or_fragment
cut_fragment s = elim (find (λ c. c == b'#') s) [
  | some fragment_delimiter ↦ do
    fragment ← decode_query_or_fragment (drop (suc fragment_delimiter) s) Context.fragment
    ok (some fragment, take fragment_delimiter s)
  | none ↦ ok (none, s)
]

unfoldable pub cut_query : Text → Result Error (Option Bytes)
unfolding decode_query_or_fragment
cut_query [] = ok none
cut_query (c ∷ s) = do query ← decode_query_or_fragment s Context.query; ok (some query)

unfoldable pub cut_authority_and_path : Text → Result Error (Option Authority × List Bytes)
cut_authority_and_path s = elim (strip_prefix (codes "//") s) [
  | some rest ↦
      let authority_end = find_or_end (λ c. c == b'/') rest in
      do
        authority ← Authority.parse (take authority_end rest)
        path ← parse_path_after_authority (drop authority_end rest)
        ok (some authority, path)
  | none ↦ do path ← parse_path s; ok (none, path)
]

abbrev pub cut_rest : Option Text → Text → Result Error Uri
cut_rest scheme rest =
    let path_end = find_or_end (λ c. c == b'?' || c == b'#') rest in
    do
      (authority, path) ← cut_authority_and_path (take path_end rest)
      (fragment, possible_query) ← cut_fragment (drop path_end rest)
      query ← cut_query possible_query
      ok (record {
        scheme = scheme;
        authority = authority;
        path = path;
        query = query;
        fragment = fragment;
      })

unfoldable pub cut_uri : Text → Result Error Uri
cut_uri s = do (scheme, rest) ← cut_scheme s; cut_rest scheme rest
