-- ===== src/Uri/Components.antt =====
-- The components of a URI reference as RFC 3986 splits them (appendix B), in front of any check of
-- their characters, and the URI that they are assembled to.
pub mod Splits
pub mod Parsed
pub mod Scheme
pub mod Clear
pub mod Total
use uri.CharacterClasses.{query_or_fragment_not_pct_encoded}
use uri.Text.Slices.Until.{take_until, drop_until}
use uri.Codec.{decode_element}
use uri.Uri.Parse.{parse_path_after_authority, parse_path, check_scheme}
use uri.Prelude.{
  is_empty, not, ◌&&◌, [], if◌then◌else◌, ◌||◌, ◌∷◌, ◌==◌, Bool, List, some, none, Option, ℕ,
}
use uri.Text.{lowercase, Text, Bytes}
use uri.Authority
use uri.Authority.{Authority}
use uri.Uri.Data.{Uri}
use uri.Error.{Context, Error, Result, ok, err, panic, ◌>>=◌}

-- `[^:/?#]`, `[^?#]` and `[^/?#]` end at these.
abbrev pub ends_scheme : ℕ → Bool
ends_scheme c = c == b':' || c == b'/' || c == b'?' || c == b'#'

abbrev pub ends_hier_part : ℕ → Bool
ends_hier_part c = c == b'?' || c == b'#'

abbrev pub ends_authority : ℕ → Bool
ends_authority c = c == b'/' || ends_hier_part c

-- `^(([^:/?#]+):)?`
abbrev pub behind_scheme : Text → Text → Option Text × Text
behind_scheme s [] = (none, s)
behind_scheme s (c ∷ rest) =
    if c == b':' && not (is_empty (take_until ends_scheme s))
    then (some (take_until ends_scheme s), rest)
    else (none, s)

abbrev pub split_scheme : Text → Option Text × Text
split_scheme s = behind_scheme s (drop_until ends_scheme s)

-- `(//([^/?#]*))?([^?#]*)`
abbrev pub split_authority : Text → Option Text × Text
split_authority (a ∷ b ∷ s) =
    if a == b'/' && b == b'/'
    then (
      some (take_until ends_authority s),
      take_until ends_hier_part (drop_until ends_authority s),
    )
    else (none, take_until ends_hier_part (a ∷ b ∷ s))
split_authority s = (none, take_until ends_hier_part s)

-- `(\?([^#]*))?`
abbrev pub split_query : Text → Option Text
split_query [] = none
split_query (c ∷ s) = if c == b'?' then some (take_until (λ c. c == b'#') s) else none

-- `(#(.*))?`
abbrev pub split_fragment : Text → Option Text
split_fragment [] = none
split_fragment (c ∷ s) = some s

pub record Components : Type 0 where
  pub scheme : Option Text
  pub authority : Option Text
  pub path : Text
  pub query : Option Text
  pub fragment : Option Text

abbrev pub components_behind : Option Text × Text → Components
components_behind (scheme, rest) =
    let tail = drop_until ends_hier_part rest in
    let hier_part = split_authority rest in
    record {
      scheme = scheme;
      authority = hier_part.0;
      path = hier_part.1;
      query = split_query tail;
      fragment = split_fragment (drop_until (λ c. c == b'#') tail);
    }

abbrev pub components : Text → Components
components s = components_behind (split_scheme s)

-- A part that may be missing, under a check or a decoder.
abbrev pub traverse {ℓ κ} :
    {A : Type ℓ} {B : Type κ} → (A → Result Error B) → Option A → Result Error (Option B)
traverse f none = ok none
traverse f (some a) = f a >>= λ b. ok (some b)

abbrev pub decode_part : Context → Text → Result Error Bytes
decode_part context s = decode_element s query_or_fragment_not_pct_encoded context

abbrev pub assemble_path : Option Text → Text → Result Error (List Bytes)
assemble_path none path = parse_path path
assemble_path (some a) path = parse_path_after_authority path

-- Each component by itself: the scheme in lower case, and the rest decoded.
abbrev pub assemble : Components → Result Error Uri
assemble c = do
  scheme ← traverse (λ s. check_scheme s >>= λ t. ok (lowercase t)) c.scheme
  authority ← traverse Authority.parse c.authority
  path ← assemble_path c.authority c.path
  fragment ← traverse (decode_part Context.fragment) c.fragment
  query ← traverse (decode_part Context.query) c.query
  ok (record {
    scheme = scheme;
    authority = authority;
    path = path;
    query = query;
    fragment = fragment;
  })
