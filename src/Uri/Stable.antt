-- ===== src/Uri/Stable.antt =====
-- src/uri.rs: a URI that the parser returned, printed and parsed again.
use uri.Error.Ensures.{Ensures-ok}
use uri.Error.{ok}
use uri.Uri.Parse.{parse}
use uri.Uri.Display.{fmt}
use uri.Uri.Path.Delimiters.{NotTwoEmpty}
use uri.Text.Slices.Until.{take_until}
use uri.Authority.{Authority}
use uri.Text.Slices.Laws.{Avoids}
use uri.Uri.Schemes.{IsOptionScheme}
use uri.Prelude.{◌≡◌, none, ◌∷◌, ◌==◌, [], some, List, ◌≢◌, Option}
use uri.Text.{lowercase, Bytes, Text}
use uri.Uri.Data.{Uri}
use uri.Uri.RoundTrip.{IsCanonical, FitsScheme, FitsPath, rest_text, parse-fmt}
use uri.Uri.Parsed.{IsParsed, parse-Ensures, Follows, IsOptionAuthority}
use uri.Authority.Stable.{IsParsedAuthority-IsCanonical}

-- Without a scheme no colon stands in front of the first slash of the print.
abbrev pub NoScheme : Option Text → Text → Type 0
NoScheme none rest = Avoids (λ c. c == b':') (take_until (λ c. c == b'/') rest)
NoScheme (some s) rest = Unit

-- Without an authority the path does not begin with two empty segments.
abbrev pub NoAuthority : Option Authority → List Bytes → Type 0
NoAuthority none path = NotTwoEmpty path
NoAuthority (some a) path = lowercase a.host ≡ a.host

-- The print shows what the parts are: the host has no upper-case letter, and no part is read as
-- another.
pub record IsUnambiguous (u : Uri) : Type 0 where
  pub no_scheme : NoScheme u.scheme (rest_text u)
  pub no_authority : NoAuthority u.authority u.path
  pub not_two_empty : u.path ≢ [] ∷ [] ∷ []

NoScheme-FitsScheme :
    (scheme : Option Text) (rest : Text)
    → IsOptionScheme scheme
    → NoScheme scheme rest
    → FitsScheme scheme rest
NoScheme-FitsScheme none rest legal h = h
NoScheme-FitsScheme (some s) rest legal h = legal

NoAuthority-FitsPath :
    (a : Option Authority) (path : List Bytes)
    → IsOptionAuthority a
    → Follows a path
    → NoAuthority a path
    → FitsPath a path
NoAuthority-FitsPath none path parsed abs h = h
NoAuthority-FitsPath (some a) path parsed abs h = (IsParsedAuthority-IsCanonical a parsed h, abs)

IsParsed-IsCanonical : (u : Uri) → IsParsed u → IsUnambiguous u → IsCanonical u
IsParsed-IsCanonical u h n = record {
  fits_scheme = NoScheme-FitsScheme u.scheme (rest_text u) h.legal_scheme n.no_scheme;
  fits_path =
      NoAuthority-FitsPath u.authority u.path h.parsed_authority h.path_follows n.no_authority;
  canonical_path = record { bytes = h.path_bytes; not_two_empty = n.not_two_empty };
  query_bytes = h.query_bytes;
  fragment_bytes = h.fragment_bytes;
}

-- A URI that the parser returns is what its print is parsed to, if its host has no upper-case letter,
-- its path is not two empty segments, no colon in the first segment reads as the end of a scheme, and
-- no path without an authority begins with two empty segments.
pub parse-fmt-parse : (s : Text) (u : Uri) → parse s ≡ ok u → IsUnambiguous u → parse (fmt u) ≡ ok u
parse-fmt-parse s u h n =
    parse-fmt u (IsParsed-IsCanonical u (Ensures-ok IsParsed (parse s) u (parse-Ensures s) h) n)
