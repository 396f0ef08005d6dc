-- ===== src/Tests/Safety.antt =====
-- What the parsers return, at concrete texts.
use uri.CharacterClasses.{pchar_not_pct_encoded}
use uri.Codec.{decode_element}
use uri.Uri.Parse.{set_scheme}
use uri.ParseHostPort.{parse_host_port}
use uri.Codec.RoundTrip.{IsByte}
use uri.Text.{codes}
use uri.ParseHostPort.Parsed.{parse_host_port-Ensures, IsParsedHostPort}
use uri.Prelude.{◌⊎◌, ◌≡◌, some, All}
use uri.Error.Ensures.{Ensures}
use uri.Uri.Schemes.{set_scheme-cases, IsSchemeText}
use uri.Codec.Decoded.{decode_element-Ensures}
use uri.Uri.Parse
use uri.Uri.Parsed.{parse-Ensures, IsParsed}
use uri.Error.{err, Error, ok, Context}
use uri.Tests.{page}

decode_element-Ensures_example :
    Ensures (All IsByte) (decode_element (codes "a%20b%") pchar_not_pct_encoded Context.path)
decode_element-Ensures_example =
    decode_element-Ensures (codes "a%20b%") pchar_not_pct_encoded Context.path

parse_host_port-Ensures_example : Ensures IsParsedHostPort (parse_host_port (codes "[::1]:8080"))
parse_host_port-Ensures_example = parse_host_port-Ensures (codes "[::1]:8080")

parse-Ensures_example : Ensures IsParsed (Parse.parse (codes "http://a:80/b%20c?q#f"))
parse-Ensures_example = parse-Ensures (codes "http://a:80/b%20c?q#f")

set_scheme-cases_example :
    (IsSchemeText (codes "h+1")
      × (set_scheme page (some (codes "h+1"))
          ≡ (record page { scheme = some (codes "h+1") }, ok tt)))
    ⊎ (¬ IsSchemeText (codes "h+1")
        × (e : Error) × (set_scheme page (some (codes "h+1")) ≡ (page, err e)))
set_scheme-cases_example = set_scheme-cases page (codes "h+1")
