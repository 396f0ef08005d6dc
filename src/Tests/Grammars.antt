-- ===== src/Tests/Grammars.antt =====
-- The grammars and the decomposition of RFC 3986 at concrete texts, with the source's parsers run on
-- them.
use uri.Text.Str.{slice_from}
use uri.Uri.Accepted.{parse-IsReference}
use uri.ParseHostPort.Accepted.{parse_host_port-IsHostPort}
use uri.Authority.Grammar.{parse_authority-IsAuthority, IsAuthority}
use uri.ParseHostPort.Grammar.{IsHostPort}
use uri.Error.{too_many_double_colons, illegal_percent_encoding, Context, err, ok}
use uri.Prelude.{inl, [], none, some, ◌⊎◌, ◌↔◌, refl, inr, true, ◌≡◌}
use uri.CharacterClasses.{pchar_not_pct_encoded, digit, hexdig}
use uri.Uri.Components.{components, assemble}
use uri.Codec.{decode_element}
use uri.Text.{to_lower, codes}
use uri.Tests.{page, page-IsCanonical, server, server-IsCanonical}
use uri.Uri.Parse
use uri.Uri.Grammar.{IsReference}
use uri.ParseHostPort.{parse_host_port}
use uri.Uri.Display
use uri.Authority
use uri.Authority.RoundTrip.{parse_authority-fmt}
use uri.Authority.Stable.{parse_authority-fmt-parse}
use uri.Uri.RoundTrip.{parse-fmt}
use uri.Uri.Stable.{parse-fmt-parse, IsUnambiguous}
use uri.Uri.Components.Scheme.{parse-assemble, IsClear}
use uri.Uri.Components.Total.{parse-cases, SchemeFails}
use uri.ValidateIpv4Address.{validate_ipv4_address, is_octet}
use uri.Text.Numbers.{parse_uint}
use uri.ValidateIpv6Address.{Shared, validate_ipv6_address}
use uri.ValidateIpv6Address.Accepted.{validate_ipv6_address-IsIpv6Address}
use uri.ValidateIpv6Address.Grammar.{IsIpv6Address}
use uri.Codec.Grammar.{decode_element-Decodes, Decodes}
use uri.Codec.Failures.{decode_element-Fails, Fails}

-- Addresses of the two forms, and one with two double colons.
ipv6_accepted :
    (validate_ipv6_address (codes "2001:db8:85a3:8d3:1319:8a2e:370:7348") ≡ ok tt)
    × (validate_ipv6_address (codes "::ffff:1.2.3.4") ≡ ok tt)
    × (validate_ipv6_address (codes "::fFfF::1") ≡ err too_many_double_colons)
unfolding validate_ipv6_address hexdig digit validate_ipv4_address is_octet parse_uint slice_from
ipv6_accepted = (refl, refl, refl)

validate_ipv6_address-IsIpv6Address_example :
    (validate_ipv6_address (codes "::ffff:1.2.3.4") ≡ ok tt)
    ↔ IsIpv6Address (codes "::ffff:1.2.3.4")
validate_ipv6_address-IsIpv6Address_example =
    validate_ipv6_address-IsIpv6Address (codes "::ffff:1.2.3.4")

decode_element-Decodes_example :
    (decode_element (codes "a%2fb") pchar_not_pct_encoded Context.path ≡ ok (codes "a/b"))
    ↔ Decodes pchar_not_pct_encoded (codes "a%2fb") (codes "a/b")
decode_element-Decodes_example =
    decode_element-Decodes (codes "a%2fb") pchar_not_pct_encoded Context.path (codes "a/b")

decode_element-Fails_example :
    (decode_element (codes "a%2g") pchar_not_pct_encoded Context.path
      ≡ err illegal_percent_encoding)
    ↔ Fails pchar_not_pct_encoded Context.path (codes "a%2g") illegal_percent_encoding
decode_element-Fails_example =
    decode_element-Fails (codes "a%2g") pchar_not_pct_encoded Context.path illegal_percent_encoding

abbrev trailer : Shared
trailer = record {
  address = codes "1:2::1.2.3.4";
  num_groups = 2;
  num_digits = 1;
  double_colon_encountered = true;
  potential_ipv4_address_start = 5;
}

reference-IsClear : IsClear (codes "http://a:80/b?c:d#e:f")
reference-IsClear = inr (record {
  scheme = codes "http";
  rest = codes "//a:80/b?c:d#e:f";
  spells = refl;
  clear = (refl, (refl, (refl, (refl, tt))));
  ne_nil = λ e. cc;
})

parse-assemble_example :
    Parse.parse (codes "http://a:80/b?c:d#e:f")
    ≡ assemble (components (codes "http://a:80/b?c:d#e:f"))
parse-assemble_example = parse-assemble (codes "http://a:80/b?c:d#e:f") reference-IsClear

parse-cases_example :
    (Parse.parse (codes "?a:b") ≡ assemble (components (codes "?a:b")))
    ⊎ ((h : SchemeFails (codes "?a:b")) × (Parse.parse (codes "?a:b") ≡ err h.reason))
parse-cases_example = parse-cases (codes "?a:b")

page-IsUnambiguous : IsUnambiguous page
unfolding to_lower
page-IsUnambiguous = record { no_scheme = tt; no_authority = refl; not_two_empty = λ e. cc }

parse-fmt-parse_example : Parse.parse (Display.fmt page) ≡ ok page
parse-fmt-parse_example =
    parse-fmt-parse (Display.fmt page) page (parse-fmt page page-IsCanonical) page-IsUnambiguous

parse_authority-fmt-parse_example : Authority.parse (Authority.fmt server) ≡ ok server
unfolding to_lower
parse_authority-fmt-parse_example =
    parse_authority-fmt-parse (Authority.fmt server) server
      (parse_authority-fmt server server-IsCanonical) refl

parse_host_port-IsHostPort_example :
    (parse_host_port (codes "[::1]:80") ≡ ok (codes "::1", some 80))
    ↔ IsHostPort (codes "[::1]:80") (codes "::1") (some 80)
parse_host_port-IsHostPort_example =
    parse_host_port-IsHostPort (codes "[::1]:80") (codes "::1") (some 80)

parse_authority-IsAuthority_example :
    (Authority.parse (Authority.fmt server) ≡ ok server) ↔ IsAuthority (Authority.fmt server) server
parse_authority-IsAuthority_example = parse_authority-IsAuthority (Authority.fmt server) server

parse-IsReference_example :
    (Parse.parse (Display.fmt page) ≡ ok page)
    ↔ (IsClear (Display.fmt page) × IsReference (components (Display.fmt page)) page)
parse-IsReference_example = parse-IsReference (Display.fmt page) page

-- What the grammar of the parser gives to a text that it accepts.
page-IsReference : IsReference (components (Display.fmt page)) page
page-IsReference =
    ((parse-IsReference (Display.fmt page) page).0 (parse-fmt page page-IsCanonical)).1

-- No version and no characters are needed in an address of the future.
empty_future-IsHostPort : IsHostPort (codes "[v.]") (codes "v.") none
unfolding hexdig
empty_future-IsHostPort = IsHostPort.future refl (record {
  version = [];
  body = [];
  rest = [];
  spells = refl;
  host_is = refl;
  hex_version = tt;
  body_chars = tt;
  port_part = inl (refl, refl);
})

empty_future_accepted : parse_host_port (codes "[v.]") ≡ ok (codes "v.", none)
empty_future_accepted =
    (parse_host_port-IsHostPort (codes "[v.]") (codes "v.") none).1 empty_future-IsHostPort
