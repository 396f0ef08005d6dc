-- ===== src/Tests/Source/Parts.antt =====
-- src/uri.rs: the unit tests of the setters and the takers.
use uri.Text.Str
use uri.Text.Str.{slice_from, slice_to, starts_with}
use uri.ValidateIpv4Address.{is_octet, validate_ipv4_address}
use uri.Text.Utf8.{from_utf8}
use uri.Uri.Path.{set_path_from_str, is_path_absolute}
use uri.ValidateIpv6Address.{validate_ipv6_address}
use uri.ParseHostPort.{parse_host_port}
use uri.Text.Numbers.{upper_hex, decimal, parse_uint, to_hex_digit}
use uri.Codec.{encode_element, decode_element}
use uri.Authority.{set_host}
use uri.CharacterClasses.{
  query_not_pct_encoded_without_plus, digit, hexdig, ipv_future_last_part,
  user_info_not_pct_encoded, reg_name_not_pct_encoded, query_or_fragment_not_pct_encoded,
  pchar_not_pct_encoded, scheme_not_first, alpha,
}
use uri.Text.Slices.{strip_prefix, split, find}
use uri.Text.{equal, to_lower, codes}
use uri.Prelude.{refl, [], none, some, ◌≡◌}
use uri.Tests.Source.{IsSomeOf, Returns}
use uri.PercentEncodedCharacterDecoder as Pec
use uri.Uri.Parse
use uri.Uri.Display
use uri.Authority
use uri.Uri.Data.{
  set_fragment, take_fragment, set_authority, take_query, take_authority, set_query, take_scheme,
  Uri,
}

abbrev FragmentEmptyButPresentTest : Type 0
FragmentEmptyButPresentTest =
    Returns
      (λ u.
        (u.fragment ≡ some [])
        × (Display.fmt u ≡ codes "http://example.com/#")
        × (Display.fmt (set_fragment u none) ≡ codes "http://example.com/")
        × ((set_fragment u none).fragment ≡ none))
      (Parse.parse (codes "http://example.com#"))
    × Returns
        (λ u.
          (u.fragment ≡ none)
          × ((set_fragment u (some [])).fragment ≡ some [])
          × (Display.fmt (set_fragment u (some [])) ≡ codes "http://example.com/#"))
        (Parse.parse (codes "http://example.com"))

FragmentEmptyButPresentTest_holds : FragmentEmptyButPresentTest
unfolding Parse.parse Parse.parse_scheme Parse.check_scheme
    Parse.split_authority_from_path_and_parse_them Parse.parse_path Parse.parse_fragment
    Parse.parse_query find alpha scheme_not_first pchar_not_pct_encoded
    query_or_fragment_not_pct_encoded decode_element Pec.next to_hex_digit to_lower Authority.parse
    parse_host_port reg_name_not_pct_encoded user_info_not_pct_encoded ipv_future_last_part equal
    split strip_prefix parse_uint validate_ipv6_address hexdig digit Display.fmt Authority.fmt
    encode_element is_path_absolute from_utf8 decimal upper_hex validate_ipv4_address is_octet
    query_not_pct_encoded_without_plus Parse.set_scheme set_authority set_path_from_str set_query
    set_fragment set_host take_scheme take_authority take_query take_fragment Str.find Str.byte_len
    slice_from slice_to starts_with
FragmentEmptyButPresentTest_holds = ((refl, refl, refl, refl), (refl, refl, refl))

abbrev QueryEmptyButPresentTest : Type 0
QueryEmptyButPresentTest =
    Returns
      (λ u.
        (u.query ≡ some [])
        × (Display.fmt u ≡ codes "http://example.com/?")
        × (Display.fmt (set_query u none) ≡ codes "http://example.com/")
        × ((set_query u none).query ≡ none))
      (Parse.parse (codes "http://example.com?"))
    × Returns
        (λ u.
          (u.query ≡ none)
          × ((set_query u (some [])).query ≡ some [])
          × (Display.fmt (set_query u (some [])) ≡ codes "http://example.com/?"))
        (Parse.parse (codes "http://example.com"))

QueryEmptyButPresentTest_holds : QueryEmptyButPresentTest
unfolding Parse.parse Parse.parse_scheme Parse.check_scheme
    Parse.split_authority_from_path_and_parse_them Parse.parse_path Parse.parse_fragment
    Parse.parse_query find alpha scheme_not_first pchar_not_pct_encoded
    query_or_fragment_not_pct_encoded decode_element Pec.next to_hex_digit to_lower Authority.parse
    parse_host_port reg_name_not_pct_encoded user_info_not_pct_encoded ipv_future_last_part equal
    split strip_prefix parse_uint validate_ipv6_address hexdig digit Display.fmt Authority.fmt
    encode_element is_path_absolute from_utf8 decimal upper_hex validate_ipv4_address is_octet
    query_not_pct_encoded_without_plus Parse.set_scheme set_authority set_path_from_str set_query
    set_fragment set_host take_scheme take_authority take_query take_fragment Str.find Str.byte_len
    slice_from slice_to starts_with
QueryEmptyButPresentTest_holds = ((refl, refl, refl, refl), (refl, refl, refl))

abbrev MakeACopyTest : Type 0
MakeACopyTest =
    Returns
      (λ u.
        (Display.fmt (set_query u (some (codes "bar")))
          ≡ codes "http://www.example.com/foo.txt?bar")
        × IsSomeOf
            (λ a.
              Display.fmt (
                set_authority (set_fragment u (some (codes "page2")))
                  (some (set_host a (codes "example.com"))))
              ≡ codes "http://example.com/foo.txt#page2")
            (set_fragment u (some (codes "page2"))).authority)
      (Parse.parse (codes "http://www.example.com/foo.txt"))

MakeACopyTest_holds : MakeACopyTest
unfolding Parse.parse Parse.parse_scheme Parse.check_scheme
    Parse.split_authority_from_path_and_parse_them Parse.parse_path Parse.parse_fragment
    Parse.parse_query find alpha scheme_not_first pchar_not_pct_encoded
    query_or_fragment_not_pct_encoded decode_element Pec.next to_hex_digit to_lower Authority.parse
    parse_host_port reg_name_not_pct_encoded user_info_not_pct_encoded ipv_future_last_part equal
    split strip_prefix parse_uint validate_ipv6_address hexdig digit Display.fmt Authority.fmt
    encode_element is_path_absolute from_utf8 decimal upper_hex validate_ipv4_address is_octet
    query_not_pct_encoded_without_plus Parse.set_scheme set_authority set_path_from_str set_query
    set_fragment set_host take_scheme take_authority take_query take_fragment Str.find Str.byte_len
    slice_from slice_to starts_with
MakeACopyTest_holds = (refl, refl)

abbrev ClearQueryTest : Type 0
ClearQueryTest =
    Returns
      (λ u.
        (Display.fmt (set_query u none) ≡ codes "http://www.example.com/")
        × ((set_query u none).query ≡ none))
      (Parse.parse (codes "http://www.example.com/?foo=bar"))

ClearQueryTest_holds : ClearQueryTest
unfolding Parse.parse Parse.parse_scheme Parse.check_scheme
    Parse.split_authority_from_path_and_parse_them Parse.parse_path Parse.parse_fragment
    Parse.parse_query find alpha scheme_not_first pchar_not_pct_encoded
    query_or_fragment_not_pct_encoded decode_element Pec.next to_hex_digit to_lower Authority.parse
    parse_host_port reg_name_not_pct_encoded user_info_not_pct_encoded ipv_future_last_part equal
    split strip_prefix parse_uint validate_ipv6_address hexdig digit Display.fmt Authority.fmt
    encode_element is_path_absolute from_utf8 decimal upper_hex validate_ipv4_address is_octet
    query_not_pct_encoded_without_plus Parse.set_scheme set_authority set_path_from_str set_query
    set_fragment set_host take_scheme take_authority take_query take_fragment Str.find Str.byte_len
    slice_from slice_to starts_with
ClearQueryTest_holds = (refl, refl)

-- One part after another is taken.
abbrev TakesParts : Uri → Type 0
TakesParts u =
    let (u1, scheme) = take_scheme u in
    let (u2, authority) = take_authority u1 in
    let (u3, authority') = take_authority u2 in
    let (u4, query) = take_query u3 in
    let (u5, query') = take_query u4 in
    let (u6, fragment) = take_fragment u5 in
    let (u7, fragment') = take_fragment u6 in
    (scheme ≡ some (codes "https"))
    × (Display.fmt u1 ≡ codes "//www.example.com/foo?bar#baz")
    × IsSomeOf (λ a. a.host ≡ codes "www.example.com") authority
    × (Display.fmt u2 ≡ codes "/foo?bar#baz")
    × (authority' ≡ none)
    × (query ≡ some (codes "bar"))
    × (Display.fmt u4 ≡ codes "/foo#baz")
    × (query' ≡ none)
    × (fragment ≡ some (codes "baz"))
    × (Display.fmt u6 ≡ codes "/foo")
    × (fragment' ≡ none)

abbrev TakePartsTest : Type 0
TakePartsTest = Returns TakesParts (Parse.parse (codes "https://www.example.com/foo?bar#baz"))

TakePartsTest_holds : TakePartsTest
unfolding Parse.parse Parse.parse_scheme Parse.check_scheme
    Parse.split_authority_from_path_and_parse_them Parse.parse_path Parse.parse_fragment
    Parse.parse_query find alpha scheme_not_first pchar_not_pct_encoded
    query_or_fragment_not_pct_encoded decode_element Pec.next to_hex_digit to_lower Authority.parse
    parse_host_port reg_name_not_pct_encoded user_info_not_pct_encoded ipv_future_last_part equal
    split strip_prefix parse_uint validate_ipv6_address hexdig digit Display.fmt Authority.fmt
    encode_element is_path_absolute from_utf8 decimal upper_hex validate_ipv4_address is_octet
    query_not_pct_encoded_without_plus Parse.set_scheme set_authority set_path_from_str set_query
    set_fragment set_host take_scheme take_authority take_query take_fragment Str.find Str.byte_len
    slice_from slice_to starts_with
TakePartsTest_holds = (refl, refl, refl, refl, refl, refl, refl, refl, refl, refl, refl)
