-- ===== src/Tests/Source/Printing.antt =====
-- src/uri.rs: the unit tests of `Display`.
use uri.Text.Str
use uri.Text.Str.{slice_from, slice_to, starts_with}
use uri.ValidateIpv4Address.{is_octet, validate_ipv4_address}
use uri.ParseHostPort.{parse_host_port}
use uri.Text.Numbers.{parse_uint, upper_hex, to_hex_digit, hex_digit, decimal}
use uri.ValidateIpv6Address.{validate_ipv6_address}
use uri.Text.Utf8.{from_utf8}
use uri.Uri.Path.{set_path_from_str, is_path_absolute}
use uri.Authority.{set_port, set_host, set_userinfo, Authority}
use uri.Codec.{decode_element, encode_element}
use uri.Text.Slices.{strip_prefix, split, find}
use uri.CharacterClasses.{
  query_not_pct_encoded_without_plus, digit, hexdig, ipv_future_last_part,
  user_info_not_pct_encoded, reg_name_not_pct_encoded, query_or_fragment_not_pct_encoded,
  pchar_not_pct_encoded, scheme_not_first, alpha,
}
use uri.Text.{equal, to_lower, codes, Bytes, Text}
use uri.Error.{ok}
use uri.Prelude.{
  refl, ◌%◌, ◌/◌, ◌++◌, none, ◌||◌, ◌≡◌, [], is_some, true, if◌then◌else◌, ◌∷◌, some, List, ℕ,
  Option,
}
use uri.Tests.Source.{AllEqual, is_err}
use uri.PercentEncodedCharacterDecoder as Pec
use uri.Uri.Parse
use uri.Uri.Display
use uri.Authority
use uri.Uri.Data.{
  take_fragment, take_query, take_authority, take_scheme, set_authority, set_query, set_fragment,
  default, Uri,
}

-- The vectors of `generate_string`.
record TestVector : Type 0 where
  scheme : Option Text
  userinfo : Option Bytes
  host : Option Bytes
  port : Option ℕ
  path : Text
  query : Option Bytes
  fragment : Option Bytes
  expected : Text

abbrev vector :
    Option Text
    → Option Bytes
    → Option Bytes
    → Option ℕ
    → Text
    → Option Bytes
    → Option Bytes
    → Text
    → TestVector
vector s u h p path q f e = record {
  scheme = s;
  userinfo = u;
  host = h;
  port = p;
  path = path;
  query = q;
  fragment = f;
  expected = e;
}

-- The authority that the test sets, where there is a part of one.
abbrev authority_of : TestVector → Option Authority
authority_of v =
    if is_some v.userinfo || is_some v.host || is_some v.port
    then some (
        set_port
          (set_host (set_userinfo Authority.default v.userinfo)
            (elim v.host [ some h ↦ h | none ↦ [] ]))
          v.port)
    else none

abbrev fill : Uri → TestVector → Uri
fill u v =
    set_fragment (set_query (set_path_from_str (set_authority u (authority_of v)) v.path) v.query)
      v.fragment

abbrev generate_string_vectors : List TestVector
generate_string_vectors =
    vector (some (codes "http")) (some (codes "bob")) (some (codes "www.example.com")) (some 8080)
      (codes "/abc/def") (some (codes "foobar")) (some (codes "ch2"))
      (codes "http://bob@www.example.com:8080/abc/def?foobar#ch2")
    ∷ vector (some (codes "http")) (some (codes "bob")) (some (codes "www.example.com")) (some 0)
        ([]) (some (codes "foobar")) (some (codes "ch2"))
        (codes "http://bob@www.example.com:0?foobar#ch2")
    ∷ vector (some (codes "http")) (some (codes "bob")) (some (codes "www.example.com")) (some 0)
        ([]) (some (codes "foobar")) (some ([])) (codes "http://bob@www.example.com:0?foobar#")
    ∷ vector (none) (none) (some (codes "example.com")) (none) ([]) (some (codes "bar")) (none)
        (codes "//example.com?bar")
    ∷ vector (none) (none) (some (codes "example.com")) (none) ([]) (some ([])) (none)
        (codes "//example.com?")
    ∷ vector (none) (none) (some (codes "example.com")) (none) ([]) (none) (none)
        (codes "//example.com")
    ∷ vector (none) (none) (some (codes "example.com")) (none) (codes "/") (none) (none)
        (codes "//example.com/")
    ∷ vector (none) (none) (some (codes "example.com")) (none) (codes "/xyz") (none) (none)
        (codes "//example.com/xyz")
    ∷ vector (none) (none) (some (codes "example.com")) (none) (codes "/xyz/") (none) (none)
        (codes "//example.com/xyz/")
    ∷ vector (none) (none) (none) (none) (codes "/") (none) (none) (codes "/")
    ∷ vector (none) (none) (none) (none) (codes "/xyz") (none) (none) (codes "/xyz")
    ∷ vector (none) (none) (none) (none) (codes "/xyz/") (none) (none) (codes "/xyz/")
    ∷ vector (none) (none) (none) (none) ([]) (none) (none) ([])
    ∷ vector (none) (none) (none) (none) (codes "xyz") (none) (none) (codes "xyz")
    ∷ vector (none) (none) (none) (none) (codes "xyz/") (none) (none) (codes "xyz/")
    ∷ vector (none) (none) (none) (none) ([]) (some (codes "bar")) (none) (codes "?bar")
    ∷ vector (some (codes "http")) (none) (none) (none) ([]) (some (codes "bar")) (none)
        (codes "http:?bar")
    ∷ vector (some (codes "http")) (none) (none) (none) ([]) (none) (none) (codes "http:")
    ∷ vector (some (codes "http")) (none) (some (codes "::1")) (none) ([]) (none) (none)
        (codes "http://[::1]")
    ∷ vector (some (codes "http")) (none) (some (codes "::1.2.3.4")) (none) ([]) (none) (none)
        (codes "http://[::1.2.3.4]")
    ∷ vector (some (codes "http")) (none) (some (codes "1.2.3.4")) (none) ([]) (none) (none)
        (codes "http://1.2.3.4")
    ∷ vector (none) (none) (none) (none) ([]) (none) (none) ([])
    ∷ vector (some (codes "http")) (some (codes "bob")) (none) (none) ([]) (some (codes "foobar"))
        (none) (codes "http://bob@?foobar")
    ∷ vector (none) (some (codes "bob")) (none) (none) ([]) (some (codes "foobar")) (none)
        (codes "//bob@?foobar")
    ∷ vector (none) (some (codes "bob")) (none) (none) ([]) (none) (none) (codes "//bob@")
    ∷ vector (some (codes "http")) (some (codes "b b")) (some (codes "www.example.com")) (some 8080)
        (codes "/abc/def") (some (codes "foobar")) (some (codes "ch2"))
        (codes "http://b%20b@www.example.com:8080/abc/def?foobar#ch2")
    ∷ vector (some (codes "http")) (some (codes "bob")) (some (codes "www.e ample.com")) (some 8080)
        (codes "/abc/def") (some (codes "foobar")) (some (codes "ch2"))
        (codes "http://bob@www.e%20ample.com:8080/abc/def?foobar#ch2")
    ∷ vector (some (codes "http")) (some (codes "bob")) (some (codes "www.example.com")) (some 8080)
        (codes "/a c/def") (some (codes "foobar")) (some (codes "ch2"))
        (codes "http://bob@www.example.com:8080/a%20c/def?foobar#ch2")
    ∷ vector (some (codes "http")) (some (codes "bob")) (some (codes "www.example.com")) (some 8080)
        (codes "/abc/def") (some (codes "foo ar")) (some (codes "ch2"))
        (codes "http://bob@www.example.com:8080/abc/def?foo%20ar#ch2")
    ∷ vector (some (codes "http")) (some (codes "bob")) (some (codes "www.example.com")) (some 8080)
        (codes "/abc/def") (some (codes "foobar")) (some (codes "c 2"))
        (codes "http://bob@www.example.com:8080/abc/def?foobar#c%202")
    ∷ vector (some (codes "http")) (some (codes "bob"))
        (some (0xE1 ∷ 0x88 ∷ 0xB4 ∷ codes ".example.com")) (some 8080) (codes "/abc/def")
        (some (codes "foobar")) (none)
        (codes "http://bob@%E1%88%B4.example.com:8080/abc/def?foobar")
    ∷ vector (some (codes "http")) (some (codes "bob")) (some (codes "fFfF::1")) (some 8080)
        (codes "/abc/def") (some (codes "foobar")) (some (codes "c 2"))
        (codes "http://bob@[ffff::1]:8080/abc/def?foobar#c%202")
    ∷ []

abbrev GenerateStringTest : Type 0
GenerateStringTest =
    AllEqual (λ (v : TestVector). (Parse.set_scheme default v.scheme).1) (λ (v : TestVector). ok tt)
      generate_string_vectors
    × AllEqual (λ (v : TestVector). Display.fmt (fill (Parse.set_scheme default v.scheme).0 v))
        (λ (v : TestVector). v.expected) generate_string_vectors

GenerateStringTest_holds : GenerateStringTest
unfolding Display.fmt Authority.fmt encode_element is_path_absolute from_utf8
    reg_name_not_pct_encoded validate_ipv6_address decimal upper_hex user_info_not_pct_encoded
    pchar_not_pct_encoded to_lower hexdig digit validate_ipv4_address is_octet
    query_not_pct_encoded_without_plus query_or_fragment_not_pct_encoded parse_uint Parse.set_scheme
    Parse.check_scheme alpha scheme_not_first set_authority set_path_from_str set_query set_fragment
    set_userinfo set_host set_port split slice_from
GenerateStringTest_holds = (refl, refl)

abbrev PercentEncodePlusInQueriesTest : Type 0
PercentEncodePlusInQueriesTest =
    Display.fmt (set_query default (some (codes "foo+bar"))) ≡ codes "?foo%2Bbar"

PercentEncodePlusInQueriesTest_holds : PercentEncodePlusInQueriesTest
unfolding Parse.parse Parse.parse_scheme Parse.check_scheme
    Parse.split_authority_from_path_and_parse_them Parse.parse_path Parse.parse_fragment
    Parse.parse_query find alpha scheme_not_first pchar_not_pct_encoded
    query_or_fragment_not_pct_encoded decode_element Pec.next to_hex_digit to_lower Authority.parse
    parse_host_port reg_name_not_pct_encoded user_info_not_pct_encoded ipv_future_last_part equal
    split strip_prefix parse_uint validate_ipv6_address hexdig digit Display.fmt Authority.fmt
    encode_element is_path_absolute from_utf8 decimal upper_hex validate_ipv4_address is_octet
    query_not_pct_encoded_without_plus Parse.set_scheme set_authority set_path_from_str set_query
    set_fragment set_userinfo set_host set_port take_scheme take_authority take_query take_fragment
    Str.find Str.byte_len slice_from slice_to starts_with
PercentEncodePlusInQueriesTest_holds = refl

abbrev SetIllegalSchemesTest : Type 0
SetIllegalSchemesTest =
    AllEqual (λ (s : Text). is_err (Parse.set_scheme default (some s)).1) (λ (s : Text). true)
      (codes "ab_de" ∷ codes "ab/de" ∷ codes "ab:de" ∷ [] ∷ codes "&" ∷ codes "foo&bar" ∷ [])

SetIllegalSchemesTest_holds : SetIllegalSchemesTest
unfolding Parse.set_scheme Parse.check_scheme alpha scheme_not_first set_authority set_path_from_str
    set_query set_fragment set_userinfo set_host set_port split
SetIllegalSchemesTest_holds = refl

abbrev PercentEncodeCharactersWithTwoDigitsAlwaysTest : Type 0
PercentEncodeCharactersWithTwoDigitsAlwaysTest =
    AllEqual (λ (c : ℕ). Display.fmt (set_query default (some (c ∷ []))))
      (λ (c : ℕ). codes "?%" ++ (hex_digit (c / 16) ∷ hex_digit (c % 16) ∷ []))
      (0 ∷ 1 ∷ 2 ∷ 3 ∷ 4 ∷ 5 ∷ 6 ∷ 7 ∷ 8 ∷ 9 ∷ 10 ∷ 11 ∷ 12 ∷ 13 ∷ 14 ∷ 15 ∷ 16 ∷ 17 ∷ 18 ∷ 19 ∷ 20
        ∷ 21 ∷ 22 ∷ 23 ∷ 24 ∷ 25 ∷ 26 ∷ 27 ∷ 28 ∷ 29 ∷ 30 ∷ [])

PercentEncodeCharactersWithTwoDigitsAlwaysTest_holds :
    PercentEncodeCharactersWithTwoDigitsAlwaysTest
unfolding Parse.parse Parse.parse_scheme Parse.check_scheme
    Parse.split_authority_from_path_and_parse_them Parse.parse_path Parse.parse_fragment
    Parse.parse_query find alpha scheme_not_first pchar_not_pct_encoded
    query_or_fragment_not_pct_encoded decode_element Pec.next to_hex_digit to_lower Authority.parse
    parse_host_port reg_name_not_pct_encoded user_info_not_pct_encoded ipv_future_last_part equal
    split strip_prefix parse_uint validate_ipv6_address hexdig digit Display.fmt Authority.fmt
    encode_element is_path_absolute from_utf8 decimal upper_hex validate_ipv4_address is_octet
    query_not_pct_encoded_without_plus Parse.set_scheme set_authority set_path_from_str set_query
    set_fragment set_userinfo set_host set_port take_scheme take_authority take_query take_fragment
    hex_digit Str.find Str.byte_len slice_from slice_to starts_with
PercentEncodeCharactersWithTwoDigitsAlwaysTest_holds = refl
