-- ===== src/Tests/Source/Elements.antt =====
-- src/uri.rs: the unit tests of queries and fragments.
use uri.Text.Str
use uri.Text.Str.{slice_from, slice_to, starts_with}
use uri.Text.Utf8.{from_utf8}
use uri.ValidateIpv6Address.{validate_ipv6_address}
use uri.ParseHostPort.{parse_host_port}
use uri.Text.Numbers.{parse_uint, to_hex_digit}
use uri.Codec.{decode_element}
use uri.Prelude.{none, Option, refl, some, [], ◌∷◌, true}
use uri.Error.{Error, Result, ok, ◌>>=◌}
use uri.CharacterClasses.{
  digit, hexdig, ipv_future_last_part, user_info_not_pct_encoded, reg_name_not_pct_encoded,
  query_or_fragment_not_pct_encoded, pchar_not_pct_encoded, scheme_not_first, alpha,
}
use uri.Text.{equal, to_lower, codes, Text}
use uri.Text.Slices.{strip_prefix, split, find}
use uri.Tests.Source.{AllEqual, is_err}
use uri.PercentEncodedCharacterDecoder as Pec
use uri.Uri.Parse
use uri.Authority
use uri.Uri.Data.{host_to_string, fragment_to_string, query_to_string}

abbrev QueryIllegalCharactersTest : Type 0
QueryIllegalCharactersTest =
    AllEqual (λ (s : Text). is_err (Parse.parse s)) (λ (s : Text). true)
      (codes "http://www.example.com/?foo[bar"
        ∷ codes "http://www.example.com/?]bar"
        ∷ codes "http://www.example.com/?foo]"
        ∷ codes "http://www.example.com/?["
        ∷ codes "http://www.example.com/?abc/foo]"
        ∷ codes "http://www.example.com/?abc/["
        ∷ codes "http://www.example.com/?foo]/abc"
        ∷ codes "http://www.example.com/?[/abc"
        ∷ codes "http://www.example.com/?foo]/"
        ∷ codes "http://www.example.com/?[/"
        ∷ codes "?foo[bar"
        ∷ codes "?]bar"
        ∷ codes "?foo]"
        ∷ codes "?["
        ∷ codes "?abc/foo]"
        ∷ codes "?abc/["
        ∷ codes "?foo]/abc"
        ∷ codes "?[/abc"
        ∷ codes "?foo]/"
        ∷ codes "?[/"
        ∷ [])

QueryIllegalCharactersTest_holds : QueryIllegalCharactersTest
unfolding Parse.parse Parse.parse_scheme Parse.check_scheme
    Parse.split_authority_from_path_and_parse_them Parse.parse_path Parse.parse_fragment
    Parse.parse_query find alpha scheme_not_first pchar_not_pct_encoded
    query_or_fragment_not_pct_encoded decode_element Pec.next to_hex_digit to_lower Authority.parse
    parse_host_port reg_name_not_pct_encoded user_info_not_pct_encoded ipv_future_last_part equal
    split strip_prefix parse_uint validate_ipv6_address hexdig digit Str.find Str.byte_len
    slice_from slice_to starts_with
QueryIllegalCharactersTest_holds = refl

abbrev FragmentIllegalCharactersTest : Type 0
FragmentIllegalCharactersTest =
    AllEqual (λ (s : Text). is_err (Parse.parse s)) (λ (s : Text). true)
      (codes "http://www.example.com/#foo[bar"
        ∷ codes "http://www.example.com/#]bar"
        ∷ codes "http://www.example.com/#foo]"
        ∷ codes "http://www.example.com/#["
        ∷ codes "http://www.example.com/#abc/foo]"
        ∷ codes "http://www.example.com/#abc/["
        ∷ codes "http://www.example.com/#foo]/abc"
        ∷ codes "http://www.example.com/#[/abc"
        ∷ codes "http://www.example.com/#foo]/"
        ∷ codes "http://www.example.com/#[/"
        ∷ codes "#foo[bar"
        ∷ codes "#]bar"
        ∷ codes "#foo]"
        ∷ codes "#["
        ∷ codes "#abc/foo]"
        ∷ codes "#abc/["
        ∷ codes "#foo]/abc"
        ∷ codes "#[/abc"
        ∷ codes "#foo]/"
        ∷ codes "#[/"
        ∷ [])

FragmentIllegalCharactersTest_holds : FragmentIllegalCharactersTest
unfolding Parse.parse Parse.parse_scheme Parse.check_scheme
    Parse.split_authority_from_path_and_parse_them Parse.parse_path Parse.parse_fragment
    Parse.parse_query find alpha scheme_not_first pchar_not_pct_encoded
    query_or_fragment_not_pct_encoded decode_element Pec.next to_hex_digit to_lower Authority.parse
    parse_host_port reg_name_not_pct_encoded user_info_not_pct_encoded ipv_future_last_part equal
    split strip_prefix parse_uint validate_ipv6_address hexdig digit Str.find Str.byte_len
    slice_from slice_to starts_with
FragmentIllegalCharactersTest_holds = refl

abbrev QueryBarelyLegalTest : Type 0
QueryBarelyLegalTest =
    AllEqual (λ (r : Text × Text). (Parse.parse r.0) >>= λ u. query_to_string u)
      (λ (r : Text × Text). ok (some r.1))
      ((codes "/?:/foo", codes ":/foo")
        ∷ (codes "?bob@/foo", codes "bob@/foo")
        ∷ (codes "?hello!", codes "hello!")
        ∷ (codes "urn:?hello,%20w%6Frld", codes "hello, world")
        ∷ (codes "//example.com/foo?(bar)/", codes "(bar)/")
        ∷ (codes "http://www.example.com/?foo?bar", codes "foo?bar")
        ∷ [])

QueryBarelyLegalTest_holds : QueryBarelyLegalTest
unfolding Parse.parse Parse.parse_scheme Parse.check_scheme
    Parse.split_authority_from_path_and_parse_them Parse.parse_path Parse.parse_fragment
    Parse.parse_query find alpha scheme_not_first pchar_not_pct_encoded
    query_or_fragment_not_pct_encoded decode_element Pec.next to_hex_digit to_lower Authority.parse
    parse_host_port reg_name_not_pct_encoded user_info_not_pct_encoded ipv_future_last_part equal
    split strip_prefix parse_uint validate_ipv6_address hexdig digit from_utf8 query_to_string
    Str.find Str.byte_len slice_from slice_to starts_with
QueryBarelyLegalTest_holds = refl

abbrev FragmentBarelyLegalTest : Type 0
FragmentBarelyLegalTest =
    AllEqual (λ (r : Text × Text). (Parse.parse r.0) >>= λ u. fragment_to_string u)
      (λ (r : Text × Text). ok (some r.1))
      ((codes "/#:/foo", codes ":/foo")
        ∷ (codes "#bob@/foo", codes "bob@/foo")
        ∷ (codes "#hello!", codes "hello!")
        ∷ (codes "urn:#hello,%20w%6Frld", codes "hello, world")
        ∷ (codes "//example.com/foo#(bar)/", codes "(bar)/")
        ∷ (codes "http://www.example.com/#foo?bar", codes "foo?bar")
        ∷ [])

FragmentBarelyLegalTest_holds : FragmentBarelyLegalTest
unfolding Parse.parse Parse.parse_scheme Parse.check_scheme
    Parse.split_authority_from_path_and_parse_them Parse.parse_path Parse.parse_fragment
    Parse.parse_query find alpha scheme_not_first pchar_not_pct_encoded
    query_or_fragment_not_pct_encoded decode_element Pec.next to_hex_digit to_lower Authority.parse
    parse_host_port reg_name_not_pct_encoded user_info_not_pct_encoded ipv_future_last_part equal
    split strip_prefix parse_uint validate_ipv6_address hexdig digit from_utf8 fragment_to_string
    Str.find Str.byte_len slice_from slice_to starts_with
FragmentBarelyLegalTest_holds = refl

-- The host, the query and the fragment.
abbrev elements : Text → Result Error (Option Text × Option Text × Option Text)
elements s = do
  u ← Parse.parse s
  host ← host_to_string u
  query ← query_to_string u
  fragment ← fragment_to_string u
  ok (host, query, fragment)

abbrev QueryAndFragmentElementsTest : Type 0
QueryAndFragmentElementsTest =
    AllEqual (λ (r : Text × Option Text × Option Text × Option Text). elements r.0)
      (λ (r : Text × Option Text × Option Text × Option Text). ok (r.1, r.2, r.3))
      ((codes "http://www.example.com/", some (codes "www.example.com"), none, none)
        ∷ (codes "http://example.com?foo", some (codes "example.com"), some (codes "foo"), none)
        ∷ (
          codes "http://www.example.com#foo",
          some (codes "www.example.com"),
          none,
          some (codes "foo"),
        )
        ∷ (
          codes "http://www.example.com?foo#bar",
          some (codes "www.example.com"),
          some (codes "foo"),
          some (codes "bar"),
        )
        ∷ (
          codes "http://www.example.com?earth?day#bar",
          some (codes "www.example.com"),
          some (codes "earth?day"),
          some (codes "bar"),
        )
        ∷ (
          codes "http://www.example.com/spam?foo#bar",
          some (codes "www.example.com"),
          some (codes "foo"),
          some (codes "bar"),
        )
        ∷ (codes "http://www.example.com/?", some (codes "www.example.com"), some [], none)
        ∷ [])

QueryAndFragmentElementsTest_holds : QueryAndFragmentElementsTest
unfolding Parse.parse Parse.parse_scheme Parse.check_scheme
    Parse.split_authority_from_path_and_parse_them Parse.parse_path Parse.parse_fragment
    Parse.parse_query Str.find Str.byte_len slice_from slice_to alpha scheme_not_first
    pchar_not_pct_encoded query_or_fragment_not_pct_encoded decode_element Pec.next to_hex_digit
    to_lower Authority.parse parse_host_port reg_name_not_pct_encoded user_info_not_pct_encoded
    ipv_future_last_part equal split strip_prefix parse_uint validate_ipv6_address hexdig digit
    from_utf8 host_to_string query_to_string fragment_to_string starts_with
QueryAndFragmentElementsTest_holds = refl
