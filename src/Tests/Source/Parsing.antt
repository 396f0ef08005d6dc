-- ===== src/Tests/Source/Parsing.antt =====
-- src/uri.rs: the unit tests of the parser.
use uri.Text.Str
use uri.Text.Str.{slice_from, slice_to, starts_with}
use uri.Text.Utf8.{from_utf8}
use uri.ValidateIpv6Address.{validate_ipv6_address}
use uri.ParseHostPort.{parse_host_port}
use uri.Text.Numbers.{parse_uint, to_hex_digit}
use uri.Codec.{decode_element}
use uri.Uri.Parse.{try_from_str}
use uri.Uri.Path.{join, is_path_absolute, contains_relative_path, path_to_string}
use uri.Error.{ok, ◌>>=◌}
use uri.CharacterClasses.{
  digit, hexdig, ipv_future_last_part, user_info_not_pct_encoded, reg_name_not_pct_encoded,
  query_or_fragment_not_pct_encoded, pchar_not_pct_encoded, scheme_not_first, alpha,
}
use uri.Text.{equal, to_lower, Bytes, codes, Text}
use uri.Text.Slices.{strip_prefix, split, find}
use uri.Prelude.{refl, false, [], ◌∷◌, Option, true, none, some, Bool, ◌≡◌, List}
use uri.Tests.Source.{Returns, AllEqual, is_err}
use uri.PercentEncodedCharacterDecoder as Pec
use uri.Uri.Parse
use uri.Authority
use uri.Uri.Data.{is_relative_reference, host_to_string, host}

abbrev first : List Bytes → Option Bytes
first [] = none
first (b ∷ _) = some b

abbrev PathIllegalCharactersTest : Type 0
PathIllegalCharactersTest =
    AllEqual (λ (s : Text). is_err (Parse.parse s)) (λ (s : Text). true)
      (codes "http://www.example.com/foo[bar"
        ∷ codes "http://www.example.com/]bar"
        ∷ codes "http://www.example.com/foo]"
        ∷ codes "http://www.example.com/["
        ∷ codes "http://www.example.com/abc/foo]"
        ∷ codes "http://www.example.com/abc/["
        ∷ codes "http://www.example.com/foo]/abc"
        ∷ codes "http://www.example.com/[/abc"
        ∷ codes "http://www.example.com/foo]/"
        ∷ codes "http://www.example.com/[/"
        ∷ codes "/foo[bar"
        ∷ codes "/]bar"
        ∷ codes "/foo]"
        ∷ codes "/["
        ∷ codes "/abc/foo]"
        ∷ codes "/abc/["
        ∷ codes "/foo]/abc"
        ∷ codes "/[/abc"
        ∷ codes "/foo]/"
        ∷ codes "/[/"
        ∷ [])

PathIllegalCharactersTest_holds : PathIllegalCharactersTest
unfolding Parse.parse Parse.parse_scheme Parse.check_scheme
    Parse.split_authority_from_path_and_parse_them Parse.parse_path Parse.parse_fragment
    Parse.parse_query find alpha scheme_not_first pchar_not_pct_encoded
    query_or_fragment_not_pct_encoded decode_element Pec.next to_hex_digit to_lower Authority.parse
    parse_host_port reg_name_not_pct_encoded user_info_not_pct_encoded ipv_future_last_part equal
    split strip_prefix parse_uint validate_ipv6_address hexdig digit Str.find Str.byte_len
    slice_from slice_to starts_with
PathIllegalCharactersTest_holds = refl

abbrev PathCornerCasesTest : Type 0
PathCornerCasesTest =
    AllEqual (λ (r : Text × List Bytes). (Parse.parse r.0) >>= λ u. ok (u.path))
      (λ (r : Text × List Bytes). ok (r.1))
      (([], [])
        ∷ (codes "/", [] ∷ [])
        ∷ (codes "/foo", [] ∷ codes "foo" ∷ [])
        ∷ (codes "foo/", codes "foo" ∷ [] ∷ [])
        ∷ [])

PathCornerCasesTest_holds : PathCornerCasesTest
unfolding Parse.parse Parse.parse_scheme Parse.check_scheme
    Parse.split_authority_from_path_and_parse_them Parse.parse_path Parse.parse_fragment
    Parse.parse_query find alpha scheme_not_first pchar_not_pct_encoded
    query_or_fragment_not_pct_encoded decode_element Pec.next to_hex_digit to_lower Authority.parse
    parse_host_port reg_name_not_pct_encoded user_info_not_pct_encoded ipv_future_last_part equal
    split strip_prefix parse_uint validate_ipv6_address hexdig digit Str.find Str.byte_len
    slice_from slice_to starts_with
PathCornerCasesTest_holds = refl

abbrev PathBarelyLegalTest : Type 0
PathBarelyLegalTest =
    AllEqual (λ (r : Text × List Bytes). (Parse.parse r.0) >>= λ u. ok (u.path))
      (λ (r : Text × List Bytes). ok (r.1))
      ((codes "/:/foo", [] ∷ codes ":" ∷ codes "foo" ∷ [])
        ∷ (codes "bob@/foo", codes "bob@" ∷ codes "foo" ∷ [])
        ∷ (codes "hello!", codes "hello!" ∷ [])
        ∷ (codes "urn:hello,%20w%6Frld", codes "hello, world" ∷ [])
        ∷ (codes "//example.com/foo/(bar)/", [] ∷ codes "foo" ∷ codes "(bar)" ∷ [] ∷ [])
        ∷ [])

PathBarelyLegalTest_holds : PathBarelyLegalTest
unfolding Parse.parse Parse.parse_scheme Parse.check_scheme
    Parse.split_authority_from_path_and_parse_them Parse.parse_path Parse.parse_fragment
    Parse.parse_query find alpha scheme_not_first pchar_not_pct_encoded
    query_or_fragment_not_pct_encoded decode_element Pec.next to_hex_digit to_lower Authority.parse
    parse_host_port reg_name_not_pct_encoded user_info_not_pct_encoded ipv_future_last_part equal
    split strip_prefix parse_uint validate_ipv6_address hexdig digit Str.find Str.byte_len
    slice_from slice_to starts_with
PathBarelyLegalTest_holds = refl

abbrev PathsWithPercentEncodedCharactersTest : Type 0
PathsWithPercentEncodedCharactersTest =
    AllEqual (λ (r : Text × Bytes). (Parse.parse r.0) >>= λ u. ok (first u.path))
      (λ (r : Text × Bytes). ok (some r.1))
      ((codes "%41", codes "A")
        ∷ (codes "%4A", codes "J")
        ∷ (codes "%4a", codes "J")
        ∷ (codes "%bc", 0xBC ∷ [])
        ∷ (codes "%Bc", 0xBC ∷ [])
        ∷ (codes "%bC", 0xBC ∷ [])
        ∷ (codes "%BC", 0xBC ∷ [])
        ∷ (codes "%41%42%43", codes "ABC")
        ∷ (codes "%41%4A%43%4b", codes "AJCK")
        ∷ [])

PathsWithPercentEncodedCharactersTest_holds : PathsWithPercentEncodedCharactersTest
unfolding Parse.parse Parse.parse_scheme Parse.check_scheme
    Parse.split_authority_from_path_and_parse_them Parse.parse_path Parse.parse_fragment
    Parse.parse_query find alpha scheme_not_first pchar_not_pct_encoded
    query_or_fragment_not_pct_encoded decode_element Pec.next to_hex_digit to_lower Authority.parse
    parse_host_port reg_name_not_pct_encoded user_info_not_pct_encoded ipv_future_last_part equal
    split strip_prefix parse_uint validate_ipv6_address hexdig digit Str.find Str.byte_len
    slice_from slice_to starts_with
PathsWithPercentEncodedCharactersTest_holds = refl

abbrev RelativeVsNonRelativeReferencesTest : Type 0
RelativeVsNonRelativeReferencesTest =
    AllEqual (λ (r : Text × Bool). (Parse.parse r.0) >>= λ u. ok (is_relative_reference u))
      (λ (r : Text × Bool). ok (r.1))
      ((codes "http://www.example.com/", false)
        ∷ (codes "http://www.example.com", false)
        ∷ (codes "/", true)
        ∷ (codes "foo", true)
        ∷ [])

RelativeVsNonRelativeReferencesTest_holds : RelativeVsNonRelativeReferencesTest
unfolding Parse.parse Parse.parse_scheme Parse.check_scheme
    Parse.split_authority_from_path_and_parse_them Parse.parse_path Parse.parse_fragment
    Parse.parse_query find alpha scheme_not_first pchar_not_pct_encoded
    query_or_fragment_not_pct_encoded decode_element Pec.next to_hex_digit to_lower Authority.parse
    parse_host_port reg_name_not_pct_encoded user_info_not_pct_encoded ipv_future_last_part equal
    split strip_prefix parse_uint validate_ipv6_address hexdig digit is_relative_reference
    contains_relative_path is_path_absolute Str.find Str.byte_len slice_from slice_to starts_with
RelativeVsNonRelativeReferencesTest_holds = refl

abbrev RelativeVsNonRelativePathsTest : Type 0
RelativeVsNonRelativePathsTest =
    AllEqual (λ (r : Text × Bool). (Parse.parse r.0) >>= λ u. ok (contains_relative_path u))
      (λ (r : Text × Bool). ok (r.1))
      ((codes "http://www.example.com/", false)
        ∷ (codes "http://www.example.com", false)
        ∷ (codes "/", false)
        ∷ (codes "foo", true)
        ∷ ([], true)
        ∷ [])

RelativeVsNonRelativePathsTest_holds : RelativeVsNonRelativePathsTest
unfolding Parse.parse Parse.parse_scheme Parse.check_scheme
    Parse.split_authority_from_path_and_parse_them Parse.parse_path Parse.parse_fragment
    Parse.parse_query find alpha scheme_not_first pchar_not_pct_encoded
    query_or_fragment_not_pct_encoded decode_element Pec.next to_hex_digit to_lower Authority.parse
    parse_host_port reg_name_not_pct_encoded user_info_not_pct_encoded ipv_future_last_part equal
    split strip_prefix parse_uint validate_ipv6_address hexdig digit is_relative_reference
    contains_relative_path is_path_absolute Str.find Str.byte_len slice_from slice_to starts_with
RelativeVsNonRelativePathsTest_holds = refl

abbrev UriEndsAfterAuthorityTest : Type 0
UriEndsAfterAuthorityTest = Returns (λ u. Unit {0}) (Parse.parse (codes "http://www.example.com"))

UriEndsAfterAuthorityTest_holds : UriEndsAfterAuthorityTest
unfolding Parse.parse Parse.parse_scheme Parse.check_scheme
    Parse.split_authority_from_path_and_parse_them Parse.parse_path Parse.parse_fragment
    Parse.parse_query find alpha scheme_not_first pchar_not_pct_encoded
    query_or_fragment_not_pct_encoded decode_element Pec.next to_hex_digit to_lower Authority.parse
    parse_host_port reg_name_not_pct_encoded user_info_not_pct_encoded ipv_future_last_part equal
    split strip_prefix parse_uint validate_ipv6_address hexdig digit Str.find Str.byte_len
    slice_from slice_to starts_with
UriEndsAfterAuthorityTest_holds = tt

abbrev NoSchemeTest : Type 0
NoSchemeTest =
    Returns
      (λ u.
        (u.scheme ≡ none)
        × (u.path ≡ codes "foo" ∷ codes "bar" ∷ [])
        × (path_to_string u ≡ ok (codes "foo/bar")))
      (Parse.parse (codes "foo/bar"))

NoSchemeTest_holds : NoSchemeTest
unfolding Parse.parse Parse.parse_scheme Parse.check_scheme
    Parse.split_authority_from_path_and_parse_them Parse.parse_path Parse.parse_fragment
    Parse.parse_query find alpha scheme_not_first pchar_not_pct_encoded
    query_or_fragment_not_pct_encoded decode_element Pec.next to_hex_digit to_lower Authority.parse
    parse_host_port reg_name_not_pct_encoded user_info_not_pct_encoded ipv_future_last_part equal
    split strip_prefix parse_uint validate_ipv6_address hexdig digit from_utf8 path_to_string join
    Str.find Str.byte_len slice_from slice_to starts_with
NoSchemeTest_holds = (refl, refl, refl)

abbrev UrlTest : Type 0
UrlTest =
    Returns
      (λ u.
        (u.scheme ≡ some (codes "http"))
        × (host u ≡ some (codes "www.example.com"))
        × (host_to_string u ≡ ok (some (codes "www.example.com")))
        × (path_to_string u ≡ ok (codes "/foo/bar")))
      (try_from_str (codes "http://www.example.com/foo/bar"))

UrlTest_holds : UrlTest
unfolding Parse.parse Parse.parse_scheme Parse.check_scheme
    Parse.split_authority_from_path_and_parse_them Parse.parse_path Parse.parse_fragment
    Parse.parse_query find alpha scheme_not_first pchar_not_pct_encoded
    query_or_fragment_not_pct_encoded decode_element Pec.next to_hex_digit to_lower Authority.parse
    parse_host_port reg_name_not_pct_encoded user_info_not_pct_encoded ipv_future_last_part equal
    split strip_prefix parse_uint validate_ipv6_address hexdig digit from_utf8 try_from_str
    path_to_string join host_to_string Str.find Str.byte_len slice_from slice_to starts_with
UrlTest_holds = (refl, refl, refl, refl)

abbrev UrnDefaultPathDelimiterTest : Type 0
UrnDefaultPathDelimiterTest =
    Returns
      (λ u.
        (u.scheme ≡ some (codes "urn"))
        × (host u ≡ none)
        × (path_to_string u ≡ ok (codes "book:fantasy:Hobbit")))
      (try_from_str (codes "urn:book:fantasy:Hobbit"))

UrnDefaultPathDelimiterTest_holds : UrnDefaultPathDelimiterTest
unfolding Parse.parse Parse.parse_scheme Parse.check_scheme
    Parse.split_authority_from_path_and_parse_them Parse.parse_path Parse.parse_fragment
    Parse.parse_query find alpha scheme_not_first pchar_not_pct_encoded
    query_or_fragment_not_pct_encoded decode_element Pec.next to_hex_digit to_lower Authority.parse
    parse_host_port reg_name_not_pct_encoded user_info_not_pct_encoded ipv_future_last_part equal
    split strip_prefix parse_uint validate_ipv6_address hexdig digit from_utf8 try_from_str
    path_to_string join Str.find Str.byte_len slice_from slice_to starts_with
UrnDefaultPathDelimiterTest_holds = (refl, refl, refl)
