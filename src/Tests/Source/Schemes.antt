-- ===== src/Tests/Source/Schemes.antt =====
-- src/uri.rs: the unit tests of schemes.
use uri.Text.Str
use uri.Text.Str.{slice_from, slice_to, starts_with}
use uri.ValidateIpv6Address.{validate_ipv6_address}
use uri.ParseHostPort.{parse_host_port}
use uri.Text.Numbers.{parse_uint, to_hex_digit}
use uri.Codec.{decode_element}
use uri.Prelude.{refl, [], some, none, ◌∷◌, true}
use uri.CharacterClasses.{
  digit, hexdig, ipv_future_last_part, user_info_not_pct_encoded, reg_name_not_pct_encoded,
  query_or_fragment_not_pct_encoded, pchar_not_pct_encoded, scheme_not_first, alpha,
}
use uri.Error.{ok, ◌>>=◌}
use uri.Text.Slices.{strip_prefix, split, find}
use uri.Text.{equal, to_lower, codes, Text}
use uri.Tests.Source.{AllEqual, is_err}
use uri.PercentEncodedCharacterDecoder as Pec
use uri.Uri.Parse
use uri.Authority

abbrev SchemeIllegalCharactersTest : Type 0
SchemeIllegalCharactersTest =
    AllEqual (λ (s : Text). is_err (Parse.parse s)) (λ (s : Text). true)
      (codes "://www.example.com/"
        ∷ codes "0://www.example.com/"
        ∷ codes "+://www.example.com/"
        ∷ codes "@://www.example.com/"
        ∷ codes ".://www.example.com/"
        ∷ codes "h@://www.example.com/"
        ∷ [])

SchemeIllegalCharactersTest_holds : SchemeIllegalCharactersTest
unfolding Parse.parse Parse.parse_scheme Parse.check_scheme
    Parse.split_authority_from_path_and_parse_them Parse.parse_path Parse.parse_fragment
    Parse.parse_query find alpha scheme_not_first pchar_not_pct_encoded
    query_or_fragment_not_pct_encoded decode_element Pec.next to_hex_digit to_lower Authority.parse
    parse_host_port reg_name_not_pct_encoded user_info_not_pct_encoded ipv_future_last_part equal
    split strip_prefix parse_uint validate_ipv6_address hexdig digit Str.find Str.byte_len
    slice_from slice_to starts_with
SchemeIllegalCharactersTest_holds = refl

abbrev SchemeBarelyLegalTest : Type 0
SchemeBarelyLegalTest =
    AllEqual (λ (r : Text × Text). (Parse.parse r.0) >>= λ u. ok (u.scheme))
      (λ (r : Text × Text). ok (some r.1))
      ((codes "h://www.example.com/", codes "h")
        ∷ (codes "x+://www.example.com/", codes "x+")
        ∷ (codes "y-://www.example.com/", codes "y-")
        ∷ (codes "z.://www.example.com/", codes "z.")
        ∷ (codes "aa://www.example.com/", codes "aa")
        ∷ (codes "a0://www.example.com/", codes "a0")
        ∷ [])

SchemeBarelyLegalTest_holds : SchemeBarelyLegalTest
unfolding Parse.parse Parse.parse_scheme Parse.check_scheme
    Parse.split_authority_from_path_and_parse_them Parse.parse_path Parse.parse_fragment
    Parse.parse_query find alpha scheme_not_first pchar_not_pct_encoded
    query_or_fragment_not_pct_encoded decode_element Pec.next to_hex_digit to_lower Authority.parse
    parse_host_port reg_name_not_pct_encoded user_info_not_pct_encoded ipv_future_last_part equal
    split strip_prefix parse_uint validate_ipv6_address hexdig digit Str.find Str.byte_len
    slice_from slice_to starts_with
SchemeBarelyLegalTest_holds = refl

abbrev SchemeMixedCaseTest : Type 0
SchemeMixedCaseTest =
    AllEqual (λ (s : Text). (Parse.parse s) >>= λ u. ok (u.scheme))
      (λ (s : Text). ok (some (codes "http")))
      (codes "http://www.example.com/"
        ∷ codes "hTtp://www.example.com/"
        ∷ codes "HTTP://www.example.com/"
        ∷ codes "Http://www.example.com/"
        ∷ codes "HttP://www.example.com/"
        ∷ [])

SchemeMixedCaseTest_holds : SchemeMixedCaseTest
unfolding Parse.parse Parse.parse_scheme Parse.check_scheme
    Parse.split_authority_from_path_and_parse_them Parse.parse_path Parse.parse_fragment
    Parse.parse_query find alpha scheme_not_first pchar_not_pct_encoded
    query_or_fragment_not_pct_encoded decode_element Pec.next to_hex_digit to_lower Authority.parse
    parse_host_port reg_name_not_pct_encoded user_info_not_pct_encoded ipv_future_last_part equal
    split strip_prefix parse_uint validate_ipv6_address hexdig digit Str.find Str.byte_len
    slice_from slice_to starts_with
SchemeMixedCaseTest_holds = refl

abbrev DontMisinterpretColonInOtherPlacesAsSchemeDelimiterTest : Type 0
DontMisinterpretColonInOtherPlacesAsSchemeDelimiterTest =
    AllEqual (λ (s : Text). (Parse.parse s) >>= λ u. ok (u.scheme)) (λ (s : Text). ok (none))
      (codes "//foo:bar@www.example.com/"
        ∷ codes "//www.example.com/a:b"
        ∷ codes "//www.example.com/foo?a:b"
        ∷ codes "//www.example.com/foo#a:b"
        ∷ codes "//[v7.:]/"
        ∷ codes "/:/foo"
        ∷ [])

DontMisinterpretColonInOtherPlacesAsSchemeDelimiterTest_holds :
    DontMisinterpretColonInOtherPlacesAsSchemeDelimiterTest
unfolding Parse.parse Parse.parse_scheme Parse.check_scheme
    Parse.split_authority_from_path_and_parse_them Parse.parse_path Parse.parse_fragment
    Parse.parse_query find alpha scheme_not_first pchar_not_pct_encoded
    query_or_fragment_not_pct_encoded decode_element Pec.next to_hex_digit to_lower Authority.parse
    parse_host_port reg_name_not_pct_encoded user_info_not_pct_encoded ipv_future_last_part equal
    split strip_prefix parse_uint validate_ipv6_address hexdig digit Str.find Str.byte_len
    slice_from slice_to starts_with
DontMisinterpretColonInOtherPlacesAsSchemeDelimiterTest_holds = refl
