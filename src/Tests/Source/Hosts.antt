-- ===== src/Tests/Source/Hosts.antt =====
-- src/parse_host_port.rs and src/authority.rs: the unit tests.
use uri.Text.Str
use uri.Text.Str.{slice_from, slice_to, starts_with}
use uri.ValidateIpv6Address.{validate_ipv6_address}
use uri.Text.Numbers.{invalid_digit, pos_overflow, parse_uint, to_hex_digit}
use uri.CharacterClasses.{
  digit, hexdig, ipv_future_last_part, user_info_not_pct_encoded, reg_name_not_pct_encoded,
}
use uri.Codec.{decode_element}
use uri.Error.{ok, illegal_port_number, truncated_host, ◌>>=◌, err}
use uri.ParseHostPort.{parse_host_port}
use uri.Text.Slices.{strip_prefix, find}
use uri.Text.{to_lower, codes, Bytes, Text}
use uri.Prelude.{refl, none, [], ◌∷◌, true, some, Option, ◌≡◌}
use uri.Tests.Source.{Refused, Returns, AllEqual, is_err}
use uri.PercentEncodedCharacterDecoder as Pec
use uri.Authority

abbrev NonEmptyPortNumberTest : Type 0
NonEmptyPortNumberTest =
    parse_host_port (codes "www.example.com:8080") ≡ ok (codes "www.example.com", some 8080)

NonEmptyPortNumberTest_holds : NonEmptyPortNumberTest
unfolding parse_host_port reg_name_not_pct_encoded to_lower Pec.next to_hex_digit parse_uint
    validate_ipv6_address hexdig digit ipv_future_last_part strip_prefix starts_with slice_from
NonEmptyPortNumberTest_holds = refl

abbrev EmptyPortNumberTest : Type 0
EmptyPortNumberTest =
    parse_host_port (codes "www.example.com:") ≡ ok (codes "www.example.com", none)

EmptyPortNumberTest_holds : EmptyPortNumberTest
unfolding parse_host_port reg_name_not_pct_encoded to_lower Pec.next to_hex_digit parse_uint
    validate_ipv6_address hexdig digit ipv_future_last_part strip_prefix starts_with slice_from
EmptyPortNumberTest_holds = refl

abbrev NoPortNumberTest : Type 0
NoPortNumberTest = parse_host_port (codes "www.example.com") ≡ ok (codes "www.example.com", none)

NoPortNumberTest_holds : NoPortNumberTest
unfolding parse_host_port reg_name_not_pct_encoded to_lower Pec.next to_hex_digit parse_uint
    validate_ipv6_address hexdig digit ipv_future_last_part strip_prefix starts_with slice_from
NoPortNumberTest_holds = refl

abbrev BadPortNumberPurlyAlphabeticTest : Type 0
BadPortNumberPurlyAlphabeticTest = Refused (parse_host_port (codes "www.example.com:spam"))

BadPortNumberPurlyAlphabeticTest_holds : BadPortNumberPurlyAlphabeticTest
unfolding parse_host_port reg_name_not_pct_encoded to_lower Pec.next to_hex_digit parse_uint
    validate_ipv6_address hexdig digit ipv_future_last_part strip_prefix starts_with slice_from
BadPortNumberPurlyAlphabeticTest_holds = tt

abbrev BadPortNumberStartsNumericEndsAlphabeticTest : Type 0
BadPortNumberStartsNumericEndsAlphabeticTest =
    Refused (parse_host_port (codes "www.example.com:8080spam"))

BadPortNumberStartsNumericEndsAlphabeticTest_holds : BadPortNumberStartsNumericEndsAlphabeticTest
unfolding parse_host_port reg_name_not_pct_encoded to_lower Pec.next to_hex_digit parse_uint
    validate_ipv6_address hexdig digit ipv_future_last_part strip_prefix starts_with slice_from
BadPortNumberStartsNumericEndsAlphabeticTest_holds = tt

abbrev BadPortNumberNegativeTest : Type 0
BadPortNumberNegativeTest = Refused (parse_host_port (codes "www.example.com:-1234"))

BadPortNumberNegativeTest_holds : BadPortNumberNegativeTest
unfolding parse_host_port reg_name_not_pct_encoded to_lower Pec.next to_hex_digit parse_uint
    validate_ipv6_address hexdig digit ipv_future_last_part strip_prefix starts_with slice_from
BadPortNumberNegativeTest_holds = tt

abbrev LargestValidPortNumberTest : Type 0
LargestValidPortNumberTest =
    Returns (λ r. r.1 ≡ some 65535) (parse_host_port (codes "www.example.com:65535"))

LargestValidPortNumberTest_holds : LargestValidPortNumberTest
unfolding parse_host_port reg_name_not_pct_encoded to_lower Pec.next to_hex_digit parse_uint
    validate_ipv6_address hexdig digit ipv_future_last_part strip_prefix starts_with slice_from
LargestValidPortNumberTest_holds = refl

abbrev BadPortNumberTooBigTest : Type 0
BadPortNumberTooBigTest =
    parse_host_port (codes "www.example.com:65536") ≡ err (illegal_port_number pos_overflow)

BadPortNumberTooBigTest_holds : BadPortNumberTooBigTest
unfolding parse_host_port reg_name_not_pct_encoded to_lower Pec.next to_hex_digit parse_uint
    validate_ipv6_address hexdig digit ipv_future_last_part strip_prefix starts_with slice_from
BadPortNumberTooBigTest_holds = refl

abbrev Ipv6AddressWithIpv4PartMissingBracketTest : Type 0
Ipv6AddressWithIpv4PartMissingBracketTest =
    parse_host_port (codes "::ffff:1.2.3.4]") ≡ err (illegal_port_number invalid_digit)

Ipv6AddressWithIpv4PartMissingBracketTest_holds : Ipv6AddressWithIpv4PartMissingBracketTest
unfolding parse_host_port reg_name_not_pct_encoded to_lower Pec.next to_hex_digit parse_uint
    validate_ipv6_address hexdig digit ipv_future_last_part strip_prefix starts_with slice_from
Ipv6AddressWithIpv4PartMissingBracketTest_holds = refl

abbrev TruncatedHostTest : Type 0
TruncatedHostTest =
    AllEqual (λ (s : Text). parse_host_port s) (λ (s : Text). err truncated_host)
      (codes "[::ffff:1.2.3.4/" ∷ codes "[:]/" ∷ codes "[v]/" ∷ [])

TruncatedHostTest_holds : TruncatedHostTest
unfolding parse_host_port reg_name_not_pct_encoded to_lower Pec.next to_hex_digit parse_uint
    validate_ipv6_address hexdig digit ipv_future_last_part strip_prefix starts_with slice_from
TruncatedHostTest_holds = refl

abbrev UserinfoTest : Type 0
UserinfoTest =
    AllEqual (λ (r : Text × Option Bytes). (Authority.parse r.0) >>= λ a. ok (a.userinfo))
      (λ (r : Text × Option Bytes). ok (r.1))
      ((codes "www.example.com", none)
        ∷ (codes "joe@www.example.com", some (codes "joe"))
        ∷ (codes "pepe:feelsbadman@www.example.com", some (codes "pepe:feelsbadman"))
        ∷ [])

UserinfoTest_holds : UserinfoTest
unfolding Authority.parse find decode_element Pec.next to_hex_digit to_lower parse_host_port
    reg_name_not_pct_encoded user_info_not_pct_encoded ipv_future_last_part strip_prefix parse_uint
    validate_ipv6_address hexdig digit Str.find Str.byte_len slice_from slice_to starts_with
UserinfoTest_holds = refl

abbrev UserinfoIllegalCharactersTest : Type 0
UserinfoIllegalCharactersTest =
    AllEqual (λ (s : Text). is_err (Authority.parse s)) (λ (s : Text). true)
      (codes "%X@www.example.com" ∷ codes "{@www.example.com" ∷ [])

UserinfoIllegalCharactersTest_holds : UserinfoIllegalCharactersTest
unfolding Authority.parse find decode_element Pec.next to_hex_digit to_lower parse_host_port
    reg_name_not_pct_encoded user_info_not_pct_encoded ipv_future_last_part strip_prefix parse_uint
    validate_ipv6_address hexdig digit Str.find Str.byte_len slice_from slice_to starts_with
UserinfoIllegalCharactersTest_holds = refl

abbrev HostIllegalCharactersTest : Type 0
HostIllegalCharactersTest =
    AllEqual (λ (s : Text). is_err (Authority.parse s)) (λ (s : Text). true)
      (codes "%X@www.example.com" ∷ codes "@www:example.com" ∷ codes "[vX.:]" ∷ [])

HostIllegalCharactersTest_holds : HostIllegalCharactersTest
unfolding Authority.parse find decode_element Pec.next to_hex_digit to_lower parse_host_port
    reg_name_not_pct_encoded user_info_not_pct_encoded ipv_future_last_part strip_prefix parse_uint
    validate_ipv6_address hexdig digit Str.find Str.byte_len slice_from slice_to starts_with
HostIllegalCharactersTest_holds = refl

abbrev UserinfoBarelyLegalTest : Type 0
UserinfoBarelyLegalTest =
    AllEqual (λ (r : Text × Bytes). (Authority.parse r.0) >>= λ a. ok (a.userinfo))
      (λ (r : Text × Bytes). ok (some r.1))
      ((codes "%41@www.example.com", codes "A")
        ∷ (codes "@www.example.com", [])
        ∷ (codes "!@www.example.com", codes "!")
        ∷ (codes "'@www.example.com", codes "'")
        ∷ (codes "(@www.example.com", codes "(")
        ∷ (codes ";@www.example.com", codes ";")
        ∷ (codes ":@www.example.com", codes ":")
        ∷ [])

UserinfoBarelyLegalTest_holds : UserinfoBarelyLegalTest
unfolding Authority.parse find decode_element Pec.next to_hex_digit to_lower parse_host_port
    reg_name_not_pct_encoded user_info_not_pct_encoded ipv_future_last_part strip_prefix parse_uint
    validate_ipv6_address hexdig digit Str.find Str.byte_len slice_from slice_to starts_with
UserinfoBarelyLegalTest_holds = refl

abbrev HostBarelyLegalTest : Type 0
HostBarelyLegalTest =
    AllEqual (λ (r : Text × Bytes). (Authority.parse r.0) >>= λ a. ok (a.host))
      (λ (r : Text × Bytes). ok (r.1))
      ((codes "%41", codes "a")
        ∷ ([], [])
        ∷ (codes "!", codes "!")
        ∷ (codes "'", codes "'")
        ∷ (codes "(", codes "(")
        ∷ (codes ";", codes ";")
        ∷ (codes "1.2.3.4", codes "1.2.3.4")
        ∷ (codes "[v7.:]", codes "v7.:")
        ∷ (codes "[v7.aB]", codes "v7.aB")
        ∷ [])

HostBarelyLegalTest_holds : HostBarelyLegalTest
unfolding Authority.parse find decode_element Pec.next to_hex_digit to_lower parse_host_port
    reg_name_not_pct_encoded user_info_not_pct_encoded ipv_future_last_part strip_prefix parse_uint
    validate_ipv6_address hexdig digit Str.find Str.byte_len slice_from slice_to starts_with
HostBarelyLegalTest_holds = refl

abbrev HostEndsInDotTest : Type 0
HostEndsInDotTest =
    Returns (λ a. a.host ≡ codes "example.com.") (Authority.parse (codes "example.com."))

HostEndsInDotTest_holds : HostEndsInDotTest
unfolding Authority.parse find decode_element Pec.next to_hex_digit to_lower parse_host_port
    reg_name_not_pct_encoded user_info_not_pct_encoded ipv_future_last_part strip_prefix parse_uint
    validate_ipv6_address hexdig digit Str.find Str.byte_len slice_from slice_to starts_with
HostEndsInDotTest_holds = refl

abbrev HostMixedCaseTest : Type 0
HostMixedCaseTest =
    AllEqual (λ (s : Text). (Authority.parse s) >>= λ a. ok (a.host))
      (λ (s : Text). ok (codes "www.example.com"))
      (codes "www.example.com"
        ∷ codes "www.EXAMPLE.com"
        ∷ codes "www.exAMple.com"
        ∷ codes "www.example.cOM"
        ∷ codes "wWw.exampLe.Com"
        ∷ [])

HostMixedCaseTest_holds : HostMixedCaseTest
unfolding Authority.parse find decode_element Pec.next to_hex_digit to_lower parse_host_port
    reg_name_not_pct_encoded user_info_not_pct_encoded ipv_future_last_part strip_prefix parse_uint
    validate_ipv6_address hexdig digit Str.find Str.byte_len slice_from slice_to starts_with
HostMixedCaseTest_holds = refl
