-- ===== src/Tests/Source/Resolving.antt =====
-- src/uri.rs: the unit tests of the normalization and the resolution.
use uri.Text.Str
use uri.Text.Str.{slice_from, slice_to, starts_with}
use uri.Text.Utf8.{from_utf8}
use uri.ValidateIpv6Address.{validate_ipv6_address}
use uri.ParseHostPort.{parse_host_port}
use uri.Text.Numbers.{parse_uint, to_hex_digit}
use uri.Codec.{decode_element}
use uri.Uri.Resolve.{resolve}
use uri.Uri.Path.{
  join, is_path_absolute, can_navigate_path_up_one_level, close_path, normalize_segments,
  normalize_segment, normalize_path, normalize, path_to_string,
}
use uri.CharacterClasses.{
  digit, hexdig, ipv_future_last_part, user_info_not_pct_encoded, reg_name_not_pct_encoded,
  query_or_fragment_not_pct_encoded, pchar_not_pct_encoded, scheme_not_first, alpha,
}
use uri.Authority.{is_ok}
use uri.Error.{ok, Error, Result, ◌>>=◌}
use uri.Text.{equal, to_lower, codes, Text}
use uri.Text.Slices.{strip_prefix, split, find}
use uri.Tests.Source.{Returns, AllEqual}
use uri.PercentEncodedCharacterDecoder as Pec
use uri.Uri.Parse
use uri.Authority
use uri.Uri.Data.{Uri}
use uri.Prelude.{length, ap, refl, [], true, ◌∷◌, ◌≡◌, List, ◌≢◌, arith}

-- Both texts are parsed, and the second is resolved against the first.
abbrev resolved : Text → Text → Result Error Uri
resolved base reference = do b ← Parse.parse base; r ← Parse.parse reference; ok (resolve b r)

abbrev NormalizePathTest : Type 0
NormalizePathTest =
    AllEqual (λ (r : Text × Text). (Parse.parse r.0 >>= λ u. path_to_string (normalize u)))
      (λ (r : Text × Text). ok r.1)
      ((codes "/a/b/c/./../../g", codes "/a/g")
        ∷ (codes "mid/content=5/../6", codes "mid/6")
        ∷ (codes "http://example.com/a/../b", codes "/b")
        ∷ (codes "http://example.com/../b", codes "/b")
        ∷ (codes "http://example.com/a/../b/", codes "/b/")
        ∷ (codes "http://example.com/a/../../b", codes "/b")
        ∷ (codes "./a/b", codes "a/b")
        ∷ ([], [])
        ∷ (codes ".", [])
        ∷ (codes "./", [])
        ∷ (codes "..", [])
        ∷ (codes "../", [])
        ∷ (codes "/", codes "/")
        ∷ (codes "a/b/..", codes "a/")
        ∷ (codes "a/b/../", codes "a/")
        ∷ (codes "a/b/.", codes "a/b/")
        ∷ (codes "a/b/./", codes "a/b/")
        ∷ (codes "a/b/./c", codes "a/b/c")
        ∷ (codes "a/b/./c/", codes "a/b/c/")
        ∷ (codes "/a/b/..", codes "/a/")
        ∷ (codes "/a/b/.", codes "/a/b/")
        ∷ (codes "/a/b/./c", codes "/a/b/c")
        ∷ (codes "/a/b/./c/", codes "/a/b/c/")
        ∷ (codes "./a/b/..", codes "a/")
        ∷ (codes "./a/b/.", codes "a/b/")
        ∷ (codes "./a/b/./c", codes "a/b/c")
        ∷ (codes "./a/b/./c/", codes "a/b/c/")
        ∷ (codes "../a/b/..", codes "a/")
        ∷ (codes "../a/b/.", codes "a/b/")
        ∷ (codes "../a/b/./c", codes "a/b/c")
        ∷ (codes "../a/b/./c/", codes "a/b/c/")
        ∷ (codes "../a/b/../c", codes "a/c")
        ∷ (codes "../a/b/./../c/", codes "a/c/")
        ∷ (codes "../a/b/./../c", codes "a/c")
        ∷ (codes "../a/b/./../c/", codes "a/c/")
        ∷ (codes "../a/b/.././c/", codes "a/c/")
        ∷ (codes "../a/b/.././c", codes "a/c")
        ∷ (codes "../a/b/.././c/", codes "a/c/")
        ∷ (codes "/./c/d", codes "/c/d")
        ∷ (codes "/../c/d", codes "/c/d")
        ∷ [])

NormalizePathTest_holds : NormalizePathTest
unfolding Parse.parse Parse.parse_scheme Parse.check_scheme
    Parse.split_authority_from_path_and_parse_them Parse.parse_path Parse.parse_fragment
    Parse.parse_query find alpha scheme_not_first pchar_not_pct_encoded
    query_or_fragment_not_pct_encoded decode_element Pec.next to_hex_digit to_lower Authority.parse
    parse_host_port reg_name_not_pct_encoded user_info_not_pct_encoded ipv_future_last_part equal
    split strip_prefix parse_uint validate_ipv6_address hexdig digit from_utf8 normalize
    normalize_path normalize_segment normalize_segments close_path can_navigate_path_up_one_level
    is_path_absolute path_to_string join Str.find Str.byte_len slice_from slice_to starts_with
NormalizePathTest_holds = refl

abbrev ConstructNormalizeAndCompareEquivalentUrisTest : Type 0
ConstructNormalizeAndCompareEquivalentUrisTest =
    Returns
      (λ u.
        Returns (λ v. (u ≢ v) × (u ≡ normalize v))
          (Parse.parse (codes "eXAMPLE://a/./b/../b/%63/%7bfoo%7d")))
      (Parse.parse (codes "example://a/b/c/%7Bfoo%7D"))

ConstructNormalizeAndCompareEquivalentUrisTest_holds :
    ConstructNormalizeAndCompareEquivalentUrisTest
unfolding Parse.parse Parse.parse_scheme Parse.check_scheme
    Parse.split_authority_from_path_and_parse_them Parse.parse_path Parse.parse_fragment
    Parse.parse_query find alpha scheme_not_first pchar_not_pct_encoded
    query_or_fragment_not_pct_encoded decode_element Pec.next to_hex_digit to_lower Authority.parse
    parse_host_port reg_name_not_pct_encoded user_info_not_pct_encoded ipv_future_last_part equal
    split strip_prefix parse_uint validate_ipv6_address hexdig digit from_utf8 normalize
    normalize_path normalize_segment normalize_segments close_path can_navigate_path_up_one_level
    is_path_absolute path_to_string join Str.find Str.byte_len slice_from slice_to starts_with
ConstructNormalizeAndCompareEquivalentUrisTest_holds =
    (λ e. let lengths : 4 ≡ 7 = ap (λ (w : Uri). length w.path) e in omega (arith, lengths), refl)

abbrev reference_vectors : List (Text × Text × Text)
reference_vectors =
    (codes "http://a/b/c/d;p?q", codes "g:h", codes "g:h")
    ∷ (codes "http://a/b/c/d;p?q", codes "g", codes "http://a/b/c/g")
    ∷ (codes "http://a/b/c/d;p?q", codes "./g", codes "http://a/b/c/g")
    ∷ (codes "http://a/b/c/d;p?q", codes "g/", codes "http://a/b/c/g/")
    ∷ (codes "http://a/b/c/d;p?q", codes "//g", codes "http://g")
    ∷ (codes "http://a/b/c/d;p?q", codes "?y", codes "http://a/b/c/d;p?y")
    ∷ (codes "http://a/b/c/d;p?q", codes "g?y", codes "http://a/b/c/g?y")
    ∷ (codes "http://a/b/c/d;p?q", codes "#s", codes "http://a/b/c/d;p?q#s")
    ∷ (codes "http://a/b/c/d;p?q", codes "g#s", codes "http://a/b/c/g#s")
    ∷ (codes "http://a/b/c/d;p?q", codes "g?y#s", codes "http://a/b/c/g?y#s")
    ∷ (codes "http://a/b/c/d;p?q", codes ";x", codes "http://a/b/c/;x")
    ∷ (codes "http://a/b/c/d;p?q", codes "g;x", codes "http://a/b/c/g;x")
    ∷ (codes "http://a/b/c/d;p?q", codes "g;x?y#s", codes "http://a/b/c/g;x?y#s")
    ∷ (codes "http://a/b/c/d;p?q", [], codes "http://a/b/c/d;p?q")
    ∷ (codes "http://a/b/c/d;p?q", codes ".", codes "http://a/b/c/")
    ∷ (codes "http://a/b/c/d;p?q", codes "./", codes "http://a/b/c/")
    ∷ (codes "http://a/b/c/d;p?q", codes "..", codes "http://a/b/")
    ∷ (codes "http://a/b/c/d;p?q", codes "../", codes "http://a/b/")
    ∷ (codes "http://a/b/c/d;p?q", codes "../g", codes "http://a/b/g")
    ∷ (codes "http://a/b/c/d;p?q", codes "../..", codes "http://a")
    ∷ (codes "http://a/b/c/d;p?q", codes "../../", codes "http://a")
    ∷ (codes "http://a/b/c/d;p?q", codes "../../g", codes "http://a/g")
    ∷ (codes "http://example.com", codes "foo", codes "http://example.com/foo")
    ∷ (codes "http://example.com/", codes "foo", codes "http://example.com/foo")
    ∷ (codes "http://example.com", codes "foo/", codes "http://example.com/foo/")
    ∷ (codes "http://example.com/", codes "foo/", codes "http://example.com/foo/")
    ∷ (codes "http://example.com", codes "/foo", codes "http://example.com/foo")
    ∷ (codes "http://example.com/", codes "/foo", codes "http://example.com/foo")
    ∷ (codes "http://example.com", codes "/foo/", codes "http://example.com/foo/")
    ∷ (codes "http://example.com/", codes "/foo/", codes "http://example.com/foo/")
    ∷ (codes "http://example.com/", codes "?foo", codes "http://example.com/?foo")
    ∷ (codes "http://example.com/", codes "#foo", codes "http://example.com/#foo")
    ∷ []

abbrev ReferenceResolutionTest : Type 0
ReferenceResolutionTest =
    AllEqual (λ (r : Text × Text × Text). resolved r.0 r.1)
      (λ (r : Text × Text × Text). Parse.parse r.2) reference_vectors
    × AllEqual (λ (r : Text × Text × Text). is_ok (Parse.parse r.2))
        (λ (r : Text × Text × Text). true) reference_vectors

ReferenceResolutionTest_holds : ReferenceResolutionTest
unfolding Parse.parse Parse.parse_scheme Parse.check_scheme
    Parse.split_authority_from_path_and_parse_them Parse.parse_path Parse.parse_fragment
    Parse.parse_query find alpha scheme_not_first pchar_not_pct_encoded
    query_or_fragment_not_pct_encoded decode_element Pec.next to_hex_digit to_lower Authority.parse
    parse_host_port reg_name_not_pct_encoded user_info_not_pct_encoded ipv_future_last_part equal
    split strip_prefix parse_uint validate_ipv6_address hexdig digit from_utf8 normalize
    normalize_path normalize_segment normalize_segments close_path can_navigate_path_up_one_level
    is_path_absolute path_to_string join resolve Str.find Str.byte_len slice_from slice_to
    starts_with
ReferenceResolutionTest_holds = (refl, refl)

abbrev EmptyPathInUriWithAuthorityIsEquivalentToSlashOnlyPathTest : Type 0
EmptyPathInUriWithAuthorityIsEquivalentToSlashOnlyPathTest =
    (Parse.parse (codes "http://example.com") ≡ Parse.parse (codes "http://example.com/"))
    × (Parse.parse (codes "//example.com") ≡ Parse.parse (codes "//example.com/"))

EmptyPathInUriWithAuthorityIsEquivalentToSlashOnlyPathTest_holds :
    EmptyPathInUriWithAuthorityIsEquivalentToSlashOnlyPathTest
unfolding Parse.parse Parse.parse_scheme Parse.check_scheme
    Parse.split_authority_from_path_and_parse_them Parse.parse_path Parse.parse_fragment
    Parse.parse_query find alpha scheme_not_first pchar_not_pct_encoded
    query_or_fragment_not_pct_encoded decode_element Pec.next to_hex_digit to_lower Authority.parse
    parse_host_port reg_name_not_pct_encoded user_info_not_pct_encoded ipv_future_last_part equal
    split strip_prefix parse_uint validate_ipv6_address hexdig digit Str.find Str.byte_len
    slice_from slice_to starts_with
EmptyPathInUriWithAuthorityIsEquivalentToSlashOnlyPathTest_holds = (refl, refl)
