-- ===== src/Tests/Divergences.antt =====
-- Runs in which the code differs from RFC 3986 or from what its comments say.
use uri.Text.Str.{slice_from, starts_with}
use uri.Text.Str
use uri.Text.Str.{slice_from, slice_to}
use uri.ValidateIpv4Address.{is_octet, validate_ipv4_address}
use uri.Text.Slices.{find}
use uri.ValidateIpv6Address.{validate_ipv6_address}
use uri.Text.Numbers.{to_hex_digit, parse_uint}
use uri.Prelude.{some, refl, [], ◌≡◌, ◌∷◌}
use uri.Text.{equal, to_lower, codes}
use uri.Text.Utf8.{from_utf8}
use uri.Uri.Path.{normalize_segment, normalize_path, is_path_absolute}
use uri.Uri.Resolve.{resolve}
use uri.CharacterClasses.{digit, hexdig, reg_name_not_pct_encoded, pchar_not_pct_encoded, alpha}
use uri.ParseHostPort.{parse_host_port}
use uri.Codec.{encode_element, decode_element}
use uri.PercentEncodedCharacterDecoder as Pec
use uri.Uri.Parse
use uri.Uri.Display
use uri.Error.{◌>>=◌, illegal_character, err, ok, Context}
use uri.Uri.Data.{default}
use uri.Authority
use uri.Authority.{fmt_host, Authority}

-- A truncated percent encoding at the end is dropped.
decode_element-truncated :
    decode_element (codes "a%4") pchar_not_pct_encoded Context.path ≡ ok (codes "a")
unfolding decode_element pchar_not_pct_encoded Pec.next to_hex_digit
decode_element-truncated = refl

-- A port with a sign is read.
parse_host_port_sign : parse_host_port (codes "a:+80") ≡ ok (codes "a", some 80)
unfolding parse_host_port reg_name_not_pct_encoded parse_uint to_lower starts_with slice_from
parse_host_port_sign = refl

-- A colon of the query ends a scheme where no slash stands in front of it.
parse-query_colon : Parse.parse (codes "?a:b") ≡ err (illegal_character Context.scheme)
unfolding Parse.parse alpha Parse.parse_scheme find Parse.check_scheme Str.find Str.byte_len
    slice_from slice_to
parse-query_colon = refl

-- A colon of the first segment is printed as it is.
fmt-colon : Display.fmt (record default { path = codes "a:b" ∷ [] }) ≡ codes "a:b"
unfolding Display.fmt encode_element pchar_not_pct_encoded is_path_absolute
fmt-colon = refl

-- An address of a future version is printed without brackets.
fmt-ipv_future : Authority.fmt (record Authority.default { host = codes "v7.a" }) ≡ codes "v7.a"
unfolding Authority.fmt encode_element from_utf8 reg_name_not_pct_encoded validate_ipv6_address
    hexdig slice_from
fmt-ipv_future = refl

-- An absolute reference keeps its dot segments.
resolve-absolute :
    (resolve
      (record default { path = [] ∷ codes "b" ∷ [] })
      (record default { path = [] ∷ codes ".." ∷ codes "g" ∷ [] })).path
    ≡ [] ∷ codes ".." ∷ codes "g" ∷ []
unfolding resolve is_path_absolute
resolve-absolute = refl

-- The single segment of a base path is kept.
resolve-single :
    (resolve
      (record default { path = codes "x" ∷ [] })
      (record default { path = codes "g" ∷ [] })).path
    ≡ codes "x" ∷ codes "g" ∷ []
unfolding resolve is_path_absolute normalize_path normalize_segment equal
resolve-single = refl

-- A registered name that spells an IPv6 address is printed as one.
fmt-decoded_name :
    (parse_host_port (codes "%3A%3A1") >>= λ (h, p). ok (fmt_host h)) ≡ ok (codes "[::1]")
unfolding parse_host_port reg_name_not_pct_encoded Pec.next to_hex_digit to_lower fmt_host from_utf8
    validate_ipv6_address hexdig slice_from starts_with
fmt-decoded_name = refl

-- An octet of an IPv4 address may have zeros in front.
validate_ipv4_address_zeros : validate_ipv4_address (codes "001.2.3.4") ≡ ok tt
unfolding validate_ipv4_address digit is_octet parse_uint
validate_ipv4_address_zeros = refl

-- Of two empty segments in a row one is dropped.
normalize_path_empty :
    normalize_path ([] ∷ codes "a" ∷ [] ∷ [] ∷ codes "b" ∷ [])
    ≡ [] ∷ codes "a" ∷ [] ∷ codes "b" ∷ []
unfolding normalize_path normalize_segment equal
normalize_path_empty = refl
