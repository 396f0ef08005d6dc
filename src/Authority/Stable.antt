-- ===== src/Authority/Stable.antt =====
-- src/authority.rs: an authority that the parser returned, printed and parsed again.
use uri.Error.Ensures.{Ensures-ok}
use uri.Authority
use uri.Text.Utf8.Ascii.{from_utf8-IsAscii}
use uri.ValidateIpv6Address.Characters.{validate_ipv6_address_chars}
use uri.ValidateIpv6Address.{validate_ipv6_address}
use uri.Text.Utf8.{from_utf8}
use uri.Codec.RoundTrip.{IsByte}
use uri.Prelude.{Bool-cases, refl, inr, inl, Option-cases, true, ◌≡◌, All}
use uri.Error.{panic, err, ok, Error, Result}
use uri.Authority.{is_ok, Authority}
use uri.Text.{lowercase, Bytes, Text}
use uri.Authority.HostPort.{IsHost, ipv6_char-IsByte}
use uri.Authority.RoundTrip.{IsCanonical, parse_authority-fmt}
use uri.Authority.Parsed.{IsParsedAuthority, parse_authority-Ensures}

is_ok-eq : (r : Result Error (Unit {0})) → is_ok r ≡ true → r ≡ ok tt
is_ok-eq (ok u) h = refl
is_ok-eq (err e) h = cc
is_ok-eq panic h = cc

-- A host of bytes is a registered name or an IPv6 address, as `Display` tells them apart.
pub IsByte-IsHost : (host : Bytes) → All IsByte host → lowercase host ≡ host → IsHost host
IsByte-IsHost host bytes lower = elim (Option-cases (from_utf8 host)) [
  | inl e ↦ inl (record { bytes = bytes; lower = lower; not_address = λ s d. cc (e, d) })
  | inr (s, e) ↦ elim (Bool-cases (is_ok (validate_ipv6_address s))) [
    | inl v ↦
        let valid = is_ok-eq (validate_ipv6_address s) v in
        let (_, _, ascii) = ipv6_char-IsByte s (validate_ipv6_address_chars s valid) in
        let same = from_utf8-IsAscii host s e ascii in
        inr (record { lower = lower; valid = rw same valid })
    | inr v ↦ inl (record {
      bytes = bytes;
      lower = lower;
      not_address = λ t d. let same : t ≡ s = cc (e, d) in rw same v;
    })
  ]
]

pub IsParsedAuthority-IsCanonical :
    (a : Authority) → IsParsedAuthority a → lowercase a.host ≡ a.host → IsCanonical a
IsParsedAuthority-IsCanonical a h lower = record {
  userinfo_bytes = h.userinfo_bytes;
  canonical_host = IsByte-IsHost a.host h.host_bytes lower;
  u16_port = h.port_range;
}

-- An authority that the parser returns, and whose host has no upper-case letter, is what its print is
-- parsed to.
pub parse_authority-fmt-parse :
    (s : Text) (a : Authority)
    → Authority.parse s ≡ ok a
    → lowercase a.host ≡ a.host
    → Authority.parse (Authority.fmt a) ≡ ok a
parse_authority-fmt-parse s a h lower =
    let parsed = Ensures-ok IsParsedAuthority (Authority.parse s) a (parse_authority-Ensures s) h in
    parse_authority-fmt a (IsParsedAuthority-IsCanonical a parsed lower)
