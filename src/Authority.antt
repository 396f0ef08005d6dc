-- ===== src/Authority.antt =====
-- src/authority.rs: the authority of a URI, its parser and its `Display`.
pub mod HostPort
pub mod Cut
pub mod Delimiters
pub mod RoundTrip
pub mod Stable
pub mod Grammar
pub mod Parsed
use uri.Prelude.{ℕ, ◌+◌, ◌++◌, [], ◌==◌, if◌then◌else◌, Bool, true, false, Option, none, some}
use uri.Text.{Text, Bytes, codes, lowercase}
use uri.Text.Numbers.{decimal}
use uri.Text.Str
use uri.Text.Str.{slice_from, slice_to}
use uri.Text.Utf8.{from_utf8}
use uri.Error.{Context, Error, Result, ok, err, panic, ◌>>=◌}
use uri.CharacterClasses.{user_info_not_pct_encoded, reg_name_not_pct_encoded}
use uri.Codec.{decode_element, encode_element}
use uri.ParseHostPort.{parse_host_port}
use uri.ValidateIpv6Address.{validate_ipv6_address}

pub record Authority : Type 0 where
  pub userinfo : Option Bytes
  pub host : Bytes
  pub port : Option ℕ

-- `Authority::default()`
abbrev pub default : Authority
default = record { userinfo = none; host = []; port = none }

unfoldable pub set_userinfo : Authority → Option Bytes → Authority
set_userinfo a userinfo = record a { userinfo = userinfo }

unfoldable pub set_host : Authority → Bytes → Authority
set_host a host = record a { host = host }

unfoldable pub set_port : Authority → Option ℕ → Authority
set_port a port = record a { port = port }

-- The userinfo in front of the first `@`, and the text behind it.
unfoldable pub parse_userinfo : Text → Result Error (Option Bytes × Text)
parse_userinfo authority = elim (Str.find (λ c. c == b'@') authority) [
  | some delimiter ↦ do
    text ← slice_to delimiter authority
    userinfo ← decode_element text user_info_not_pct_encoded Context.userinfo
    host_port_string ← slice_from (delimiter + 1) authority
    ok (some userinfo, host_port_string)
  | none ↦ ok (none, authority)
]

unfoldable pub parse : Text → Result Error Authority
unfolding parse_userinfo
parse s = do
  (userinfo, host_port_string) ← parse_userinfo s
  (host, port) ← parse_host_port host_port_string
  ok (record { userinfo = userinfo; host = host; port = port })

-- `is_ok()`
abbrev pub is_ok {ℓ κ} : {E : Type ℓ} {A : Type κ} → Result E A → Bool
is_ok (ok a) = true
is_ok (err e) = false
is_ok panic = false

-- The pieces that `fmt` writes.
unfoldable pub fmt_userinfo : Option Bytes → Text
fmt_userinfo none = []
fmt_userinfo (some userinfo) = encode_element userinfo user_info_not_pct_encoded ++ codes "@"

unfoldable pub fmt_host : Bytes → Text
fmt_host host = elim (from_utf8 host) [
  | some s ↦
      if is_ok (validate_ipv6_address s)
      then codes "[" ++ (lowercase s ++ codes "]")
      else encode_element host reg_name_not_pct_encoded
  | none ↦ encode_element host reg_name_not_pct_encoded
]

unfoldable pub fmt_port : Option ℕ → Text
fmt_port none = []
fmt_port (some port) = codes ":" ++ decimal port

unfoldable pub fmt : Authority → Text
unfolding fmt_userinfo fmt_host fmt_port
fmt a = fmt_userinfo a.userinfo ++ (fmt_host a.host ++ fmt_port a.port)
