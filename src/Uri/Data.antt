-- ===== src/Uri/Data.antt =====
-- src/uri.rs: the `Uri` type, its accessors, setters and takers, and the conversions to strings.
use uri.Prelude.{ℕ, Option, none, some, Bool, true, false, List, []}
use uri.Text.{Text, Bytes}
use uri.Text.Utf8.{from_utf8}
use uri.Error.{Error, cannot_express_as_utf8, Result, ok, err, ◌>>=◌}
use uri.Authority.{Authority}

pub record Uri : Type 0 where
  pub scheme : Option Text
  pub authority : Option Authority
  pub path : List Bytes
  pub query : Option Bytes
  pub fragment : Option Bytes

-- `Uri::default()`
abbrev pub default : Uri
default = record { scheme = none; authority = none; path = []; query = none; fragment = none }

-- `String::from_utf8(…).map_err(Into::into)`
unfoldable pub to_string : Bytes → Result Error Text
to_string bytes = elim (from_utf8 bytes) [
  | some s ↦ ok s
  | none ↦ err (cannot_express_as_utf8 bytes)
]

-- `.map(…).transpose()`
unfoldable pub option_to_string : Option Bytes → Result Error (Option Text)
unfolding to_string
option_to_string none = ok none
option_to_string (some bytes) = do s ← to_string bytes; ok (some s)

abbrev pub host : Uri → Option Bytes
host u = elim u.authority [ none ↦ none | some a ↦ some a.host ]

abbrev pub port : Uri → Option ℕ
port u = elim u.authority [ none ↦ none | some a ↦ a.port ]

abbrev pub userinfo : Uri → Option Bytes
userinfo u = elim u.authority [ none ↦ none | some a ↦ a.userinfo ]

unfoldable pub host_to_string : Uri → Result Error (Option Text)
unfolding option_to_string
host_to_string u = option_to_string (host u)

unfoldable pub userinfo_to_string : Uri → Result Error (Option Text)
unfolding option_to_string
userinfo_to_string u = option_to_string (userinfo u)

unfoldable pub query_to_string : Uri → Result Error (Option Text)
unfolding option_to_string
query_to_string u = option_to_string u.query

unfoldable pub fragment_to_string : Uri → Result Error (Option Text)
unfolding option_to_string
fragment_to_string u = option_to_string u.fragment

unfoldable pub is_relative_reference : Uri → Bool
is_relative_reference u = elim u.scheme [ none ↦ true | some _ ↦ false ]

unfoldable pub set_authority : Uri → Option Authority → Uri
set_authority u authority = record u { authority = authority }

unfoldable pub set_fragment : Uri → Option Bytes → Uri
set_fragment u fragment = record u { fragment = fragment }

unfoldable pub set_path : Uri → List Bytes → Uri
set_path u path = record u { path = path }

unfoldable pub set_query : Uri → Option Bytes → Uri
set_query u query = record u { query = query }

-- A taker returns what it leaves and the part that it removes.
unfoldable pub take_authority : Uri → Uri × Option Authority
take_authority u = (record u { authority = none }, u.authority)

unfoldable pub take_fragment : Uri → Uri × Option Bytes
take_fragment u = (record u { fragment = none }, u.fragment)

unfoldable pub take_query : Uri → Uri × Option Bytes
take_query u = (record u { query = none }, u.query)

unfoldable pub take_scheme : Uri → Uri × Option Text
take_scheme u = (record u { scheme = none }, u.scheme)
