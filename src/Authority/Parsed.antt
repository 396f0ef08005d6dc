-- ===== src/Authority/Parsed.antt =====
-- src/authority.rs: what `Authority::parse` returns, whatever it is given.
use uri.Authority.Cut.{parse_userinfo-cut_userinfo, cut_userinfo}
use uri.Authority.RoundTrip.{IsOptionBytes}
use uri.Codec.Decoded.{decode_element-Ensures}
use uri.CharacterClasses.{user_info_not_pct_encoded}
use uri.Codec.{decode_element}
use uri.ParseHostPort.{parse_host_port}
use uri.ParseHostPort.Parsed.{parse_host_port-Ensures, IsParsedHostPort}
use uri.ParseHostPort.Ports.{IsPort}
use uri.Text.Slices.{find}
use uri.Codec.RoundTrip.{IsByte}
use uri.Error.Ensures.{bind-Ensures, Ensures}
use uri.Prelude.{refl, ◌≡◌, ℕ, suc, drop, take, none, ◌==◌, some, Option, All}
use uri.Text.{Bytes, Text}
use uri.Error.{ok, Context}
use uri.Authority.{parse_userinfo, parse, Authority}

-- All parts are bytes, and the port has 16 bits.
pub record IsParsedAuthority (a : Authority) : Type 0 where
  pub userinfo_bytes : IsOptionBytes a.userinfo
  pub host_bytes : All IsByte a.host
  pub port_range : IsPort a.port

abbrev IsSplit : Option Bytes × Text → Type 0
IsSplit (userinfo, rest) = IsOptionBytes userinfo

parse_userinfo-Ensures : (s : Text) → Ensures IsSplit (parse_userinfo s)
unfolding cut_userinfo
parse_userinfo-Ensures s = rw (parse_userinfo-cut_userinfo s) (go (find (λ c. c == b'@') s) refl)
  where
    go : (r : Option ℕ) → find (λ c. c == b'@') s ≡ r → Ensures IsSplit (cut_userinfo s)
    go (some n) e =
        rw (e, cut_userinfo)
          (bind-Ensures (All IsByte) IsSplit
            (decode_element (take n s) user_info_not_pct_encoded Context.userinfo)
            (λ bs. ok (some bs, drop (suc n) s))
            (decode_element-Ensures (take n s) user_info_not_pct_encoded Context.userinfo)
            (λ bs h. h))
    go none e = rw (e, cut_userinfo) tt

-- Any text is refused or gives an authority with these parts. Nothing panics.
pub parse_authority-Ensures : (s : Text) → Ensures IsParsedAuthority (parse s)
unfolding parse
parse_authority-Ensures s =
    bind-Ensures IsSplit IsParsedAuthority (parse_userinfo s) _ (parse_userinfo-Ensures s)
      (λ (userinfo, rest) hu.
        bind-Ensures IsParsedHostPort IsParsedAuthority (parse_host_port rest) _
          (parse_host_port-Ensures rest)
          (λ (host, p) (hh, hp). record { userinfo_bytes = hu; host_bytes = hh; port_range = hp }))
