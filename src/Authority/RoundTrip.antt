-- ===== src/Authority/RoundTrip.antt =====
-- Parsing what `Display` writes for an authority.
use uri.Authority.Cut.{parse_userinfo-cut_userinfo, cut_userinfo}
use uri.ParseHostPort.Ports.{IsPort}
use uri.Text.Slices.{find}
use uri.CharacterClasses.Delimiters.{user_info-Excludes, user_info-at}
use uri.CharacterClasses.{user_info_not_pct_encoded}
use uri.Codec.{encode_element}
use uri.Codec.RoundTrip.{decode_element-encode_element, IsByte}
use uri.Text.Slices.Laws.{find-append, find-eq-none, Avoids}
use uri.Authority.Delimiters.{IsDelimiter, userinfo-Avoids, at-IsDelimiter, host_port-Avoids}
use uri.Error.{Context, ok}
use uri.Text.{codes, Text, Bytes}
use uri.Prelude.{
  All-append, false, ℕ, drop-suc-length, take-length, refl, append_assoc, length, ◌∷◌, ◌++◌, none,
  ◌==◌, All, some, Option, ◌≡◌,
}
use uri.Text.Slices.{find}
use uri.Authority.{fmt_port, fmt_host, Authority, fmt_userinfo, fmt, parse, parse_userinfo}
use uri.Authority.HostPort.{IsHost, parse_host_port-fmt}

-- Bytes, if it is there.
abbrev pub IsOptionBytes : Option Bytes → Type 0
IsOptionBytes none = Unit
IsOptionBytes (some bs) = All IsByte bs

-- The authorities that are in the form in which the parser leaves them.
pub record IsCanonical (a : Authority) : Type 0 where
  pub userinfo_bytes : IsOptionBytes a.userinfo
  pub canonical_host : IsHost a.host
  pub u16_port : IsPort a.port

parse_userinfo-fmt_userinfo :
    (u : Option Bytes) (rest : Text)
    → IsOptionBytes u
    → Avoids (λ c. c == b'@') rest
    → parse_userinfo (fmt_userinfo u ++ rest) ≡ ok (u, rest)
unfolding cut_userinfo fmt_userinfo
parse_userinfo-fmt_userinfo none rest _ h =
    rw (parse_userinfo-cut_userinfo, cut_userinfo, find-eq-none (λ c. c == b'@') rest h)
parse_userinfo-fmt_userinfo (some u) rest b h =
    let text = encode_element u user_info_not_pct_encoded in
    let lacks = userinfo-Avoids b'@' at-IsDelimiter u user_info-at b in
    let at : find (λ c. c == b'@') (text ++ b'@' ∷ rest) ≡ some (length text) =
      find-append (λ c. c == b'@') text rest b'@' lacks refl in
    let round =
      decode_element-encode_element user_info_not_pct_encoded user_info_not_pct_encoded
        Context.userinfo (λ c e. e) user_info-Excludes.percent u b in
    rw (
      append_assoc,
      parse_userinfo-cut_userinfo,
      cut_userinfo,
      at,
      take-length text (b'@' ∷ rest),
      drop-suc-length text rest b'@',
      round,
    )

-- An authority is read back from its print.
pub parse_authority-fmt : (a : Authority) → IsCanonical a → parse (fmt a) ≡ ok a
unfolding parse fmt
parse_authority-fmt a h =
    rw
      (parse_userinfo-fmt_userinfo a.userinfo _ h.userinfo_bytes
        (host_port-Avoids b'@' at-IsDelimiter a.host a.port h.canonical_host))
      (rw (parse_host_port-fmt a.host a.port h.canonical_host h.u16_port))

fmt_userinfo-Avoids :
    (d : ℕ) (u : Option Bytes)
    → IsDelimiter d
    → user_info_not_pct_encoded d ≡ false
    → (b'@' == d) ≡ false
    → IsOptionBytes u
    → Avoids (λ c. c == d) (fmt_userinfo u)
unfolding fmt_userinfo
fmt_userinfo-Avoids d none out user at h = tt
fmt_userinfo-Avoids d (some u) out user at h =
    All-append _ (encode_element u user_info_not_pct_encoded) (codes "@")
      (userinfo-Avoids d out u user h) (at, tt)

-- A printed authority does not hold the characters that end it.
pub fmt-Avoids :
    (d : ℕ) (a : Authority)
    → IsDelimiter d
    → user_info_not_pct_encoded d ≡ false
    → (b'@' == d) ≡ false
    → IsCanonical a
    → Avoids (λ c. c == d) (fmt a)
unfolding fmt
fmt-Avoids d a out user at h =
    All-append _ (fmt_userinfo a.userinfo) (fmt_host a.host ++ fmt_port a.port)
      (fmt_userinfo-Avoids d a.userinfo out user at h.userinfo_bytes)
      (host_port-Avoids d out a.host a.port h.canonical_host)
