-- ===== src/Authority/HostPort.antt =====
-- Parsing what `Display` writes for a host and a port.
use uri.Text.Slices.Laws.{Avoids}
use uri.Text.Utf8.Ascii.{IsAscii, from_utf8-ascii}
use uri.ValidateIpv6Address.Characters.{validate_ipv6_address_chars}
use uri.ValidateIpv6Address.Loop.{IsIpv6Text}
use uri.CharacterClasses.Delimiters.{reg_name-bracket}
use uri.CharacterClasses.{eq-false, reg_name_not_pct_encoded}
use uri.ParseHostPort.Ports.{IsPort, runs_colon, runs_end}
use uri.Codec.{encode_byte, encode_element}
use uri.Text.Utf8.{from_utf8}
use uri.Error.{ok}
use uri.Codec.RoundTrip.{IsByte}
use uri.ValidateIpv6Address.{validate_ipv6_address}
use uri.Text.{Text, lowercase, Bytes}
use uri.Prelude.{
  ap, arith, ◌==◌, ◌∙◌, true, append_assoc, Option-cases, inr, inl, Bool-cases, ◌∷◌, ◌++◌, refl,
  false, none, some, ℕ, [], ◌⊎◌, All, Option, ◌≡◌,
}
use uri.ParseHostPort.{
  Shared, not_ip_literal, garbage_check, new, finalize_host, initial, parse_host_port,
  ipv6_address_state,
}
use uri.ParseHostPort.Steps.{
  next_close, new_bracket, runs-ipv6_text, runs-encode_element, new-NoBracket, runs, NoBracket,
}
use uri.Authority.{fmt_host, fmt_port, is_ok}

-- A host that is printed as a registered name.
pub record IsRegName (host : Bytes) : Type 0 where
  pub bytes : All IsByte host
  pub lower : lowercase host ≡ host
  pub not_address : (s : Text) → from_utf8 host ≡ some s → is_ok (validate_ipv6_address s) ≡ false

-- A host that is an IPv6 address in lower case.
pub record IsIpv6Host (host : Bytes) : Type 0 where
  pub lower : lowercase host ≡ host
  pub valid : validate_ipv6_address host ≡ ok tt

abbrev pub IsHost : Bytes → Type 0
IsHost host = IsRegName host ⊎ IsIpv6Host host

-- The end of a host, with a port behind it or none.
module _ (sh : Shared) (empty_port : sh.port_string ≡ []) where
  runs-not_ip_literal-fmt_port :
      (p : Option ℕ) → IsPort p → runs (not_ip_literal sh) (fmt_port p) ≡ ok (finalize_host sh, p)
  unfolding fmt_port
  runs-not_ip_literal-fmt_port none h = (runs_end sh empty_port).0
  runs-not_ip_literal-fmt_port (some n) h = (runs_colon sh empty_port n h).0

  runs-garbage_check-fmt_port :
      (p : Option ℕ) → IsPort p → runs (garbage_check sh) (fmt_port p) ≡ ok (finalize_host sh, p)
  unfolding fmt_port
  runs-garbage_check-fmt_port none h = (runs_end sh empty_port).1
  runs-garbage_check-fmt_port (some n) h = (runs_colon sh empty_port n h).1

NoBracket-append :
    (bs : Bytes) (s : Text)
    → NoBracket s
    → NoBracket (encode_element bs reg_name_not_pct_encoded ++ s)
unfolding encode_element encode_byte
NoBracket-append [] s h = h
NoBracket-append (b ∷ bs) s h = elim (Bool-cases (reg_name_not_pct_encoded b)) [
  | inl e ↦ rw e (eq-false reg_name_not_pct_encoded b'[' reg_name-bracket b e)
  | inr e ↦ rw e refl
]

fmt_port-NoBracket : (p : Option ℕ) → NoBracket (fmt_port p)
unfolding fmt_port
fmt_port-NoBracket none = tt
fmt_port-NoBracket (some n) = refl

parse_host_port-reg_name :
    (host : Bytes) (p : Option ℕ)
    → All IsByte host
    → lowercase host ≡ host
    → IsPort p
    → parse_host_port (encode_element host reg_name_not_pct_encoded ++ fmt_port p) ≡ ok (host, p)
unfolding parse_host_port
parse_host_port-reg_name host p b l h =
    rw (new-NoBracket _ (NoBracket-append host (fmt_port p) (fmt_port-NoBracket p))) (
      runs-encode_element host (record initial { host_is_reg_name = true }) (fmt_port p) b refl
      ∙ runs-not_ip_literal-fmt_port (record initial { host_is_reg_name = true; host = host }) refl
          p h
      ∙ ap (λ (x : Bytes). ok (x, p)) l)

pub ipv6_char-IsByte :
    (s : Text) → IsIpv6Text s → All IsByte s × Avoids (λ c. c == b']') s × IsAscii s
ipv6_char-IsByte [] _ = (tt, tt, tt)
ipv6_char-IsByte (c ∷ s) (h, hs) =
    let (b, a, l) = ipv6_char-IsByte s hs in
    ((ground arith, b), (ground arith, a), (ground arith, l))

pub new_ipv6 :
    (s rest : Text)
    → IsIpv6Text s
    → new (b'[' ∷ (s ++ b']' ∷ rest)) ≡ ok (ipv6_address_state initial, s ++ b']' ∷ rest)
new_ipv6 [] rest h = new_bracket b']' rest refl
new_ipv6 (c ∷ s) rest (h, _) = new_bracket c (s ++ b']' ∷ rest) (ground arith)

parse_host_port-ipv6 :
    (host : Bytes) (p : Option ℕ)
    → validate_ipv6_address host ≡ ok tt
    → IsPort p
    → parse_host_port (b'[' ∷ (host ++ b']' ∷ fmt_port p)) ≡ ok (host, p)
unfolding parse_host_port
parse_host_port-ipv6 host p v h =
    let chars = validate_ipv6_address_chars host v in
    let (bytes, lacks, _) = ipv6_char-IsByte host chars in
    rw (new_ipv6 host (fmt_port p) chars) (
      runs-ipv6_text host initial (b']' ∷ fmt_port p) lacks
      ∙ rw (next_close (record initial { ipv6_address = host }) v bytes) (
          runs-garbage_check-fmt_port (record initial { ipv6_address = host; host = host }) refl p
            h))

-- The printed host, and what it is not made of.
pub fmt_host-IsRegName :
    (host : Bytes) → IsRegName host → fmt_host host ≡ encode_element host reg_name_not_pct_encoded
unfolding fmt_host
fmt_host-IsRegName host r = elim (Option-cases (from_utf8 host)) [
  | inl e ↦ ground (arith, e)
  | inr (s, e) ↦ ground (arith, e, r.not_address s e)
]

pub fmt_host-IsIpv6Host :
    (host : Bytes) → IsIpv6Host host → fmt_host host ≡ b'[' ∷ (host ++ b']' ∷ [])
unfolding fmt_host
fmt_host-IsIpv6Host host i =
    let (_, _, ascii) = ipv6_char-IsByte host (validate_ipv6_address_chars host i.valid) in
    rw (fmt_host, from_utf8-ascii host ascii, i.valid, i.lower)

-- A host and a port are read back from their print.
pub parse_host_port-fmt :
    (host : Bytes) (p : Option ℕ)
    → IsHost host
    → IsPort p
    → parse_host_port (fmt_host host ++ fmt_port p) ≡ ok (host, p)
parse_host_port-fmt host p (inl r) h =
    rw (fmt_host-IsRegName host r) (parse_host_port-reg_name host p r.bytes r.lower h)
parse_host_port-fmt host p (inr i) h =
    rw (fmt_host-IsIpv6Host host i, append_assoc) (parse_host_port-ipv6 host p i.valid h)
