-- ===== src/Uri/Characters.antt =====
-- src/uri.rs: the characters that `Display` writes.
use uri.ValidateIpv6Address.{validate_ipv6_address}
use uri.Text.Utf8.{from_utf8}
use uri.Text.Numbers.Value.{decimal-IsDigits}
use uri.Uri.Pieces.{check_scheme-chars}
use uri.Uri.Path.{is_path_absolute}
use uri.Codec.Output.{encode_element-Avoids}
use uri.Error.{panic, err, ok, Error, Result}
use uri.Codec.RoundTrip.{IsByte}
use uri.Uri.Schemes.{IsOptionScheme}
use uri.Uri.Path.RoundTrip.{IsPathBytes}
use uri.Authority.RoundTrip.{IsOptionBytes}
use uri.ValidateIpv6Address.Characters.{validate_ipv6_address_chars}
use uri.ValidateIpv6Address.Loop.{IsIpv6Text}
use uri.CharacterClasses.Delimiters.{query-Subset, Subset}
use uri.Text.Slices.Laws.{Avoids}
use uri.Prelude.{
  suc, inr, inl, ◌==◌, length, Bool-cases, ◌+◌, ◌&&◌, ap, ltb, refl, [], true, none, if◌then◌else◌,
  ◌∷◌, some, arith, not, ◌||◌, ◌≡◌, All, All-append, Option, List, ℕ, within,
}
use uri.Uri.Parsed.{IsOptionAuthority, IsParsed}
use uri.Text.{codes, one_of, lowercase, Bytes, to_lower, Text}
use uri.Text.Numbers.{decimal, hex_digit}
use uri.CharacterClasses.{
  query_not_pct_encoded_without_plus, reg_name_not_pct_encoded, pchar_not_pct_encoded,
  scheme_not_first, CharSet, user_info_not_pct_encoded, query_or_fragment_not_pct_encoded,
}
use uri.Authority
use uri.Authority.{fmt_userinfo, fmt_port, fmt_host, Authority}
use uri.Uri.Data.{Uri}
use uri.Uri.Display.{
  fmt_segments, fmt_fragment, fmt_authority, fmt_scheme, fmt_path, fmt_query, fmt,
}
use uri.Codec.{encode_element}

-- `reserved / unreserved / "%"` of RFC 3986, 2.1 to 2.3.
abbrev pub uri_char : CharSet
uri_char c =
    within b'a' b'z' c
    || within b'A' b'Z' c
    || within b'0' b'9' c
    || one_of (codes "-._~:/?#[]@!$&'()*+,;=%") c

abbrev pub IsUriText : Text → Type 0
IsUriText = All (λ c. uri_char c ≡ true)

Avoids-IsUriText : (s : Text) → Avoids (λ c. not (uri_char c)) s → IsUriText s
Avoids-IsUriText [] h = tt
Avoids-IsUriText (c ∷ s) (h, hs) = (ground (arith, h), Avoids-IsUriText s hs)

All-IsUriText :
    (set : CharSet) → Subset set uri_char → (s : Text) → All (λ c. set c ≡ true) s → IsUriText s
All-IsUriText set sub [] h = tt
All-IsUriText set sub (c ∷ s) (h, hs) = (sub c h, All-IsUriText set sub s hs)

encode_element-IsUriText :
    (set : CharSet)
    → Subset set uri_char
    → (bs : Bytes) → All IsByte bs
    → IsUriText (encode_element bs set)
unfolding hex_digit
encode_element-IsUriText set sub bs h = Avoids-IsUriText (encode_element bs set) (
    encode_element-Avoids set (λ c. not (uri_char c)) (λ c e. ap not (sub c e)) refl
      (λ d lt. ground arith) bs h)

scheme-Subset : Subset scheme_not_first uri_char
unfolding scheme_not_first
scheme-Subset c h = ground arith

user_info-Subset : Subset user_info_not_pct_encoded uri_char
unfolding user_info_not_pct_encoded
user_info-Subset c h = ground arith

reg_name-Subset : Subset reg_name_not_pct_encoded uri_char
unfolding reg_name_not_pct_encoded
reg_name-Subset c h = ground arith

pchar-Subset : Subset pchar_not_pct_encoded uri_char
unfolding pchar_not_pct_encoded
pchar-Subset c h = ground arith

query_char-Subset : Subset query_or_fragment_not_pct_encoded uri_char
unfolding query_or_fragment_not_pct_encoded
query_char-Subset c h = ground arith

lowercase_ipv6-IsUriText : (s : Text) → IsIpv6Text s → IsUriText (lowercase s)
unfolding to_lower
lowercase_ipv6-IsUriText [] h = tt
lowercase_ipv6-IsUriText (c ∷ s) (h, hs) = (ground arith, lowercase_ipv6-IsUriText s hs)

fmt_host-IsUriText : (host : Bytes) → All IsByte host → IsUriText (fmt_host host)
unfolding fmt_host
fmt_host-IsUriText host h = decoded (from_utf8 host) refl
  where
    name : IsUriText (encode_element host reg_name_not_pct_encoded)
    name = encode_element-IsUriText reg_name_not_pct_encoded reg_name-Subset host h

    validated :
        (s : Text) (r : Result Error (Unit {0}))
        → from_utf8 host ≡ some s
        → validate_ipv6_address s ≡ r
        → IsUriText (fmt_host host)
    validated s (ok u) e v =
        rw (e, v, fmt_host)
          (
            refl,
            All-append _ (lowercase s) (codes "]")
                (lowercase_ipv6-IsUriText s (validate_ipv6_address_chars s v)) (refl, tt),
          )
    validated s (err x) e v = rw (e, v, fmt_host) name
    validated s panic e v = rw (e, v, fmt_host) name

    decoded : (r : Option Text) → from_utf8 host ≡ r → IsUriText (fmt_host host)
    decoded none e = rw (e, fmt_host) name
    decoded (some s) e = validated s (validate_ipv6_address s) e refl

fmt_port-IsUriText : (p : Option ℕ) → IsUriText (fmt_port p)
unfolding fmt_port
fmt_port-IsUriText none = tt
fmt_port-IsUriText (some n) =
    (refl, All-IsUriText (within b'0' b'9') (λ c h. ground arith) (decimal n) (decimal-IsDigits n))

fmt_userinfo-IsUriText : (u : Option Bytes) → IsOptionBytes u → IsUriText (fmt_userinfo u)
unfolding fmt_userinfo
fmt_userinfo-IsUriText none h = tt
fmt_userinfo-IsUriText (some u) h =
    All-append _ (encode_element u user_info_not_pct_encoded) (codes "@")
      (encode_element-IsUriText user_info_not_pct_encoded user_info-Subset u h) (refl, tt)

fmt_authority-IsUriText : (a : Option Authority) → IsOptionAuthority a → IsUriText (fmt_authority a)
unfolding fmt_authority Authority.fmt
fmt_authority-IsUriText none h = tt
fmt_authority-IsUriText (some a) h = (
  refl,
  (
    refl,
    All-append _ (fmt_userinfo a.userinfo) _ (fmt_userinfo-IsUriText a.userinfo h.userinfo_bytes) (
        All-append _ (fmt_host a.host) _ (fmt_host-IsUriText a.host h.host_bytes)
          (fmt_port-IsUriText a.port)),
  ),
)

fmt_segments-IsUriText :
    (n i : ℕ) (path : List Bytes) → IsPathBytes path → IsUriText (fmt_segments n i path)
unfolding fmt_segments
fmt_segments-IsUriText n i [] h = tt
fmt_segments-IsUriText n i (a ∷ path) (h, hs) =
    All-append _ (encode_element a pchar_not_pct_encoded) _
      (encode_element-IsUriText pchar_not_pct_encoded pchar-Subset a h)
      (All-append _ (if ltb (i + 1) n then codes "/" else []) _
        (elim (Bool-cases (ltb (i + 1) n)) [ inl e ↦ rw e (refl, tt) | inr e ↦ rw e tt ])
        (fmt_segments-IsUriText n (suc i) path hs))

fmt_path-IsUriText : (path : List Bytes) → IsPathBytes path → IsUriText (fmt_path path)
unfolding fmt_path
fmt_path-IsUriText path h =
    All-append _ (if is_path_absolute path && length path == 1 then codes "/" else []) _
      (elim (Bool-cases (is_path_absolute path && length path == 1)) [
        | inl e ↦ rw e (refl, tt)
        | inr e ↦ rw e tt
      ])
      (fmt_segments-IsUriText (length path) 0 path h)

fmt_query-IsUriText : (q : Option Bytes) → IsOptionBytes q → IsUriText (fmt_query q)
unfolding fmt_query
fmt_query-IsUriText none h = tt
fmt_query-IsUriText (some q) h = (
  refl,
  encode_element-IsUriText query_not_pct_encoded_without_plus
      (λ c e. query_char-Subset c (query-Subset c e)) q h,
)

fmt_fragment-IsUriText : (f : Option Bytes) → IsOptionBytes f → IsUriText (fmt_fragment f)
unfolding fmt_fragment
fmt_fragment-IsUriText none h = tt
fmt_fragment-IsUriText (some f) h =
    (refl, encode_element-IsUriText query_or_fragment_not_pct_encoded query_char-Subset f h)

fmt_scheme-IsUriText : (s : Option Text) → IsOptionScheme s → IsUriText (fmt_scheme s)
unfolding fmt_scheme
fmt_scheme-IsUriText none h = tt
fmt_scheme-IsUriText (some s) h =
    All-append _ s (codes ":")
      (All-IsUriText scheme_not_first scheme-Subset s (check_scheme-chars s h.legal)) (refl, tt)

-- A URI whose scheme is legal and whose other parts are bytes, as the parser returns it, prints as
-- letters, digits, the reserved and the other unreserved characters, and percent signs alone.
pub fmt-IsUriText : (u : Uri) → IsParsed u → IsUriText (fmt u)
unfolding fmt
fmt-IsUriText u h =
    All-append _ (fmt_scheme u.scheme) _ (fmt_scheme-IsUriText u.scheme h.legal_scheme) (
      All-append _ (fmt_authority u.authority) _
        (fmt_authority-IsUriText u.authority h.parsed_authority)
        (All-append _ (fmt_path u.path) _ (fmt_path-IsUriText u.path h.path_bytes) (
          All-append _ (fmt_query u.query) _ (fmt_query-IsUriText u.query h.query_bytes)
            (fmt_fragment-IsUriText u.fragment h.fragment_bytes))))
