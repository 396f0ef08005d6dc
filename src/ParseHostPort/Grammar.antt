-- ===== src/ParseHostPort/Grammar.antt =====
-- The grammar of `host [ ":" port ]` (RFC 3986, 3.2.2 and 3.2.3), and the host and the port that a text
-- stands for.
use uri.ValidateIpv6Address.Grammar.{IsIpv6Address}
use uri.Text.Numbers.{parsed, u16_max, parse_uint}
use uri.CharacterClasses.{ipv_future_last_part, hexdig, reg_name_not_pct_encoded}
use uri.Prelude.{some, ◌+◌, ◌*◌, All, ◌∷◌, ◌⊎◌, true, ◌++◌, none, [], ◌≡◌, ℕ, Option}
use uri.Text.{lowercase, Bytes, Text}
use uri.Codec.Grammar.{IsHexDigit}

-- A port that is left out is none; a port is a number that fits in 16 bits.
abbrev pub IsPortText : Text → Option ℕ → Type 0
IsPortText t p =
    ((t ≡ []) × (p ≡ none)) ⊎ ((n : ℕ) × (parse_uint u16_max t ≡ parsed n) × (p ≡ some n))

-- What may stand behind a host.
abbrev pub IsPortPart : Text → Option ℕ → Type 0
IsPortPart s p = ((s ≡ []) × (p ≡ none)) ⊎ ((t : Text) × (s ≡ b':' ∷ t) × IsPortText t p)

-- A registered name, decoded, and the port behind it.
pub data RegName : Text → Bytes → Option ℕ → Type 0 where
  end : {s : Text} {p : Option ℕ} → IsPortPart s p → RegName s [] p
  plain :
      {c : ℕ} {s : Text} {bs : Bytes} {p : Option ℕ}
      → reg_name_not_pct_encoded c ≡ true
      → RegName s bs p
      → RegName (c ∷ s) (c ∷ bs) p
  encoded :
      {q c d b : ℕ} {s : Text} {bs : Bytes} {p : Option ℕ} (x y : ℕ)
      → q ≡ b'%'
      → IsHexDigit c x
      → IsHexDigit d y
      → b ≡ x * 16 + y
      → RegName s bs p
      → RegName (q ∷ c ∷ d ∷ s) (b ∷ bs) p

-- An IPv6 address in front of its closing bracket, and the port behind it.
pub record Ipv6Literal (s : Text) (host : Bytes) (p : Option ℕ) : Type 0 where
  pub rest : Text
  pub spells : s ≡ host ++ (b']' ∷ rest)
  pub address : IsIpv6Address host
  pub port_part : IsPortPart rest p

-- The version of an address of the future, the dot, its characters and the closing bracket.
pub record FutureLiteral (s : Text) (host : Bytes) (p : Option ℕ) : Type 0 where
  pub version : Text
  pub body : Text
  pub rest : Text
  pub spells : s ≡ version ++ (b'.' ∷ (body ++ (b']' ∷ rest)))
  pub host_is : host ≡ b'v' ∷ (version ++ (b'.' ∷ body))
  pub hex_version : All (λ c. hexdig c ≡ true) version
  pub body_chars : All (λ c. ipv_future_last_part c ≡ true) body
  pub port_part : IsPortPart rest p

-- A registered name is in lower case; a literal is kept as it is written.
pub data IsHostPort : Text → Bytes → Option ℕ → Type 0 where
  name :
      {s : Text} {host : Bytes} {p : Option ℕ} (bs : Bytes)
      → RegName s bs p
      → host ≡ lowercase bs
      → IsHostPort s host p
  ipv6 :
      {s t : Text} {host : Bytes} {p : Option ℕ}
      → s ≡ b'[' ∷ t
      → Ipv6Literal t host p
      → IsHostPort s host p
  future :
      {s t : Text} {host : Bytes} {p : Option ℕ}
      → s ≡ b'[' ∷ b'v' ∷ t
      → FutureLiteral t host p
      → IsHostPort s host p
