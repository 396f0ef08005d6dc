-- ===== src/Authority/Delimiters.antt =====
-- The delimiters that the printed parts of an authority do not hold.
use uri.Text.Numbers.{decimal}
use uri.Codec.Output.{encode_element-Lacks}
use uri.Codec.{encode_element}
use uri.Codec.RoundTrip.{IsByte}
use uri.ValidateIpv6Address.Characters.{validate_ipv6_address_chars}
use uri.ValidateIpv6Address.Loop.{ipv6_char, IsIpv6Text}
use uri.Text.Slices.Laws.{Avoids}
use uri.Text.Numbers.Value.{decimal-IsDigits, IsDigits}
use uri.Text.{Text, Bytes}
use uri.Prelude.{
  none, inr, [], arith, All-append, some, inl, refl, ◌∷◌, ◌++◌, All, ◌==◌, false, ◌≡◌, Option, ℕ,
}
use uri.CharacterClasses.{user_info_not_pct_encoded, reg_name_not_pct_encoded, hexdig, eq-false}
use uri.Authority.{fmt_host, fmt_port}
use uri.Authority.HostPort.{IsHost, fmt_host-IsRegName, fmt_host-IsIpv6Host}

-- A character that ends an authority or its userinfo.
pub record IsDelimiter (d : ℕ) : Type 0 where
  pub reg_name : reg_name_not_pct_encoded d ≡ false
  pub hex : hexdig d ≡ false
  pub address : ipv6_char d ≡ false
  pub marks :
      ((b'%' == d) ≡ false) × ((b'[' == d) ≡ false) × ((b']' == d) ≡ false) × ((b':' == d) ≡ false)

pub at-IsDelimiter : IsDelimiter b'@'
unfolding reg_name_not_pct_encoded hexdig
at-IsDelimiter = record {
  reg_name = refl;
  hex = refl;
  address = refl;
  marks = (refl, refl, refl, refl);
}

pub slash-IsDelimiter : IsDelimiter b'/'
unfolding reg_name_not_pct_encoded hexdig
slash-IsDelimiter = record {
  reg_name = refl;
  hex = refl;
  address = refl;
  marks = (refl, refl, refl, refl);
}

pub question-IsDelimiter : IsDelimiter b'?'
unfolding reg_name_not_pct_encoded hexdig
question-IsDelimiter = record {
  reg_name = refl;
  hex = refl;
  address = refl;
  marks = (refl, refl, refl, refl);
}

pub hash-IsDelimiter : IsDelimiter b'#'
unfolding reg_name_not_pct_encoded hexdig
hash-IsDelimiter = record {
  reg_name = refl;
  hex = refl;
  address = refl;
  marks = (refl, refl, refl, refl);
}

module _ (d : ℕ) (out : IsDelimiter d) where
  ipv6-Avoids : (s : Text) → IsIpv6Text s → Avoids (λ c. c == d) s
  ipv6-Avoids [] _ = tt
  ipv6-Avoids (c ∷ s) (h, hs) = (eq-false ipv6_char d out.address c h, ipv6-Avoids s hs)

  digits-Avoids : (s : Text) → IsDigits s → Avoids (λ c. c == d) s
  digits-Avoids [] _ = tt
  digits-Avoids (c ∷ s) (h, hs) =
      (eq-false hexdig d out.hex c (unfold hexdig in ground arith), digits-Avoids s hs)

  fmt_port-Avoids : (p : Option ℕ) → Avoids (λ c. c == d) (fmt_port p)
  unfolding fmt_port
  fmt_port-Avoids none = tt
  fmt_port-Avoids (some n) = (out.marks.3, digits-Avoids (decimal n) (decimal-IsDigits n))

  fmt_host-Avoids : (host : Bytes) → IsHost host → Avoids (λ c. c == d) (fmt_host host)
  fmt_host-Avoids host (inl r) = rw (fmt_host-IsRegName host r) (
      encode_element-Lacks reg_name_not_pct_encoded d out.reg_name host out.marks.0 out.hex r.bytes)
  fmt_host-Avoids host (inr i) = rw (fmt_host-IsIpv6Host host i) (
    out.marks.1,
    All-append _ host (b']' ∷ []) (ipv6-Avoids host (validate_ipv6_address_chars host i.valid))
        (out.marks.2, tt),
  )

  -- Host and port together.
  pub host_port-Avoids :
      (host : Bytes) (p : Option ℕ)
      → IsHost host
      → Avoids (λ c. c == d) (fmt_host host ++ fmt_port p)
  host_port-Avoids host p h =
      All-append _ (fmt_host host) (fmt_port p) (fmt_host-Avoids host h) (fmt_port-Avoids p)

  -- A userinfo in front of them, for a delimiter that is not `@`.
  pub userinfo-Avoids :
      (u : Bytes)
      → user_info_not_pct_encoded d ≡ false
      → All IsByte u
      → Avoids (λ c. c == d) (encode_element u user_info_not_pct_encoded)
  userinfo-Avoids u e h = encode_element-Lacks user_info_not_pct_encoded d e u out.marks.0 out.hex h
