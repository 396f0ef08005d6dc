-- ===== src/ParseHostPort/Steps.antt =====
-- Runs of the machine over the pieces of a printed host and port, with any text behind them.
use uri.ValidateIpv6Address.{validate_ipv6_address}
use uri.CharacterClasses.Delimiters.{reg_name-colon, reg_name-Excludes}
use uri.Text.Slices.Laws.{Avoids}
use uri.Text.Numbers.{upper_hex, hex_digit}
use uri.CharacterClasses.{eq-false, reg_name_not_pct_encoded}
use uri.Text.{Bytes, Text}
use uri.Text.Str.{slice_from}
use uri.Prelude.{
  false, ◌%◌, ◌/◌, inr, inl, append_assoc, Bool-cases, ◌==◌, ap, ◌∙◌, append-nil, All, arith, ◌+◌,
  [], ◌*◌, ◌∷◌, true, ◌<◌, Option, refl, ◌++◌, ◌≡◌, ℕ,
}
use uri.Error.{Error, Result, ok, ◌>>=◌, try_fold}
use uri.Codec.{encode_byte, encode_element}
use uri.Codec.RoundTrip.{IsByte, halves}
use uri.PercentEncodedCharacterDecoder as Pec
use uri.PercentEncodedCharacterDecoder.Digits.{
  half_read, next-new, next-half_read, to_hex_digit-hex_digit,
}
use uri.ParseHostPort.{
  ipv_future_number, Shared, State, not_ip_literal, percent_encoded_character, ipv6_address_state,
  garbage_check, port, next, new, finalize, initial, to_bytes,
}

abbrev pub runs : State → Text → Result Error (Bytes × Option ℕ)
runs st s = try_fold next st s >>= finalize

abbrev pub add_host : Shared → Bytes → Shared
add_host sh bs = record sh { host = sh.host ++ bs }

pub next_allowed :
    (sh : Shared) (c : ℕ)
    → IsByte c
    → reg_name_not_pct_encoded c ≡ true
    → next (not_ip_literal sh) c ≡ ok (not_ip_literal (add_host sh (c ∷ [])))
unfolding next
next_allowed sh c h e =
    let p = eq-false reg_name_not_pct_encoded b'%' reg_name-Excludes.percent c e in
    let q = eq-false reg_name_not_pct_encoded b':' reg_name-colon c e in ground (arith, p, q)

next_percent : (sh : Shared) → next (not_ip_literal sh) b'%' ≡ ok (percent_encoded_character sh)
unfolding next
next_percent sh = refl

next_first_digit :
    (sh : Shared) (h : ℕ)
    → h < 16
    → sh.pec_decoder ≡ Pec.new
    → next (percent_encoded_character sh) (hex_digit h)
      ≡ ok (percent_encoded_character (record sh { pec_decoder = half_read h }))
unfolding next
next_first_digit sh h lt e = rw (e, next-new (hex_digit h) h lt (to_hex_digit-hex_digit h lt))

next_second_digit :
    (sh : Shared) (h l : ℕ)
    → h < 16
    → l < 16
    → next (percent_encoded_character (record sh { pec_decoder = half_read h })) (hex_digit l)
      ≡ ok (not_ip_literal (add_host (record sh { pec_decoder = Pec.new }) ((h * 16 + l) ∷ [])))
unfolding next
next_second_digit sh h l hh hl =
    rw (next-half_read (hex_digit l) h l hh hl (to_hex_digit-hex_digit l hl))

-- One byte of a registered name.
runs-encode_byte :
    (sh : Shared) (b : ℕ) (rest : Text)
    → IsByte b
    → sh.pec_decoder ≡ Pec.new
    → runs (not_ip_literal sh) (encode_byte reg_name_not_pct_encoded b ++ rest)
      ≡ runs (not_ip_literal (add_host sh (b ∷ []))) rest
unfolding encode_byte upper_hex
runs-encode_byte sh b rest h e = elim (Bool-cases (reg_name_not_pct_encoded b)) [
  | inl allowed ↦ rw allowed (rw (next_allowed sh b h allowed))
  | inr not_allowed ↦ rw not_allowed (
      rw (next_percent sh) (
        rw (next_first_digit sh (b / 16) (omega arith) e) (
          rw (next_second_digit sh (b / 16) (b % 16) (omega arith) (omega arith))
            (rw (halves b, ← e)))))
]

-- A printed registered name is read into the host.
pub runs-encode_element :
    (bs : Bytes) (sh : Shared) (rest : Text)
    → All IsByte bs
    → sh.pec_decoder ≡ Pec.new
    → runs (not_ip_literal sh) (encode_element bs reg_name_not_pct_encoded ++ rest)
      ≡ runs (not_ip_literal (add_host sh bs)) rest
unfolding encode_element
runs-encode_element [] sh rest _ e = rw append-nil
runs-encode_element (b ∷ bs) sh rest (h, hs) e =
    ap (runs (not_ip_literal sh)) (append_assoc (encode_byte reg_name_not_pct_encoded b) _ rest)
    ∙ runs-encode_byte sh b _ h e
    ∙ runs-encode_element bs (add_host sh (b ∷ [])) rest hs e
    ∙ rw append_assoc

-- The port, up to the end of the text.
pub runs-port :
    (s : Text) (sh : Shared)
    → runs (port sh) s ≡ finalize (port (record sh { port_string = sh.port_string ++ s }))
unfolding next
runs-port [] sh = rw append-nil
runs-port (c ∷ s) sh =
    runs-port s (record sh { port_string = sh.port_string ++ c ∷ [] }) ∙ rw append_assoc

-- A bracketed text without `]` is collected.
pub runs-ipv6_text :
    (s : Text) (sh : Shared) (rest : Text)
    → Avoids (λ c. c == b']') s
    → runs (ipv6_address_state sh) (s ++ rest)
      ≡ runs (ipv6_address_state (record sh { ipv6_address = sh.ipv6_address ++ s })) rest
unfolding next
runs-ipv6_text [] sh rest _ = rw append-nil
runs-ipv6_text (c ∷ s) sh rest (h, hs) = rw h (
    runs-ipv6_text s (record sh { ipv6_address = sh.ipv6_address ++ c ∷ [] }) rest hs
    ∙ rw append_assoc)

-- The first character is no bracket.
abbrev pub NoBracket : Text → Type 0
NoBracket [] = Unit
NoBracket (c ∷ s) = (c == b'[') ≡ false

pub new-NoBracket :
    (s : Text)
    → NoBracket s
    → new s ≡ ok (not_ip_literal (record initial { host_is_reg_name = true }), s)
unfolding new
new-NoBracket [] h = refl
new-NoBracket (c ∷ s) h = ground arith

-- Behind a bracket, unless a `v` follows.
pub new_bracket :
    (c : ℕ) (s : Text)
    → (c == b'v') ≡ false
    → new (b'[' ∷ c ∷ s) ≡ ok (ipv6_address_state initial, c ∷ s)
unfolding new slice_from
new_bracket c s h = rw h refl

-- Behind `[v`, and behind a bracket that nothing follows.
pub new_version :
    (s : Text)
    → new (b'[' ∷ b'v' ∷ s) ≡ ok (ipv_future_number (record initial { host = b'v' ∷ [] }), s)
unfolding new slice_from
new_version [] = refl
new_version (c ∷ s) = refl

pub new_empty : new (b'[' ∷ []) ≡ ok (ipv6_address_state initial, [])
unfolding new slice_from
new_empty = refl

pub to_bytes_lem : (s : Text) → All IsByte s → to_bytes s ≡ ok s
unfolding to_bytes
to_bytes_lem [] h = refl
to_bytes_lem (c ∷ s) (h, hs) = ground (arith, to_bytes_lem s hs)

-- The closing bracket behind a valid address.
pub next_close :
    (sh : Shared)
    → validate_ipv6_address sh.ipv6_address ≡ ok tt
    → All IsByte sh.ipv6_address
    → next (ipv6_address_state sh) b']' ≡ ok (garbage_check (record sh { host = sh.ipv6_address }))
unfolding next
next_close sh v h = rw (v, to_bytes_lem sh.ipv6_address h)
