-- ===== src/ParseHostPort.antt =====
-- src/parse_host_port.rs: the machine that reads a host and a port.
pub mod Steps
pub mod Parsed
pub mod Ports
pub mod Grammar
pub mod Names
pub mod RegNames
pub mod Literals
pub mod Futures
pub mod Accepted
use uri.Prelude.{ℕ, [], ◌∷◌, ◌++◌, ◌==◌, ltb, if◌then◌else◌, Bool, true, false, Option, none, some}
use uri.Text.{Text, Bytes, codes, lowercase}
use uri.Text.Str.{starts_with, slice_from}
use uri.Text.Numbers.{parse_uint, u8_max, u16_max, parsed, not_parsed}
use uri.Error.{
  Context, Error, illegal_character, illegal_port_number, truncated_host, Result, ok, err, panic,
  ◌>>=◌, ◌>>◌, try_fold,
}
use uri.CharacterClasses.{hexdig, reg_name_not_pct_encoded, ipv_future_last_part}
use uri.PercentEncodedCharacterDecoder as Pec
use uri.PercentEncodedCharacterDecoder.{PercentEncodedCharacterDecoder}
use uri.ValidateIpv6Address.{validate_ipv6_address}

pub record Shared : Type 0 where
  pub host : Bytes
  pub host_is_reg_name : Bool
  pub ipv6_address : Text
  pub pec_decoder : PercentEncodedCharacterDecoder
  pub port_string : Text

pub data State : Type 0 where
  not_ip_literal : Shared → State
  percent_encoded_character : Shared → State
  ipv6_address_state : Shared → State
  ipv_future_number : Shared → State
  ipv_future_body : Shared → State
  garbage_check : Shared → State
  port : Shared → State

-- The port of `finalize`: an empty port string is no port.
unfoldable pub finalize_port : Text → Result Error (Option ℕ)
finalize_port [] = ok none
finalize_port (c ∷ s) = elim (parse_uint u16_max (c ∷ s)) [
  | parsed n ↦ ok (some n)
  | not_parsed e ↦ err (illegal_port_number e)
]

abbrev pub finalize_host : Shared → Bytes
finalize_host st = if st.host_is_reg_name then lowercase st.host else st.host

finalize_shared : Shared → Result Error (Bytes × Option ℕ)
unfolding finalize_port
finalize_shared st = do p ← finalize_port st.port_string; ok (finalize_host st, p)

pub finalize : State → Result Error (Bytes × Option ℕ)
unfolding finalize_shared
finalize (not_ip_literal st) = finalize_shared st
finalize (percent_encoded_character _) = err truncated_host
finalize (ipv6_address_state _) = err truncated_host
finalize (ipv_future_number _) = err truncated_host
finalize (ipv_future_body _) = err truncated_host
finalize (garbage_check st) = finalize_shared st
finalize (port st) = finalize_shared st

abbrev pub initial : Shared
initial = record {
  host = [];
  host_is_reg_name = false;
  ipv6_address = [];
  pec_decoder = Pec.new;
  port_string = [];
}

-- The first state, and the text behind the bracket.
unfoldable pub new : Text → Result Error (State × Text)
unfolding starts_with
new s =
    if starts_with (codes "[v") s
    then (do
      rest ← slice_from 2 s
      ok (ipv_future_number (record initial { host = b'v' ∷ [] }), rest))
    else if starts_with (codes "[") s
    then (do rest ← slice_from 1 s; ok (ipv6_address_state initial, rest))
    else ok (not_ip_literal (record initial { host_is_reg_name = true }), s)

-- `u8::try_from(c as u32).unwrap()`
abbrev pub to_byte : ℕ → Result Error ℕ
to_byte c = if ltb u8_max c then panic else ok c

abbrev pub push_host : Shared → ℕ → Result Error Shared
push_host st c = do b ← to_byte c; ok (record st { host = st.host ++ b ∷ [] })

next_not_ip_literal : Shared → ℕ → Result Error State
next_not_ip_literal st c =
    if c == b'%'
    then ok (percent_encoded_character st)
    else if c == b':'
    then ok (port st)
    else if reg_name_not_pct_encoded c
    then (do st' ← push_host st c; ok (not_ip_literal st'))
    else err (illegal_character Context.host)

after_decoder :
    Shared → PercentEncodedCharacterDecoder × Result Error (Option ℕ) → Result Error State
after_decoder st (d, ok (some ci)) =
    ok (not_ip_literal (record st { pec_decoder = d; host = st.host ++ ci ∷ [] }))
after_decoder st (d, ok none) = ok (percent_encoded_character (record st { pec_decoder = d }))
after_decoder st (d, err e) = err e
after_decoder st (d, panic) = panic

next_percent_encoded_character : Shared → ℕ → Result Error State
unfolding after_decoder
next_percent_encoded_character st c = after_decoder st (Pec.next st.pec_decoder c)

-- `chars().map(…).collect()` with the `unwrap` on each character.
unfoldable pub to_bytes : Text → Result Error Bytes
to_bytes [] = ok []
to_bytes (c ∷ s) = do b ← to_byte c; bs ← to_bytes s; ok (b ∷ bs)

next_ipv6_address : Shared → ℕ → Result Error State
unfolding to_bytes
next_ipv6_address st c =
    if c == b']'
    then (do
      validate_ipv6_address st.ipv6_address
      host ← to_bytes st.ipv6_address
      ok (garbage_check (record st { host = host })))
    else ok (ipv6_address_state (record st { ipv6_address = st.ipv6_address ++ c ∷ [] }))

next_ipv_future_number : Shared → ℕ → Result Error State
next_ipv_future_number st c =
    if c == b'.'
    then ok (ipv_future_body (record st { host = st.host ++ b'.' ∷ [] }))
    else if c == b']'
    then err truncated_host
    else if hexdig c
    then (do st' ← push_host st c; ok (ipv_future_number st'))
    else err (illegal_character Context.ipv_future)

next_ipv_future_body : Shared → ℕ → Result Error State
next_ipv_future_body st c =
    if c == b']'
    then ok (garbage_check st)
    else if ipv_future_last_part c
    then (do st' ← push_host st c; ok (ipv_future_body st'))
    else err (illegal_character Context.ipv_future)

next_garbage_check : Shared → ℕ → Result Error State
next_garbage_check st c = if c == b':' then ok (port st) else err (illegal_character Context.host)

next_port : Shared → ℕ → State
next_port st c = port (record st { port_string = st.port_string ++ c ∷ [] })

unfoldable pub next : State → ℕ → Result Error State
unfolding next_not_ip_literal next_percent_encoded_character next_ipv6_address
    next_ipv_future_number next_ipv_future_body next_garbage_check next_port
next (not_ip_literal st) c = next_not_ip_literal st c
next (percent_encoded_character st) c = next_percent_encoded_character st c
next (ipv6_address_state st) c = next_ipv6_address st c
next (ipv_future_number st) c = next_ipv_future_number st c
next (ipv_future_body st) c = next_ipv_future_body st c
next (garbage_check st) c = next_garbage_check st c
next (port st) c = ok (next_port st c)

unfoldable pub parse_host_port : Text → Result Error (Bytes × Option ℕ)
unfolding finalize new next
parse_host_port s = do (machine, rest) ← new s; st ← try_fold next machine rest; finalize st
