-- ===== src/ParseHostPort/Parsed.antt =====
-- src/parse_host_port.rs: what the machine returns, whatever it is given.
use uri.Text.Numbers.Laws.{parse_uint-le}
use uri.CharacterClasses.Delimiters.{
  ipv_future-lt, hexdig-lt, reg_name-lt, reg_name-colon, reg_name-Excludes,
}
use uri.Text.Numbers.{not_parsed, parsed, u16_max, parse_uint, ParseInt}
use uri.ParseHostPort.Ports.{IsPort}
use uri.CharacterClasses.{ipv_future_last_part, hexdig, eq-false, reg_name_not_pct_encoded}
use uri.ValidateIpv6Address.Characters.{validate_ipv6_address-Ensures, validate_ipv6_address_chars}
use uri.ValidateIpv6Address.Loop.{IsIpv6Text}
use uri.Text.{to_lower, Bytes, lowercase, Text}
use uri.ParseHostPort.Steps.{
  new_version, new_empty, new_bracket, new-NoBracket, to_bytes_lem, add_host,
}
use uri.ValidateIpv6Address.{validate_ipv6_address}
use uri.Error.Ensures.{try_fold-Ensures, bind-Ensures, Ensures}
use uri.Codec.RoundTrip.{IsByte}
use uri.Prelude.{
  ==_iff, ◌==◌, refl, All-append, inr, [], inl, false, arith, none, ◌∷◌, some, ◌≡◌, ltb, Option,
  Bool-cases, ℕ, All,
}
use uri.PercentEncodedCharacterDecoder as Pec
use uri.PercentEncodedCharacterDecoder.Digits.{IsReady, Sound, next-Sound, new-IsReady}
use uri.Error.{illegal_port_number, try_fold, Result, Error, ok, err, panic, ◌>>=◌, ◌>>◌}
use uri.ParseHostPort.{
  Shared, State, not_ip_literal, percent_encoded_character, ipv6_address_state, ipv_future_number,
  ipv_future_body, garbage_check, port, next, new, finalize, finalize_host, to_bytes, finalize_port,
  parse_host_port, push_host, after_decoder,
}

abbrev shared : State → Shared
shared (not_ip_literal sh) = sh
shared (percent_encoded_character sh) = sh
shared (ipv6_address_state sh) = sh
shared (ipv_future_number sh) = sh
shared (ipv_future_body sh) = sh
shared (garbage_check sh) = sh
shared (port sh) = sh

-- The host read so far is bytes, and the decoder is between two calls.
record Inv (sh : Shared) : Type 0 where
  bytes : All IsByte sh.host
  ready : IsReady sh.pec_decoder

abbrev Good : State → Type 0
Good st = Inv (shared st)

Inv-add_host : (sh : Shared) (b : ℕ) → IsByte b → Inv sh → Inv (add_host sh (b ∷ []))
Inv-add_host sh b h v = record {
  bytes = All-append _ sh.host (b ∷ []) v.bytes (h, tt);
  ready = v.ready;
}

push_host-Ensures : (sh : Shared) (c : ℕ) → IsByte c → Inv sh → Ensures Inv (push_host sh c)
push_host-Ensures sh c h v =
    let fits : ltb 255 c ≡ false = ground arith in rw fits (Inv-add_host sh c h v)

after_decoder-Ensures :
    (sh : Shared) (r : Pec.PercentEncodedCharacterDecoder × Result Error (Option ℕ))
    → Inv sh
    → Sound r
    → Ensures Good (after_decoder sh r)
unfolding after_decoder
after_decoder-Ensures sh (d, ok none) v s = record { bytes = v.bytes; ready = s }
after_decoder-Ensures sh (d, ok (some b)) v (e, h) =
    Inv-add_host (record sh { pec_decoder = d }) b h
      (record { bytes = v.bytes; ready = rw e new-IsReady })
after_decoder-Ensures sh (d, err x) v s = tt
after_decoder-Ensures sh (d, panic) v s = absurd s

to_bytes-Ensures : (s : Text) → All IsByte s → Ensures (All IsByte) (to_bytes s)
to_bytes-Ensures s h = rw (to_bytes_lem s h) h

ipv6_text-IsByte : (s : Text) → IsIpv6Text s → All IsByte s
ipv6_text-IsByte [] _ = tt
ipv6_text-IsByte (c ∷ s) (h, hs) = (ground arith, ipv6_text-IsByte s hs)

-- The `unwrap` on each character of an address does not panic, since the address was validated.
close-Ensures :
    (sh : Shared)
    → Inv sh
    → Ensures Good (do
      validate_ipv6_address sh.ipv6_address
      host ← to_bytes sh.ipv6_address
      ok (garbage_check (record sh { host = host })))
close-Ensures sh v = go (validate_ipv6_address sh.ipv6_address) refl
  where
    go :
        (r : Result Error (Unit {0}))
        → validate_ipv6_address sh.ipv6_address ≡ r
        → Ensures Good (
            r >>= λ _.
            to_bytes sh.ipv6_address >>= λ host. ok (garbage_check (record sh { host = host })))
    go (ok u) e =
        let bytes =
          ipv6_text-IsByte sh.ipv6_address (validate_ipv6_address_chars sh.ipv6_address e) in
        rw (to_bytes_lem sh.ipv6_address bytes) (record { bytes = bytes; ready = v.ready })
    go (err x) e = tt
    go panic e = rw e at (validate_ipv6_address-Ensures sh.ipv6_address)

-- A character from a set of bytes is added to the host.
push-Ensures :
    (sh : Shared) (c : ℕ) (build : Shared → State)
    → ((sh' : Shared) → shared (build sh') ≡ sh')
    → IsByte c
    → Inv sh
    → Ensures Good (push_host sh c >>= λ sh'. ok (build sh'))
push-Ensures sh c build keeps h v =
    bind-Ensures Inv Good (push_host sh c) (λ sh'. ok (build sh')) (push_host-Ensures sh c h v)
      (λ sh' v'. rw (keeps sh') v')

-- One step.
next-Ensures : (st : State) (c : ℕ) → Good st → Ensures Good (next st c)
unfolding next
next-Ensures (not_ip_literal sh) c v = elim (Bool-cases (reg_name_not_pct_encoded c)) [
  | inl e ↦
      let p = eq-false reg_name_not_pct_encoded b'%' reg_name-Excludes.percent c e in
      let q = eq-false reg_name_not_pct_encoded b':' reg_name-colon c e in
      rw (p, q, e) (push-Ensures sh c not_ip_literal (λ sh'. refl) (reg_name-lt c e) v)
  | inr e ↦ ground (arith, e)
]
next-Ensures (percent_encoded_character sh) c v =
    after_decoder-Ensures sh (Pec.next sh.pec_decoder c) v (next-Sound sh.pec_decoder c v.ready)
next-Ensures (ipv6_address_state sh) c v = elim (Bool-cases (c == b']')) [
  | inl e ↦ rw e (close-Ensures sh v)
  | inr e ↦ rw e (record { bytes = v.bytes; ready = v.ready })
]
next-Ensures (ipv_future_number sh) c v = elim (Bool-cases (c == b'.')) [
  | inl d ↦ rw d (Inv-add_host sh b'.' (omega arith) v)
  | inr d ↦ elim (Bool-cases (c == b']')) [
    | inl k ↦ rw (d, k) tt
    | inr k ↦ elim (Bool-cases (hexdig c)) [
      | inl e ↦ rw (d, k, e) (push-Ensures sh c ipv_future_number (λ sh'. refl) (hexdig-lt c e) v)
      | inr e ↦ rw (d, k, e) tt
    ]
  ]
]
next-Ensures (ipv_future_body sh) c v = elim (Bool-cases (c == b']')) [
  | inl k ↦ rw k v
  | inr k ↦ elim (Bool-cases (ipv_future_last_part c)) [
    | inl e ↦ rw (k, e) (push-Ensures sh c ipv_future_body (λ sh'. refl) (ipv_future-lt c e) v)
    | inr e ↦ rw (k, e) tt
  ]
]
next-Ensures (garbage_check sh) c v = elim (Bool-cases (c == b':')) [
  | inl k ↦ rw k v
  | inr k ↦ rw k tt
]
next-Ensures (port sh) c v = record { bytes = v.bytes; ready = v.ready }

-- The first state, behind slices that do not panic.
abbrev GoodStart : State × Text → Type 0
GoodStart (st, rest) = Good st

bracket-Good : (s : Text) → Ensures GoodStart (new (b'[' ∷ s))
bracket-Good [] = rw new_empty (record { bytes = tt; ready = new-IsReady })
bracket-Good (d ∷ s) = elim (Bool-cases (d == b'v')) [
  | inl h ↦
      let letter : d ≡ b'v' = (==_iff d b'v').0 h in
      rw (letter, new_version s) (record { bytes = (omega arith, tt); ready = new-IsReady })
  | inr h ↦ rw (new_bracket d s h) (record { bytes = tt; ready = new-IsReady })
]

new-Good : (s : Text) → Ensures GoodStart (new s)
new-Good [] = rw (new-NoBracket [] tt) (record { bytes = tt; ready = new-IsReady })
new-Good (c ∷ s) = elim (Bool-cases (c == b'[')) [
  | inl h ↦ let bracket : c ≡ b'[' = (==_iff c b'[').0 h in rw bracket (bracket-Good s)
  | inr h ↦ rw (new-NoBracket (c ∷ s) h) (record { bytes = tt; ready = new-IsReady })
]

abbrev pub IsParsedHostPort : Bytes × Option ℕ → Type 0
IsParsedHostPort (host, p) = All IsByte host × IsPort p

finalize_port-Ensures : (s : Text) → Ensures IsPort (finalize_port s)
unfolding finalize_port
finalize_port-Ensures [] = tt
finalize_port-Ensures (c ∷ s) = go (parse_uint u16_max (c ∷ s)) refl
  where
    go :
        (r : ParseInt)
        → parse_uint u16_max (c ∷ s) ≡ r
        → Ensures IsPort (elim r as (λ _. Result Error (Option ℕ)) [
          | parsed n ↦ ok (some n)
          | not_parsed e ↦ err (illegal_port_number e)
        ])
    go (parsed n) e = (parse_uint-le u16_max (c ∷ s) n e)
    go (not_parsed x) e = tt

to_lower-IsByte : (c : ℕ) → IsByte c → IsByte (to_lower c)
unfolding to_lower
to_lower-IsByte c h = ground arith

pub lowercase-IsByte : (s : Bytes) → All IsByte s → All IsByte (lowercase s)
lowercase-IsByte [] h = tt
lowercase-IsByte (c ∷ s) (h, hs) = (to_lower-IsByte c h, lowercase-IsByte s hs)

finalize_host-IsByte : (sh : Shared) → Inv sh → All IsByte (finalize_host sh)
finalize_host-IsByte sh v = elim (Bool-cases sh.host_is_reg_name) [
  | inl e ↦ rw e (lowercase-IsByte sh.host v.bytes)
  | inr e ↦ rw e v.bytes
]

finalize_shared-Ensures :
    (sh : Shared)
    → Inv sh
    → Ensures IsParsedHostPort (finalize_port sh.port_string >>= λ p. ok (finalize_host sh, p))
finalize_shared-Ensures sh v =
    bind-Ensures IsPort IsParsedHostPort (finalize_port sh.port_string)
      (λ p. ok (finalize_host sh, p)) (finalize_port-Ensures sh.port_string)
      (λ p h. (finalize_host-IsByte sh v, h))

finalize-Ensures : (st : State) → Good st → Ensures IsParsedHostPort (finalize st)
unfolding finalize
finalize-Ensures (not_ip_literal sh) v = finalize_shared-Ensures sh v
finalize-Ensures (percent_encoded_character _) v = tt
finalize-Ensures (ipv6_address_state _) v = tt
finalize-Ensures (ipv_future_number _) v = tt
finalize-Ensures (ipv_future_body _) v = tt
finalize-Ensures (garbage_check sh) v = finalize_shared-Ensures sh v
finalize-Ensures (port sh) v = finalize_shared-Ensures sh v

-- Any text is refused or gives a host of bytes and a port of 16 bits. No `unwrap` and
-- no slice panics.
pub parse_host_port-Ensures : (s : Text) → Ensures IsParsedHostPort (parse_host_port s)
unfolding parse_host_port
parse_host_port-Ensures s =
    bind-Ensures GoodStart IsParsedHostPort (new s) _ (new-Good s) (λ (st, rest) good.
      bind-Ensures Good IsParsedHostPort (try_fold next st rest) finalize
        (try_fold-Ensures Good next next-Ensures rest st good) finalize-Ensures)
