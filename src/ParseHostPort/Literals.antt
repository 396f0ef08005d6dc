-- ===== src/ParseHostPort/Literals.antt =====
-- src/parse_host_port.rs: the machine on an address in brackets, against the grammar.
use uri.ValidateIpv6Address.Characters.{validate_ipv6_address-Ensures, validate_ipv6_address_chars}
use uri.Authority.HostPort.{ipv6_char-IsByte}
use uri.ParseHostPort.RegNames.{refused}
use uri.Error.{truncated_host, panic, Context, Error, illegal_character, err, Result, ok}
use uri.ValidateIpv6Address.{validate_ipv6_address}
use uri.ParseHostPort.Steps.{runs-ipv6_text, next_close, runs}
use uri.Prelude.{
  append_assoc, ap, append-nil, ◌∙◌, ==_iff, sym, Bool-cases, inr, inl, none, ◌++◌, false, refl,
  ◌∷◌, ◌==◌, [], ◌≡◌, ℕ, Option,
}
use uri.Text.{Bytes, Text}
use uri.ParseHostPort.Grammar.{IsPortPart}
use uri.ParseHostPort.Names.{with_port_complete, ok-pair, with_port, runs_port, with_port_sound}
use uri.ParseHostPort.{
  ipv6_address_state, finalize_port, next, initial, garbage_check, finalize, State,
}

-- Behind the closing bracket.
abbrev pub closed : Bytes → Text → State
closed host address = garbage_check (record initial { host = host; ipv6_address = address })

closed_end : (host : Bytes) (a : Text) → runs (closed host a) [] ≡ ok (host, none)
unfolding finalize finalize_port
closed_end host a = refl

closed_colon : (host : Bytes) (a s : Text) → runs (closed host a) (b':' ∷ s) ≡ with_port host s
closed_colon host a s =
    unfold next in runs_port (record initial { host = host; ipv6_address = a }) s refl

closed_other :
    (host : Bytes) (a : Text) (c : ℕ) (s : Text)
    → (c == b':') ≡ false
    → runs (closed host a) (c ∷ s) ≡ err (illegal_character Context.host)
unfolding next
closed_other host a c s e = rw e refl

pub closed_sound :
    (host : Bytes) (a s : Text) (h : Bytes) (p : Option ℕ)
    → runs (closed host a) s ≡ ok (h, p)
    → (h ≡ host) × IsPortPart s p
closed_sound host a [] h p e =
    let (same, port_is) = ok-pair (sym (closed_end host a) ∙ e) in (same, inl (refl, sym port_is))
closed_sound host a (c ∷ s) h p e = elim (Bool-cases (c == b':')) [
  | inl k ↦
      let colon : c ≡ b':' = (==_iff c b':').0 k in
      let (same, part) = with_port_sound host h s p (sym (closed_colon host a s) ∙ rw colon at e) in
      (same, inr (s, rw colon refl, part))
  | inr k ↦ absurd (refused (closed_other host a c s k) e)
]

pub closed_complete :
    (host : Bytes) (a s : Text) (p : Option ℕ)
    → IsPortPart s p
    → runs (closed host a) s ≡ ok (host, p)
closed_complete host a s p (inl (e, q)) = rw (e, q) (closed_end host a)
closed_complete host a s p (inr (t, e, part)) =
    rw e (closed_colon host a t ∙ with_port_complete host t p part)

-- Inside the brackets of an IPv6 address, of which `a` was read.
abbrev pub open_ipv6 : Text → State
open_ipv6 a = ipv6_address_state (record initial { ipv6_address = a })

pub record Ipv6Read (a s : Text) (h : Bytes) (p : Option ℕ) : Type 0 where
  pub more : Text
  pub rest : Text
  pub spells : s ≡ more ++ (b']' ∷ rest)
  pub host_is : h ≡ a ++ more
  pub valid : validate_ipv6_address h ≡ ok tt
  pub port_part : IsPortPart rest p

close_bracket :
    (a s : Text) (h : Bytes) (p : Option ℕ)
    → runs (open_ipv6 a) (b']' ∷ s) ≡ ok (h, p)
    → (h ≡ a) × (validate_ipv6_address a ≡ ok tt) × IsPortPart s p
close_bracket a s h p e = go (validate_ipv6_address a) refl
  where
    go :
        (r : Result Error (Unit {0}))
        → validate_ipv6_address a ≡ r
        → (h ≡ a) × (validate_ipv6_address a ≡ ok tt) × IsPortPart s p
    go (ok u) v =
        let (bytes, _, _) = ipv6_char-IsByte a (validate_ipv6_address_chars a v) in
        let step = next_close (record initial { ipv6_address = a }) v bytes in
        let (same, part) = closed_sound a a s h p (rw step at e) in (same, v, part)
    go (err x) v =
        let step : next (open_ipv6 a) b']' ≡ err x = unfold next in rw v refl in
        absurd (refused {e = x} (rw step refl) e)
    go panic v = absurd (rw v at (validate_ipv6_address-Ensures a))

pub open_ipv6_sound :
    (s a : Text) (h : Bytes) (p : Option ℕ) → runs (open_ipv6 a) s ≡ ok (h, p) → Ipv6Read a s h p
open_ipv6_sound [] a h p e =
    let truncated : runs (open_ipv6 a) [] ≡ err truncated_host = unfold finalize in refl in
    absurd (refused truncated e)
open_ipv6_sound (c ∷ s) a h p e = elim (Bool-cases (c == b']')) [
  | inl k ↦
      let bracket : c ≡ b']' = (==_iff c b']').0 k in
      let (same, valid, part) = close_bracket a s h p (rw bracket at e) in
      record {
        more = [];
        rest = s;
        spells = rw bracket refl;
        host_is = rw append-nil same;
        valid = rw same valid;
        port_part = part;
      }
  | inr k ↦
      let step : next (open_ipv6 a) c ≡ ok (open_ipv6 (a ++ c ∷ [])) = unfold next in rw k refl in
      let r = open_ipv6_sound s (a ++ c ∷ []) h p (rw step at e) in
      record {
        more = c ∷ r.more;
        rest = r.rest;
        spells = ap (◌∷◌ c) r.spells;
        host_is = r.host_is ∙ append_assoc a (c ∷ []) r.more;
        valid = r.valid;
        port_part = r.port_part;
      }
]

pub open_ipv6_complete :
    (host : Bytes) (rest : Text) (p : Option ℕ)
    → validate_ipv6_address host ≡ ok tt
    → IsPortPart rest p
    → runs (open_ipv6 []) (host ++ (b']' ∷ rest)) ≡ ok (host, p)
open_ipv6_complete host rest p v part =
    let (bytes, lacks, _) = ipv6_char-IsByte host (validate_ipv6_address_chars host v) in
    runs-ipv6_text host initial (b']' ∷ rest) lacks
    ∙ rw (next_close (record initial { ipv6_address = host }) v bytes)
        (closed_complete host host rest p part)
