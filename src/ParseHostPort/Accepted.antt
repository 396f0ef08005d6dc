-- ===== src/ParseHostPort/Accepted.antt =====
-- src/parse_host_port.rs: the texts that are accepted, and the host and the port of each.
use uri.ParseHostPort.{State}
use uri.CharacterClasses.Delimiters.{reg_name-bracket}
use uri.ValidateIpv6Address.Characters.{validate_ipv6_address_chars}
use uri.Authority.HostPort.{new_ipv6}
use uri.CharacterClasses.{reg_name_not_pct_encoded, eq-false}
use uri.ValidateIpv6Address.Accepted.{validate_ipv6_address-IsIpv6Address}
use uri.ParseHostPort.Steps.{new_version, new_empty, runs, new_bracket, new-NoBracket, NoBracket}
use uri.Error.{ok}
use uri.Prelude.{
  refl, sym, ==_iff, ◌++◌, inr, ◌==◌, ap, ◌↔◌, inl, ◌∙◌, Bool-cases, ℕ, Option, ◌≡◌, [], ◌∷◌,
}
use uri.Text.{Bytes, Text}
use uri.ParseHostPort.Grammar.{IsHostPort, name, ipv6, future, RegName, end, plain, encoded}
use uri.ParseHostPort.RegNames.{name_runs_sound, name_runs-RegName}
use uri.ParseHostPort.Literals.{open_ipv6, open_ipv6_sound, open_ipv6_complete}
use uri.ParseHostPort.Futures.{in_version, in_version_sound, in_version_complete}
use uri.ParseHostPort.{new, parse_host_port}

begins : (s rest : Text) (st : State) → new s ≡ ok (st, rest) → parse_host_port s ≡ runs st rest
unfolding parse_host_port
begins s rest st e = rw e refl

-- The three ways to begin.
module _ (h : Bytes) (p : Option ℕ) where
  named_sound : (s : Text) → NoBracket s → parse_host_port s ≡ ok (h, p) → IsHostPort s h p
  named_sound s n e =
      let (bs, reads, host_is) =
        name_runs_sound s h p (sym (begins s s _ (new-NoBracket s n)) ∙ e) in
      name bs reads host_is

  version_sound :
      (s : Text) → parse_host_port (b'[' ∷ b'v' ∷ s) ≡ ok (h, p) → IsHostPort (b'[' ∷ b'v' ∷ s) h p
  version_sound s e =
      let r = in_version_sound s (b'v' ∷ []) h p (sym (begins _ s _ (new_version s)) ∙ e) in
      future refl (record {
        version = r.version;
        body = r.body;
        rest = r.rest;
        spells = r.spells;
        host_is = r.host_is;
        hex_version = r.hex_version;
        body_chars = r.body_chars;
        port_part = r.port_part;
      })

  bracket_sound :
      (s : Text)
      → new (b'[' ∷ s) ≡ ok (open_ipv6 [], s)
      → parse_host_port (b'[' ∷ s) ≡ ok (h, p)
      → IsHostPort (b'[' ∷ s) h p
  bracket_sound s n e =
      let r = open_ipv6_sound s [] h p (sym (begins _ s _ n) ∙ e) in
      let same : h ≡ r.more = r.host_is in
      ipv6 refl (record {
        rest = r.rest;
        spells = r.spells ∙ ap (λ m. m ++ (b']' ∷ r.rest)) (sym same);
        address = (validate_ipv6_address-IsIpv6Address h).0 r.valid;
        port_part = r.port_part;
      })

  bracketed_sound : (s : Text) → parse_host_port (b'[' ∷ s) ≡ ok (h, p) → IsHostPort (b'[' ∷ s) h p
  bracketed_sound [] e = bracket_sound [] new_empty e
  bracketed_sound (c ∷ s) e = elim (Bool-cases (c == b'v')) [
    | inl k ↦
        let letter : c ≡ b'v' = (==_iff c b'v').0 k in rw letter (version_sound s (rw letter at e))
    | inr k ↦ bracket_sound (c ∷ s) (new_bracket c s k) e
  ]

  IsHostPort-sound : (s : Text) → parse_host_port s ≡ ok (h, p) → IsHostPort s h p
  IsHostPort-sound [] e = named_sound [] tt e
  IsHostPort-sound (c ∷ s) e = elim (Bool-cases (c == b'[')) [
    | inl k ↦
        let bracket : c ≡ b'[' = (==_iff c b'[').0 k in
        rw bracket (bracketed_sound s (rw bracket at e))
    | inr k ↦ named_sound (c ∷ s) k e
  ]

RegName-NoBracket : {s : Text} {bs : Bytes} {p : Option ℕ} → RegName s bs p → NoBracket s
RegName-NoBracket (end (inl (e, _))) = rw e tt
RegName-NoBracket (end (inr (t, e, _))) = rw e refl
RegName-NoBracket (plain {c} allowed r) =
    eq-false reg_name_not_pct_encoded b'[' reg_name-bracket c allowed
RegName-NoBracket (encoded x y e hx hy eb r) = rw e refl

IsHostPort-complete :
    {s : Text} {h : Bytes} {p : Option ℕ} → IsHostPort s h p → parse_host_port s ≡ ok (h, p)
IsHostPort-complete {s} (name bs r e) =
    begins s s _ (new-NoBracket s (RegName-NoBracket r)) ∙ rw e (name_runs-RegName [] r)
IsHostPort-complete {h} {p} (ipv6 e l) =
    let valid = (validate_ipv6_address-IsIpv6Address h).1 l.address in
    ap parse_host_port e
    ∙ ap (λ t. parse_host_port (b'[' ∷ t)) l.spells
    ∙ begins _ _ _ (new_ipv6 h l.rest (validate_ipv6_address_chars h valid))
    ∙ open_ipv6_complete h l.rest p valid l.port_part
IsHostPort-complete {p} (future {t} e l) =
    ap parse_host_port e
    ∙ begins _ _ _ (new_version t)
    ∙ ap (runs (in_version (b'v' ∷ []))) l.spells
    ∙ in_version_complete l.version l.body l.rest (b'v' ∷ []) p l.hex_version l.body_chars
        l.port_part
    ∙ rw (l.host_is) refl

-- A text is accepted with a host and a port exactly if the grammar gives it these: a registered name,
-- percent-decoded and in lower case, an IPv6 address in brackets, or a version, a dot and characters
-- behind `[v`, each with a colon and a port of 16 bits behind it, a colon alone, or nothing. A port is
-- what the standard library's `parse` for a `u16` reads, a sign `+` in front included.
pub parse_host_port-IsHostPort :
    (s : Text) (h : Bytes) (p : Option ℕ) → (parse_host_port s ≡ ok (h, p)) ↔ IsHostPort s h p
parse_host_port-IsHostPort s h p = (IsHostPort-sound h p s, IsHostPort-complete)
