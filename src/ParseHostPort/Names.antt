-- ===== src/ParseHostPort/Names.antt =====
-- src/parse_host_port.rs: the runs of the machine over a registered name and over a port.
use uri.Codec.Grammar.{next-none}
use uri.PercentEncodedCharacterDecoder.Digits.{half_read, next-half_read, to_hex_digit-lt, next-new}
use uri.CharacterClasses.Delimiters.{reg_name-lt}
use uri.CharacterClasses.{reg_name_not_pct_encoded}
use uri.Text.Numbers.{to_hex_digit, not_parsed, parsed, u16_max, parse_uint, ParseInt}
use uri.Prelude.{
  ◌+◌, ◌*◌, false, ◌==◌, none, ◌++◌, ◌∙◌, true, some, ◌∷◌, inr, inl, refl, [], ℕ, Option, ◌≡◌,
}
use uri.Error.{
  Context, illegal_character, illegal_percent_encoding, truncated_host, illegal_port_number, err,
  bind-eq-ok, ok, Error, ◌>>=◌, Result,
}
use uri.Text.{lowercase, Text, Bytes}
use uri.ParseHostPort.Grammar.{IsPortText}
use uri.ParseHostPort.Steps.{next_allowed, runs, runs-port}
use uri.Text.Numbers.{empty}
use uri.ParseHostPort.{
  next, finalize_host, port, finalize_port, Shared, initial, not_ip_literal, finalize,
}
use uri.PercentEncodedCharacterDecoder as Pec

abbrev pub Outcome : Type 0
Outcome = Result Error (Bytes × Option ℕ)

-- The end of the machine: the port, with the host in front of it.
abbrev pub with_port : Bytes → Text → Outcome
with_port host t = finalize_port t >>= λ p. ok (host, p)

pub runs_port :
    (sh : Shared) (s : Text)
    → sh.port_string ≡ []
    → runs (port sh) s ≡ with_port (finalize_host sh) s
unfolding finalize
runs_port sh s e = runs-port s sh ∙ rw e refl

finalize_port-IsPortText : (t : Text) (p : Option ℕ) → finalize_port t ≡ ok p → IsPortText t p
unfolding finalize_port
finalize_port-IsPortText [] p h = inl (refl, cc)
finalize_port-IsPortText (c ∷ t) p h = go (parse_uint u16_max (c ∷ t)) refl h
  where
    go :
        (r : ParseInt)
        → parse_uint u16_max (c ∷ t) ≡ r
        → (elim r as (λ _. Result Error (Option ℕ)) [
          | parsed n ↦ ok (some n)
          | not_parsed e ↦ err (illegal_port_number e)
        ])
          ≡ ok p
        → IsPortText (c ∷ t) p
    go (parsed n) e h = inr (n, e, cc)
    go (not_parsed x) e h = absurd (let bad : ⊥ = cc in bad)

IsPortText-finalize_port : (t : Text) (p : Option ℕ) → IsPortText t p → finalize_port t ≡ ok p
unfolding finalize_port
IsPortText-finalize_port t p (inl (e, q)) = rw (e, q) refl
IsPortText-finalize_port [] p (inr (n, e, q)) =
    let refused : parse_uint u16_max [] ≡ not_parsed empty = unfold parse_uint in refl in
    absurd (let bad : ⊥ = cc (refused, e) in bad)
IsPortText-finalize_port (c ∷ t) p (inr (n, e, q)) = rw (finalize_port, e, q) refl

pub ok-pair :
    {a a' : Bytes} {p p' : Option ℕ}
    → ◌≡◌ {A = Outcome} (ok (a, p)) (ok (a', p'))
    → (a' ≡ a) × (p ≡ p')
ok-pair h = (cc, cc)

pub with_port_sound :
    (host host' : Bytes) (t : Text) (p : Option ℕ)
    → with_port host t ≡ ok (host', p)
    → (host' ≡ host) × IsPortText t p
with_port_sound host host' t p h =
    let (q, e, d) = bind-eq-ok (finalize_port t) _ h in
    let (same, port_is) = ok-pair d in (same, rw port_is at (finalize_port-IsPortText t q e))

pub with_port_complete :
    (host : Bytes) (t : Text) (p : Option ℕ) → IsPortText t p → with_port host t ≡ ok (host, p)
with_port_complete host t p h = rw (IsPortText-finalize_port t p h) refl

-- In front of a registered name's next character.
abbrev pub named : Bytes → Shared
named host = record initial { host_is_reg_name = true; host = host }

abbrev pub name_runs : Bytes → Text → Outcome
name_runs host s = runs (not_ip_literal (named host)) s

pub name_end : (host : Bytes) → name_runs host [] ≡ ok (lowercase host, none)
unfolding finalize finalize_port
name_end host = refl

pub name_colon :
    (host : Bytes) (s : Text) → name_runs host (b':' ∷ s) ≡ with_port (lowercase host) s
name_colon host s = unfold next in runs_port (named host) s refl

pub name_plain :
    (host : Bytes) (c : ℕ) (s : Text)
    → reg_name_not_pct_encoded c ≡ true
    → name_runs host (c ∷ s) ≡ name_runs (host ++ c ∷ []) s
name_plain host c s e = rw (next_allowed (named host) c (reg_name-lt c e) e) refl

pub name_illegal :
    (host : Bytes) (c : ℕ) (s : Text)
    → (c == b'%') ≡ false
    → (c == b':') ≡ false
    → reg_name_not_pct_encoded c ≡ false
    → name_runs host (c ∷ s) ≡ err (illegal_character Context.host)
unfolding next
name_illegal host c s p q e = rw (p, q, e) refl

pub name_encoded :
    (host : Bytes) (c d x y : ℕ) (s : Text)
    → to_hex_digit c ≡ some x
    → to_hex_digit d ≡ some y
    → name_runs host (b'%' ∷ c ∷ d ∷ s) ≡ name_runs (host ++ (x * 16 + y) ∷ []) s
unfolding next
name_encoded host c d x y s ex ey =
    let hx = to_hex_digit-lt c x ex in
    let hy = to_hex_digit-lt d y ey in
    rw (next-new c x hx ex) (rw (next-half_read d x y hx hy ey) refl)

pub name_bad_first :
    (host : Bytes) (c : ℕ) (s : Text)
    → to_hex_digit c ≡ none
    → name_runs host (b'%' ∷ c ∷ s) ≡ err illegal_percent_encoding
unfolding next
name_bad_first host c s e = rw (next-none Pec.new c e) refl

pub name_bad_second :
    (host : Bytes) (c d x : ℕ) (s : Text)
    → to_hex_digit c ≡ some x
    → to_hex_digit d ≡ none
    → name_runs host (b'%' ∷ c ∷ d ∷ s) ≡ err illegal_percent_encoding
unfolding next
name_bad_second host c d x s ex e =
    rw (next-new c x (to_hex_digit-lt c x ex) ex) (rw (next-none (half_read x) d e) refl)

pub name_cut : (host : Bytes) → name_runs host (b'%' ∷ []) ≡ err truncated_host
unfolding next finalize
name_cut host = refl

pub name_cut_digit :
    (host : Bytes) (c x : ℕ)
    → to_hex_digit c ≡ some x
    → name_runs host (b'%' ∷ c ∷ []) ≡ err truncated_host
unfolding next finalize
name_cut_digit host c x e = rw (next-new c x (to_hex_digit-lt c x e) e) refl
