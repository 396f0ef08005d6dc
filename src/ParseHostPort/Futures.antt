-- ===== src/ParseHostPort/Futures.antt =====
-- src/parse_host_port.rs: the machine on an address of the future, against the grammar.
use uri.ParseHostPort.RegNames.{refused}
use uri.Error.{Context, illegal_character, truncated_host, err, ok}
use uri.ParseHostPort.Steps.{runs}
use uri.Prelude.{
  ==_iff, inr, refl, arith, ap, append_assoc, inl, [], append-nil, Bool-cases, ◌∙◌, false, ◌∷◌,
  true, ◌++◌, ◌≡◌, ◌==◌, All, Option, ℕ,
}
use uri.CharacterClasses.{hexdig, ipv_future_last_part}
use uri.Text.{Text, Bytes}
use uri.ParseHostPort.Grammar.{IsPortPart}
use uri.ParseHostPort.Literals.{closed, closed_sound, closed_complete}
use uri.ParseHostPort.{next, initial, ipv_future_body, ipv_future_number, finalize, State}

abbrev pub in_body : Bytes → State
in_body host = ipv_future_body (record initial { host = host })

abbrev pub in_version : Bytes → State
in_version host = ipv_future_number (record initial { host = host })

body_push :
    (host : Bytes) (c : ℕ)
    → ipv_future_last_part c ≡ true
    → next (in_body host) c ≡ ok (in_body (host ++ c ∷ []))
unfolding next ipv_future_last_part
body_push host c e = ground arith

version_push :
    (host : Bytes) (c : ℕ)
    → hexdig c ≡ true
    → next (in_version host) c ≡ ok (in_version (host ++ c ∷ []))
unfolding next hexdig
version_push host c e = ground arith

record BodyRead (host : Bytes) (s : Text) (h : Bytes) (p : Option ℕ) : Type 0 where
  body : Text
  rest : Text
  spells : s ≡ body ++ (b']' ∷ rest)
  host_is : h ≡ host ++ body
  chars : All (λ c. ipv_future_last_part c ≡ true) body
  port_part : IsPortPart rest p

in_body_sound :
    (s : Text) (host h : Bytes) (p : Option ℕ)
    → runs (in_body host) s ≡ ok (h, p)
    → BodyRead host s h p
in_body_sound [] host h p e =
    let truncated : runs (in_body host) [] ≡ err truncated_host = unfold finalize in refl in
    absurd (refused truncated e)
in_body_sound (c ∷ s) host h p e = elim (Bool-cases (c == b']')) [
  | inl k ↦
      let step : next (in_body host) c ≡ ok (closed host []) = unfold next in rw k refl in
      let (same, part) = closed_sound host [] s h p (rw step at e) in
      let bracket : c ≡ b']' = (==_iff c b']').0 k in
      record {
        body = [];
        rest = s;
        spells = rw bracket refl;
        host_is = rw append-nil same;
        chars = tt;
        port_part = part;
      }
  | inr k ↦ elim (Bool-cases (ipv_future_last_part c)) [
    | inl allowed ↦
        let r = in_body_sound s (host ++ c ∷ []) h p (rw (body_push host c allowed) at e) in
        record {
          body = c ∷ r.body;
          rest = r.rest;
          spells = ap (◌∷◌ c) r.spells;
          host_is = r.host_is ∙ append_assoc host (c ∷ []) r.body;
          chars = (allowed, r.chars);
          port_part = r.port_part;
        }
    | inr illegal ↦
        let step : next (in_body host) c ≡ err (illegal_character Context.ipv_future) =
          unfold next in rw (k, illegal) refl in
        absurd (refused {e = illegal_character Context.ipv_future} (rw step refl) e)
  ]
]

in_body_complete :
    (body rest : Text) (host : Bytes) (p : Option ℕ)
    → All (λ c. ipv_future_last_part c ≡ true) body
    → IsPortPart rest p
    → runs (in_body host) (body ++ (b']' ∷ rest)) ≡ ok (host ++ body, p)
in_body_complete [] rest host p h part =
    let step : next (in_body host) b']' ≡ ok (closed host []) = unfold next in refl in
    rw (step, append-nil) (closed_complete host [] rest p part)
in_body_complete (c ∷ body) rest host p (h, hs) part =
    rw (body_push host c h)
      (in_body_complete body rest (host ++ c ∷ []) p hs part ∙ rw append_assoc refl)

-- The version, of which the host was read, with the dot behind it.
pub record VersionRead (host : Bytes) (s : Text) (h : Bytes) (p : Option ℕ) : Type 0 where
  pub version : Text
  pub body : Text
  pub rest : Text
  pub spells : s ≡ version ++ (b'.' ∷ (body ++ (b']' ∷ rest)))
  pub host_is : h ≡ host ++ (version ++ (b'.' ∷ body))
  pub hex_version : All (λ c. hexdig c ≡ true) version
  pub body_chars : All (λ c. ipv_future_last_part c ≡ true) body
  pub port_part : IsPortPart rest p

dotted :
    (host : Bytes) (s : Text) (h : Bytes) (p : Option ℕ)
    → BodyRead (host ++ b'.' ∷ []) s h p
    → VersionRead host (b'.' ∷ s) h p
dotted host s h p r = record {
  version = [];
  body = r.body;
  rest = r.rest;
  spells = ap (◌∷◌ b'.') r.spells;
  host_is = r.host_is ∙ append_assoc host (b'.' ∷ []) r.body;
  hex_version = tt;
  body_chars = r.chars;
  port_part = r.port_part;
}

version_stops :
    (host : Bytes) (c : ℕ) (s : Text) (r : Bytes × Option ℕ)
    → (c == b'.') ≡ false
    → hexdig c ≡ false
    → runs (in_version host) (c ∷ s) ≡ ok r
    → ⊥
unfolding next
version_stops host c s r k other e = elim (Bool-cases (c == b']')) [
  | inl q ↦ cc (rw (k, q) at e)
  | inr q ↦ cc (rw (k, q, other) at e)
]

pub in_version_sound :
    (s : Text) (host h : Bytes) (p : Option ℕ)
    → runs (in_version host) s ≡ ok (h, p)
    → VersionRead host s h p
in_version_sound [] host h p e =
    let truncated : runs (in_version host) [] ≡ err truncated_host = unfold finalize in refl in
    absurd (refused truncated e)
in_version_sound (c ∷ s) host h p e = elim (Bool-cases (c == b'.')) [
  | inl k ↦
      let dot : c ≡ b'.' = (==_iff c b'.').0 k in
      let step : next (in_version host) c ≡ ok (in_body (host ++ b'.' ∷ [])) =
        unfold next in rw k refl in
      let r = in_body_sound s (host ++ b'.' ∷ []) h p (rw step at e) in rw dot (dotted host s h p r)
  | inr k ↦ elim (Bool-cases (hexdig c)) [
    | inl digit ↦
        let r = in_version_sound s (host ++ c ∷ []) h p (rw (version_push host c digit) at e) in
        record {
          version = c ∷ r.version;
          body = r.body;
          rest = r.rest;
          spells = ap (◌∷◌ c) r.spells;
          host_is = r.host_is ∙ append_assoc host (c ∷ []) (r.version ++ (b'.' ∷ r.body));
          hex_version = (digit, r.hex_version);
          body_chars = r.body_chars;
          port_part = r.port_part;
        }
    | inr other ↦ absurd (version_stops host c s (h, p) k other e)
  ]
]

pub in_version_complete :
    (version body rest : Text) (host : Bytes) (p : Option ℕ)
    → All (λ c. hexdig c ≡ true) version
    → All (λ c. ipv_future_last_part c ≡ true) body
    → IsPortPart rest p
    → runs (in_version host) (version ++ (b'.' ∷ (body ++ (b']' ∷ rest))))
      ≡ ok (host ++ (version ++ (b'.' ∷ body)), p)
in_version_complete [] body rest host p h hb part =
    let step : next (in_version host) b'.' ≡ ok (in_body (host ++ b'.' ∷ [])) =
      unfold next in refl in
    rw step (in_body_complete body rest (host ++ b'.' ∷ []) p hb part ∙ rw append_assoc refl)
in_version_complete (c ∷ version) body rest host p (h, hs) hb part =
    rw (version_push host c h)
      (in_version_complete version body rest (host ++ c ∷ []) p hs hb part ∙ rw append_assoc refl)
