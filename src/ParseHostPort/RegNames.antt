-- ===== src/ParseHostPort/RegNames.antt =====
-- src/parse_host_port.rs: the machine on a registered name, against the grammar.
use uri.Text.Numbers.{to_hex_digit}
use uri.Codec.Grammar.{to_hex_digit-IsHexDigit, IsHexDigit-to_hex_digit, IsHexDigit}
use uri.CharacterClasses.{reg_name_not_pct_encoded}
use uri.Text.{lowercase, Bytes, Text}
use uri.Prelude.{
  sym, ◌+◌, append_assoc, ap, inr, refl, ◌*◌, append-nil, ==_iff, ◌∙◌, inl, true, ◌++◌, false,
  Bool-cases, Option-cases, ◌≡◌, Option, ◌==◌, ◌∷◌, ℕ, [],
}
use uri.Error.{err, ok, Error}
use uri.ParseHostPort.Grammar.{IsPortPart, RegName, end, plain, encoded}
use uri.ParseHostPort.Names.{
  ok-pair, name_illegal, with_port_complete, name_colon, name_cut_digit, name_encoded,
  name_bad_second, with_port_sound, name_bad_first, name_end, name_cut, name_runs, name_plain,
  Outcome,
}

-- What the machine made of the text behind the bytes read before.
record NameRead (host : Bytes) (s : Text) (h : Bytes) (p : Option ℕ) : Type 0 where
  bs : Bytes
  reads : RegName s bs p
  host_is : h ≡ lowercase (host ++ bs)

-- What is to be proved of a text.
abbrev NameSound : Text → Type 0
NameSound s = (host h : Bytes) (p : Option ℕ) → name_runs host s ≡ ok (h, p) → NameRead host s h p

pub refused : {e : Error} {r : Bytes × Option ℕ} {m : Outcome} → m ≡ err e → m ≡ ok r → ⊥
refused e h = cc

ended :
    (host : Bytes) (s : Text) (p : Option ℕ) → IsPortPart s p → NameRead host s (lowercase host) p
ended host s p part = record { bs = []; reads = end part; host_is = rw append-nil refl }

NameSound-nil : NameSound []
NameSound-nil host h p e =
    let (same, port_is) = ok-pair (sym (name_end host) ∙ e) in
    rw same (ended host [] p (inl (refl, sym port_is)))

-- A character is read, and then the rest.
pushed :
    (host : Bytes) (c : ℕ) (s : Text) (h : Bytes) (p : Option ℕ)
    → reg_name_not_pct_encoded c ≡ true
    → NameRead (host ++ c ∷ []) s h p
    → NameRead host (c ∷ s) h p
pushed host c s h p allowed r = record {
  bs = c ∷ r.bs;
  reads = plain allowed r.reads;
  host_is = r.host_is ∙ ap lowercase (append_assoc host (c ∷ []) r.bs);
}

NameSound-other : (c : ℕ) (s : Text) → (c == b'%') ≡ false → NameSound s → NameSound (c ∷ s)
NameSound-other c s percent ih host h p e = elim (Bool-cases (c == b':')) [
  | inl k ↦
      let colon : c ≡ b':' = (==_iff c b':').0 k in
      let (same, part) =
        with_port_sound (lowercase host) h s p (sym (name_colon host s) ∙ rw colon at e) in
      rw same (ended host (c ∷ s) p (inr (s, rw colon refl, part)))
  | inr k ↦ elim (Bool-cases (reg_name_not_pct_encoded c)) [
    | inl allowed ↦
        pushed host c s h p allowed
          (ih (host ++ c ∷ []) h p (sym (name_plain host c s allowed) ∙ e))
    | inr illegal ↦ absurd (refused (name_illegal host c s percent k illegal) e)
  ]
]

NameSound-percent :
    (q : ℕ) (s : Text) → (q == b'%') ≡ true → NameSound (b'%' ∷ s) → NameSound (q ∷ s)
NameSound-percent q s e = let same : q ≡ b'%' = (==_iff q b'%').0 e in rw same (λ f. f)

NameSound-short : (c : ℕ) → NameSound (b'%' ∷ c ∷ [])
NameSound-short c host h p e = elim (Option-cases (to_hex_digit c)) [
  | inl n ↦ absurd (refused (name_bad_first host c [] n) e)
  | inr (x, ex) ↦ absurd (refused (name_cut_digit host c x ex) e)
]

decoded :
    (host : Bytes) (c d x y : ℕ) (s : Text) (h : Bytes) (p : Option ℕ)
    → IsHexDigit c x
    → IsHexDigit d y
    → NameRead (host ++ (x * 16 + y) ∷ []) s h p
    → NameRead host (b'%' ∷ c ∷ d ∷ s) h p
decoded host c d x y s h p hx hy r = record {
  bs = (x * 16 + y) ∷ r.bs;
  reads = encoded x y refl hx hy refl r.reads;
  host_is = r.host_is ∙ ap lowercase (append_assoc host ((x * 16 + y) ∷ []) r.bs);
}

NameSound-encoded : (c d : ℕ) (s : Text) → NameSound s → NameSound (b'%' ∷ c ∷ d ∷ s)
NameSound-encoded c d s ih host h p e = elim (Option-cases (to_hex_digit c)) [
  | inl n ↦ absurd (refused (name_bad_first host c (d ∷ s) n) e)
  | inr (x, ex) ↦ elim (Option-cases (to_hex_digit d)) [
    | inl n ↦ absurd (refused (name_bad_second host c d x s ex n) e)
    | inr (y, ey) ↦
        decoded host c d x y s h p (to_hex_digit-IsHexDigit c x ex) (to_hex_digit-IsHexDigit d y ey)
          (ih (host ++ (x * 16 + y) ∷ []) h p (sym (name_encoded host c d x y s ex ey) ∙ e))
  ]
]

name_runs-NameSound : (s : Text) → NameSound s
name_runs-NameSound [] = NameSound-nil
name_runs-NameSound (q ∷ []) = elim (Bool-cases (q == b'%')) [
  | inl e ↦ NameSound-percent q [] e (λ host h p k. absurd (refused (name_cut host) k))
  | inr e ↦ NameSound-other q [] e NameSound-nil
]
name_runs-NameSound (q ∷ c ∷ []) = elim (Bool-cases (q == b'%')) [
  | inl e ↦ NameSound-percent q (c ∷ []) e (NameSound-short c)
  | inr e ↦ NameSound-other q (c ∷ []) e (name_runs-NameSound (c ∷ []))
]
name_runs-NameSound (q ∷ c ∷ d ∷ s) = elim (Bool-cases (q == b'%')) [
  | inl e ↦ NameSound-percent q (c ∷ d ∷ s) e (NameSound-encoded c d s (name_runs-NameSound s))
  | inr e ↦ NameSound-other q (c ∷ d ∷ s) e (name_runs-NameSound (c ∷ d ∷ s))
]

-- A name that the machine reads is one of the grammar.
pub name_runs_sound :
    (s : Text) (h : Bytes) (p : Option ℕ)
    → name_runs [] s ≡ ok (h, p)
    → (bs : Bytes) × RegName s bs p × (h ≡ lowercase bs)
name_runs_sound s h p e = let r = name_runs-NameSound s [] h p e in (r.bs, r.reads, r.host_is)

name_runs-IsPortPart :
    (host : Bytes) (s : Text) (p : Option ℕ)
    → IsPortPart s p
    → name_runs host s ≡ ok (lowercase host, p)
name_runs-IsPortPart host s p (inl (e, q)) = rw (e, q) (name_end host)
name_runs-IsPortPart host s p (inr (t, e, part)) =
    rw e (name_colon host t ∙ with_port_complete (lowercase host) t p part)

pub name_runs-RegName :
    {s : Text} {bs : Bytes} {p : Option ℕ} (host : Bytes)
    → RegName s bs p
    → name_runs host s ≡ ok (lowercase (host ++ bs), p)
name_runs-RegName {s} {p} host (end part) =
    name_runs-IsPortPart host s p part ∙ rw (append-nil) refl
name_runs-RegName host (plain {c} {s} {bs} allowed r) =
    name_plain host c s allowed ∙ name_runs-RegName (host ++ c ∷ []) r ∙ rw (append_assoc) refl
name_runs-RegName host (encoded {c} {d} {s} x y e hx hy eb r) =
    rw (e, eb)
      (name_encoded host c d x y s (IsHexDigit-to_hex_digit c x hx) (IsHexDigit-to_hex_digit d y hy)
        ∙ name_runs-RegName (host ++ (x * 16 + y) ∷ []) r
        ∙ rw (append_assoc) refl)
