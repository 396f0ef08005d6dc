-- ===== src/Codec/Failures.antt =====
-- src/codec.rs: the texts that `decode_element` refuses, and the error for each.
use uri.Text.Numbers.{to_hex_digit}
use uri.Text.{Text, Bytes}
use uri.CharacterClasses.{CharSet}
use uri.Prelude.{
  ◌+◌, ◌*◌, ◌%◌, refl, inr, ◌∙◌, inl, ==_iff, sym, Option-cases, Bool-cases, ◌↔◌, arith, true, [],
  false, ◌==◌, none, ◌∷◌, ◌≡◌, ◌≢◌, ℕ,
}
use uri.Codec.{decode_element}
use uri.Error.{
  illegal_percent_encoding, panic, illegal_character, ◌>>=◌, err, ok, Context, Result, Error,
}
use uri.Codec.Grammar.{
  Decodes-complete, end, cut, decode-encoded, to_hex_digit-IsHexDigit, decode-cut_digit,
  decode-plain, decode-bad_second, decode-bad_first, IsHexDigit-to_hex_digit, decode-illegal,
  decode, IsHexDigit,
}

abbrev NotHexDigit : ℕ → Type 0
NotHexDigit c = (d : ℕ) → ¬ IsHexDigit c d

-- The first character that is wrong decides: one outside the set, or one behind a percent sign that is
-- no hexadecimal digit.
pub data Fails (allowed : CharSet) (context : Context) : Text → Error → Type 0 where
  illegal :
      {c : ℕ} {s : Text} {e : Error}
      → c ≢ b'%'
      → allowed c ≡ false
      → e ≡ illegal_character context
      → Fails allowed context (c ∷ s) e
  bad_first :
      {p c : ℕ} {s : Text} {e : Error}
      → p ≡ b'%'
      → NotHexDigit c
      → e ≡ illegal_percent_encoding
      → Fails allowed context (p ∷ c ∷ s) e
  bad_second :
      {p c d : ℕ} {s : Text} {e : Error} (x : ℕ)
      → p ≡ b'%'
      → IsHexDigit c x
      → NotHexDigit d
      → e ≡ illegal_percent_encoding
      → Fails allowed context (p ∷ c ∷ d ∷ s) e
  plain :
      {c : ℕ} {s : Text} {e : Error}
      → c ≢ b'%'
      → allowed c ≡ true
      → Fails allowed context s e
      → Fails allowed context (c ∷ s) e
  encoded :
      {p c d : ℕ} {s : Text} {e : Error} (x y : ℕ)
      → p ≡ b'%'
      → IsHexDigit c x
      → IsHexDigit d y
      → Fails allowed context s e
      → Fails allowed context (p ∷ c ∷ d ∷ s) e

NotHexDigit-to_hex_digit : (c : ℕ) → NotHexDigit c → to_hex_digit c ≡ none
NotHexDigit-to_hex_digit c n = elim (Option-cases (to_hex_digit c)) [
  | inl e ↦ e
  | inr (x, e) ↦ absurd (n x (to_hex_digit-IsHexDigit c x e))
]

to_hex_digit-NotHexDigit : (c : ℕ) → to_hex_digit c ≡ none → NotHexDigit c
to_hex_digit-NotHexDigit c e d h = cc (e, IsHexDigit-to_hex_digit c d h)

percent_false : (c : ℕ) → c ≢ b'%' → (c == b'%') ≡ false
percent_false c ne = ground (arith, ne)

ok-ne-err : {bs : Bytes} {e : Error} → ◌≡◌ {A = Result Error Bytes} (ok bs) (err e) → ⊥
ok-ne-err h = cc

err-eq : {e e' : Error} → ◌≡◌ {A = Result Error Bytes} (err e) (err e') → e' ≡ e
err-eq h = cc

bind_item-err :
    (m : Result Error Bytes) (b : ℕ) (e : Error)
    → ◌≡◌ {A = Result Error Bytes} (m >>= λ bs. ok (b ∷ bs)) (err e)
    → m ≡ err e
bind_item-err (ok bs) b e h = cc
bind_item-err (err e') b e h = h
bind_item-err panic b e h = cc

module _ (allowed : CharSet) (context : Context) where
  Fails-complete :
      {s : Text} {e : Error} → Fails allowed context s e → decode allowed context s ≡ err e
  Fails-complete (illegal {c} {s} ne a e) =
      decode-illegal allowed context c s (percent_false c ne) a ∙ rw e refl
  Fails-complete (bad_first {c} {s} p n e) =
      rw (p, e) (decode-bad_first allowed context c s (NotHexDigit-to_hex_digit c n))
  Fails-complete (bad_second {c} {d} {s} x p h n e) =
      rw (p, e)
        (decode-bad_second allowed context c d x s (IsHexDigit-to_hex_digit c x h)
          (NotHexDigit-to_hex_digit d n))
  Fails-complete (plain {c} {s} ne a f) =
      decode-plain allowed context c s (percent_false c ne) a ∙ rw (Fails-complete f)
  Fails-complete (encoded {c} {d} {s} x y p hx hy f) = rw p (
      decode-encoded allowed context c d x y s (IsHexDigit-to_hex_digit c x hx)
        (IsHexDigit-to_hex_digit d y hy)
      ∙ rw (Fails-complete f))

  -- The cases of a text that is refused.
  fails_plain :
      (c : ℕ) (s : Text) (e : Error)
      → (decode allowed context s ≡ err e → Fails allowed context s e)
      → (c == b'%') ≡ false
      → decode allowed context (c ∷ s) ≡ err e
      → Fails allowed context (c ∷ s) e
  fails_plain c s e ih q h = elim (Bool-cases (allowed c)) [
    | inl a ↦
        plain (λ k. cc (q, (==_iff c b'%').1 k)) a
          (ih (bind_item-err _ (c % 256) e (sym (decode-plain allowed context c s q a) ∙ h)))
    | inr a ↦
        illegal (λ k. cc (q, (==_iff c b'%').1 k)) a
          (err-eq (sym (decode-illegal allowed context c s q a) ∙ h))
  ]

  fails_first :
      (c : ℕ) (s : Text) (e : Error)
      → to_hex_digit c ≡ none
      → decode allowed context (b'%' ∷ c ∷ s) ≡ err e
      → Fails allowed context (b'%' ∷ c ∷ s) e
  fails_first c s e n h =
      bad_first refl (to_hex_digit-NotHexDigit c n)
        (err-eq (sym (decode-bad_first allowed context c s n) ∙ h))

  fails_encoded :
      (c d : ℕ) (s : Text) (e : Error)
      → (decode allowed context s ≡ err e → Fails allowed context s e)
      → decode allowed context (b'%' ∷ c ∷ d ∷ s) ≡ err e
      → Fails allowed context (b'%' ∷ c ∷ d ∷ s) e
  fails_encoded c d s e ih h = elim (Option-cases (to_hex_digit c)) [
    | inl n ↦ fails_first c (d ∷ s) e n h
    | inr (x, ex) ↦ elim (Option-cases (to_hex_digit d)) [
      | inl n ↦
          bad_second x refl (to_hex_digit-IsHexDigit c x ex) (to_hex_digit-NotHexDigit d n)
            (err-eq (sym (decode-bad_second allowed context c d x s ex n) ∙ h))
      | inr (y, ey) ↦
          encoded x y refl (to_hex_digit-IsHexDigit c x ex) (to_hex_digit-IsHexDigit d y ey) (
            ih (
              bind_item-err _ (x * 16 + y) e
                (sym (decode-encoded allowed context c d x y s ex ey) ∙ h)))
    ]
  ]

  fails_short :
      (c : ℕ) (e : Error)
      → decode allowed context (b'%' ∷ c ∷ []) ≡ err e
      → Fails allowed context (b'%' ∷ c ∷ []) e
  fails_short c e h = elim (Option-cases (to_hex_digit c)) [
    | inl n ↦ fails_first c [] e n h
    | inr (x, ex) ↦ absurd (ok-ne-err (sym (decode-cut_digit allowed context c x ex) ∙ h))
  ]

  percent_sign :
      (p : ℕ) (s : Text) (e : Error)
      → (p == b'%') ≡ true
      → (decode allowed context (b'%' ∷ s) ≡ err e → Fails allowed context (b'%' ∷ s) e)
      → decode allowed context (p ∷ s) ≡ err e
      → Fails allowed context (p ∷ s) e
  percent_sign p s e q = let same : p ≡ b'%' = (==_iff p b'%').0 q in rw same (λ f. f)

  Fails-sound :
      (s : Text) (e : Error) → decode allowed context s ≡ err e → Fails allowed context s e
  Fails-sound [] e h = absurd (ok-ne-err (sym (Decodes-complete allowed context end) ∙ h))
  Fails-sound (p ∷ []) e h = elim (Bool-cases (p == b'%')) [
    | inl q ↦
        percent_sign p [] e q
          (λ k. absurd (ok-ne-err (sym (Decodes-complete allowed context (cut refl)) ∙ k))) h
    | inr q ↦ fails_plain p [] e (Fails-sound [] e) q h
  ]
  Fails-sound (p ∷ c ∷ []) e h = elim (Bool-cases (p == b'%')) [
    | inl q ↦ percent_sign p (c ∷ []) e q (fails_short c e) h
    | inr q ↦ fails_plain p (c ∷ []) e (Fails-sound (c ∷ []) e) q h
  ]
  Fails-sound (p ∷ c ∷ d ∷ s) e h = elim (Bool-cases (p == b'%')) [
    | inl q ↦ percent_sign p (c ∷ d ∷ s) e q (fails_encoded c d s e (Fails-sound s e)) h
    | inr q ↦ fails_plain p (c ∷ d ∷ s) e (Fails-sound (c ∷ d ∷ s) e) q h
  ]

-- Decoding fails with an error exactly if the first wrong character asks for it: `IllegalCharacter` of
-- the context for a character outside the set, and `IllegalPercentEncoding` for one behind a percent
-- sign that is no hexadecimal digit.
pub decode_element-Fails :
    (element : Text) (allowed : CharSet) (context : Context) (e : Error)
    → (decode_element element allowed context ≡ err e) ↔ Fails allowed context element e
unfolding decode_element
decode_element-Fails element allowed context e =
    (Fails-sound allowed context element e, Fails-complete allowed context)
