-- ===== src/Codec/Grammar.antt =====
-- src/codec.rs: the texts that `decode_element` accepts, and what they stand for.
use mathlib.Core.Path.{subst}
use uri.PercentEncodedCharacterDecoder.Digits.{next-half_read, half_read, to_hex_digit-lt, next-new}
use uri.CharacterClasses.{CharSet}
use uri.Text.Numbers.{to_hex_digit}
use uri.Prelude.{
  inr, inl, sym, ◌↔◌, ==_iff, Bool-cases, Option-cases, refl, ◌∙◌, ◌*◌, ◌≤◌, ◌%◌, ◌∷◌, arith, ◌⊎◌,
  true, ◌≢◌, false, ◌+◌, some, none, ◌<◌, [], ◌≡◌, ◌==◌, ℕ,
}
use uri.Text.{Text, Bytes}
use uri.Codec.{decode_element, decode_from, not_decoding}
use uri.PercentEncodedCharacterDecoder as Pec
use uri.Error.{
  bind-eq-ok, ◌>>=◌, Context, Error, illegal_percent_encoding, illegal_character, Result, ok, err,
}

-- A hexadecimal digit of either case, and its value.
abbrev pub IsHexDigit : ℕ → ℕ → Type 0
IsHexDigit c d =
    ((d < 10) × (c ≡ b'0' + d))
    ⊎ ((10 ≤ d) × (d < 16) × ((c + 10 ≡ b'A' + d) ⊎ (c + 10 ≡ b'a' + d)))

-- A character of the set stands for itself and a percent sign with two digits for a byte. An encoding
-- that the end of the text cuts off stands for nothing.
pub data Decodes (allowed : CharSet) : Text → Bytes → Type 0 where
  end : Decodes allowed [] []
  plain :
      {c b : ℕ} {s : Text} {bs : Bytes}
      → c ≢ b'%'
      → allowed c ≡ true
      → b ≡ c % 256
      → Decodes allowed s bs
      → Decodes allowed (c ∷ s) (b ∷ bs)
  encoded :
      {p c d b : ℕ} {s : Text} {bs : Bytes} (x y : ℕ)
      → p ≡ b'%'
      → IsHexDigit c x
      → IsHexDigit d y
      → b ≡ x * 16 + y
      → Decodes allowed s bs
      → Decodes allowed (p ∷ c ∷ d ∷ s) (b ∷ bs)
  cut : {p : ℕ} → p ≡ b'%' → Decodes allowed (p ∷ []) []
  cut_digit : {p c : ℕ} (x : ℕ) → p ≡ b'%' → IsHexDigit c x → Decodes allowed (p ∷ c ∷ []) []

pub to_hex_digit-IsHexDigit : (c d : ℕ) → to_hex_digit c ≡ some d → IsHexDigit c d
unfolding to_hex_digit
to_hex_digit-IsHexDigit c d h = ground arith

pub IsHexDigit-to_hex_digit : (c d : ℕ) → IsHexDigit c d → to_hex_digit c ≡ some d
unfolding to_hex_digit
IsHexDigit-to_hex_digit c d h = ground arith

pub next-none :
    (d : Pec.PercentEncodedCharacterDecoder) (c : ℕ)
    → to_hex_digit c ≡ none
    → Pec.next d c ≡ (Pec.new, err illegal_percent_encoding)
unfolding Pec.next
next-none d c e = ground arith

ok-eq : {bs bs' : Bytes} → ◌≡◌ {A = Result Error Bytes} (ok bs) (ok bs') → bs ≡ bs'
ok-eq e = cc

err-ne-ok : {e : Error} {bs : Bytes} → ◌≡◌ {A = Result Error Bytes} (err e) (ok bs) → ⊥
err-ne-ok e = cc

module _ (allowed : CharSet) (context : Context) where
  abbrev pub decode : Text → Result Error Bytes
  decode = decode_from allowed context not_decoding

  pub decode-encoded :
      (c d x y : ℕ) (s : Text)
      → to_hex_digit c ≡ some x
      → to_hex_digit d ≡ some y
      → decode (b'%' ∷ c ∷ d ∷ s) ≡ (decode s >>= λ bs. ok ((x * 16 + y) ∷ bs))
  unfolding decode_from
  decode-encoded c d x y s ex ey =
      let hx = to_hex_digit-lt c x ex in
      let hy = to_hex_digit-lt d y ey in
      rw (next-new c x hx ex) (rw (next-half_read d x y hx hy ey))

  pub decode-cut_digit : (c x : ℕ) → to_hex_digit c ≡ some x → decode (b'%' ∷ c ∷ []) ≡ ok []
  unfolding decode_from
  decode-cut_digit c x e = rw (next-new c x (to_hex_digit-lt c x e) e)

  pub decode-bad_first :
      (c : ℕ) (s : Text)
      → to_hex_digit c ≡ none
      → decode (b'%' ∷ c ∷ s) ≡ err illegal_percent_encoding
  unfolding decode_from
  decode-bad_first c s e = rw (next-none Pec.new c e)

  pub decode-bad_second :
      (c d x : ℕ) (s : Text)
      → to_hex_digit c ≡ some x
      → to_hex_digit d ≡ none
      → decode (b'%' ∷ c ∷ d ∷ s) ≡ err illegal_percent_encoding
  unfolding decode_from
  decode-bad_second c d x s ex e =
      rw (next-new c x (to_hex_digit-lt c x ex) ex) (rw (next-none (half_read x) d e))

  pub decode-plain :
      (c : ℕ) (s : Text)
      → (c == b'%') ≡ false
      → allowed c ≡ true
      → decode (c ∷ s) ≡ (decode s >>= λ bs. ok ((c % 256) ∷ bs))
  unfolding decode_from
  decode-plain c s e a = rw (e, a)

  pub decode-illegal :
      (c : ℕ) (s : Text)
      → (c == b'%') ≡ false
      → allowed c ≡ false
      → decode (c ∷ s) ≡ err (illegal_character context)
  unfolding decode_from
  decode-illegal c s e a = rw (e, a)

  pub Decodes-complete : {s : Text} {bs : Bytes} → Decodes allowed s bs → decode s ≡ ok bs
  Decodes-complete end = unfold decode_from in refl
  Decodes-complete (plain {c} {s} ne a e d) =
      let other : (c == b'%') ≡ false = ground (arith, ne) in
      decode-plain c s other a ∙ rw (Decodes-complete d, e)
  Decodes-complete (encoded {c} {d} {s} x y e hx hy eb r) = rw e (
      decode-encoded c d x y s (IsHexDigit-to_hex_digit c x hx) (IsHexDigit-to_hex_digit d y hy)
      ∙ rw (Decodes-complete r, eb))
  Decodes-complete (cut e) = rw e (unfold decode_from in refl)
  Decodes-complete (cut_digit {c} x e h) =
      rw e (decode-cut_digit c x (IsHexDigit-to_hex_digit c x h))

  -- The cases of a text that is decoded.
  sound_plain :
      (p : ℕ) (s : Text) (bs : Bytes)
      → ((bs' : Bytes) → decode s ≡ ok bs' → Decodes allowed s bs')
      → (p == b'%') ≡ false
      → decode (p ∷ s) ≡ ok bs
      → Decodes allowed (p ∷ s) bs
  sound_plain p s bs ih e h = elim (Bool-cases (allowed p)) [
    | inl a ↦
        let (bs', first, last) = bind-eq-ok (decode s) _ (sym (decode-plain p s e a) ∙ h) in
        subst (Decodes allowed (p ∷ s)) (ok-eq last)
          (plain (λ q. cc (e, (==_iff p b'%').1 q)) a refl (ih bs' first))
    | inr a ↦ absurd (err-ne-ok (sym (decode-illegal p s e a) ∙ h))
  ]

  sound_encoded :
      (c d : ℕ) (s : Text) (bs : Bytes)
      → ((bs' : Bytes) → decode s ≡ ok bs' → Decodes allowed s bs')
      → decode (b'%' ∷ c ∷ d ∷ s) ≡ ok bs
      → Decodes allowed (b'%' ∷ c ∷ d ∷ s) bs
  sound_encoded c d s bs ih h = elim (Option-cases (to_hex_digit c)) [
    | inl e ↦ absurd (err-ne-ok (sym (decode-bad_first c (d ∷ s) e) ∙ h))
    | inr (x, ex) ↦ elim (Option-cases (to_hex_digit d)) [
      | inl e ↦ absurd (err-ne-ok (sym (decode-bad_second c d x s ex e) ∙ h))
      | inr (y, ey) ↦
          let (bs', first, last) =
            bind-eq-ok (decode s) _ (sym (decode-encoded c d x y s ex ey) ∙ h) in
          subst (Decodes allowed (b'%' ∷ c ∷ d ∷ s)) (ok-eq last) (
            encoded x y refl (to_hex_digit-IsHexDigit c x ex) (to_hex_digit-IsHexDigit d y ey) refl
              (ih bs' first))
    ]
  ]

  sound_cut_digit :
      (c : ℕ) (bs : Bytes) → decode (b'%' ∷ c ∷ []) ≡ ok bs → Decodes allowed (b'%' ∷ c ∷ []) bs
  sound_cut_digit c bs h = elim (Option-cases (to_hex_digit c)) [
    | inl e ↦ absurd (err-ne-ok (sym (decode-bad_first c [] e) ∙ h))
    | inr (x, ex) ↦
        subst (Decodes allowed (b'%' ∷ c ∷ [])) (ok-eq (sym (decode-cut_digit c x ex) ∙ h))
          (cut_digit x refl (to_hex_digit-IsHexDigit c x ex))
  ]

  is_percent :
      (p : ℕ) (s : Text) (bs : Bytes)
      → (p == b'%') ≡ true
      → (decode (b'%' ∷ s) ≡ ok bs → Decodes allowed (b'%' ∷ s) bs)
      → decode (p ∷ s) ≡ ok bs
      → Decodes allowed (p ∷ s) bs
  is_percent p s bs e = let same : p ≡ b'%' = (==_iff p b'%').0 e in rw same (λ f. f)

  Decodes-sound : (s : Text) (bs : Bytes) → decode s ≡ ok bs → Decodes allowed s bs
  Decodes-sound [] bs h = subst (Decodes allowed []) (ok-eq (sym (Decodes-complete end) ∙ h)) end
  Decodes-sound (p ∷ []) bs h = elim (Bool-cases (p == b'%')) [
    | inl e ↦
        is_percent p [] bs e
          (λ k.
            subst (Decodes allowed (b'%' ∷ [])) (ok-eq (sym (Decodes-complete (cut refl)) ∙ k))
              (cut refl))
          h
    | inr e ↦ sound_plain p [] bs (Decodes-sound []) e h
  ]
  Decodes-sound (p ∷ c ∷ []) bs h = elim (Bool-cases (p == b'%')) [
    | inl e ↦ is_percent p (c ∷ []) bs e (sound_cut_digit c bs) h
    | inr e ↦ sound_plain p (c ∷ []) bs (Decodes-sound (c ∷ [])) e h
  ]
  Decodes-sound (p ∷ c ∷ d ∷ s) bs h = elim (Bool-cases (p == b'%')) [
    | inl e ↦ is_percent p (c ∷ d ∷ s) bs e (sound_encoded c d s bs (Decodes-sound s)) h
    | inr e ↦ sound_plain p (c ∷ d ∷ s) bs (Decodes-sound (c ∷ d ∷ s)) e h
  ]

-- Decoding succeeds with some bytes exactly if the text stands for them: a character of the set for
-- itself, a percent sign and two hexadecimal digits for a byte, and an encoding that the end of the
-- text cuts off for nothing.
pub decode_element-Decodes :
    (element : Text) (allowed : CharSet) (context : Context) (bs : Bytes)
    → (decode_element element allowed context ≡ ok bs) ↔ Decodes allowed element bs
unfolding decode_element
decode_element-Decodes element allowed context bs =
    (Decodes-sound allowed context element bs, Decodes-complete allowed context)
