-- ===== src/Uri/Components/Total.antt =====
-- src/uri.rs: `Uri::parse` on any text, against the decomposition of RFC 3986 (appendix B).
use uri.Uri.Components.Splits.{Avoids-take_until, take-find, Avoids-find}
use uri.CharacterClasses.{scheme_not_first, alpha}
use uri.Text.Slices.Until.{take-find_or_end}
use uri.Uri.Schemes.{check_scheme-cases, IsSchemeText}
use uri.Text.Slices.Laws.{Avoids}
use uri.Text.Slices.{find_or_end, find}
use uri.Uri.Components.{components, assemble}
use uri.Uri.Data.{Uri}
use uri.Uri.Components.Scheme.{parse-assemble, IsClear}
use uri.Prelude.{
  none, [], if◌then◌else◌, suc, ◌∙◌, refl, sym, Bool-cases, take, inr, ◌==◌, some, inl, ◌∷◌, ◌⊎◌,
  ◌++◌, ◌≡◌, Option, ℕ,
}
use uri.Error.{
  panic, bind-eq-ok, ◌>>=◌, Context, illegal_character, ok, err, empty_scheme, Result, Error,
}
use uri.Text.{Text}
use uri.Text.Slices.Laws.{find-take}
use uri.Uri.Components.Clear.{take-Avoids, colon_at, spelled}
use uri.Uri.Parse.{parse_scheme, check_scheme_from, check_scheme, parse}
use uri.Uri.Cut.{cut_uri, cut_scheme}
use uri.Uri.Slices.{parse-cut_uri, parse_scheme-cut_scheme}

-- The errors of a scheme that is no scheme.
abbrev SchemeError : Error → Type 0
SchemeError e = (e ≡ empty_scheme) ⊎ (e ≡ illegal_character Context.scheme)

check_scheme_from-error :
    (i : ℕ) (s : Text) {e : Error}
    → check_scheme_from i s ≡ err e
    → e ≡ illegal_character Context.scheme
unfolding check_scheme_from
check_scheme_from-error i [] h = absurd (let bad : ⊥ = cc in bad)
check_scheme_from-error i (c ∷ s) h =
    elim (Bool-cases (if i == 0 then alpha c else scheme_not_first c)) [
      | inl k ↦ check_scheme_from-error (suc i) s (rw (check_scheme_from, k) at h)
      | inr k ↦ cc (rw (check_scheme_from, k) at h)
    ]

check_scheme-error : (s : Text) {e : Error} → check_scheme s ≡ err e → SchemeError e
unfolding check_scheme
check_scheme-error [] h = inl cc
check_scheme-error (c ∷ s) h = go (check_scheme_from 0 (c ∷ s)) refl h
  where
    go :
        (r : Result Error (Unit {0})) {e : Error}
        → check_scheme_from 0 (c ∷ s) ≡ r
        → (r >>= λ _. ok (c ∷ s)) ≡ err e
        → SchemeError e
    go (ok u) d h = absurd (let bad : ⊥ = cc in bad)
    go (err x) {e} d h =
        let same : x ≡ e = cc (h) in inr (sym same ∙ check_scheme_from-error 0 (c ∷ s) d)
    go panic d h = absurd (let bad : ⊥ = cc in bad)

-- The text in front of the first colon is no scheme, though no slash stands in it.
pub record SchemeFails (s : Text) : Type 0 where
  pub front : Text
  pub rest : Text
  pub spells : s ≡ front ++ (b':' ∷ rest)
  pub no_colon : Avoids (λ c. c == b':') front
  pub no_slash : Avoids (λ c. c == b'/') front
  pub not_scheme : ¬ IsSchemeText front
  pub reason : Error
  pub scheme_error : SchemeError reason
  pub fails : parse_scheme s ≡ err reason

-- A text is clear, or its scheme is refused.
cut_scheme-cases : (s : Text) → IsClear s ⊎ SchemeFails s
cut_scheme-cases s = go (find (λ c. c == b':') (take (find_or_end (λ c. c == b'/') s) s)) refl
  where
    go :
        (m : Option ℕ)
        → find (λ c. c == b':') (take (find_or_end (λ c. c == b'/') s) s) ≡ m
        → IsClear s ⊎ SchemeFails s
    go none e =
        inl (inl (rw (take-find_or_end (λ c. c == b'/') s) at (Avoids-find (λ c. c == b':') _ e)))
    go (some n) e =
        let at = find-take (λ c. c == b':') _ s n e in
        let (rest, spells) = colon_at s n at in
        elim (check_scheme-cases (take n s)) [
          | inl (_, q) ↦ inl (spelled s (take n s) rest spells q)
          | inr (bad, x, q) ↦ inr (record {
            front = take n s;
            rest = rest;
            spells = spells;
            no_colon =
                rw (take-find (λ c. c == b':') s n at) (Avoids-take_until (λ c. c == b':') s);
            no_slash =
                take-Avoids (λ c. c == b':') (λ c. c == b'/') s n
                  (rw (take-find_or_end (λ c. c == b'/') s) at e);
            not_scheme = bad;
            reason = x;
            scheme_error = check_scheme-error (take n s) q;
            fails = unfold cut_scheme in rw (parse_scheme-cut_scheme, cut_scheme, e, q);
          })
        ]

pub cut_scheme-IsClear : (s : Text) (r : Option Text × Text) → cut_scheme s ≡ ok r → IsClear s
cut_scheme-IsClear s r h = elim (cut_scheme-cases s) [
  | inl c ↦ c
  | inr f ↦ absurd (let bad : ⊥ = cc (f.fails, h, parse_scheme-cut_scheme s) in bad)
]

-- Whatever URI the parser returns is the one that RFC 3986 decomposes the text to (appendix B), with
-- each component checked and decoded by itself.
pub parse-Components : (s : Text) (u : Uri) → parse s ≡ ok u → assemble (components s) ≡ ok u
unfolding cut_uri
parse-Components s u h =
    let (r, e, _) = bind-eq-ok (cut_scheme s) _ (sym (parse-cut_uri s) ∙ h) in
    sym (parse-assemble s (cut_scheme-IsClear s r e)) ∙ h

-- Parsing a text is decomposing it as RFC 3986 does (appendix B) and checking and decoding each
-- component, errors included; or a colon stands behind characters that are no scheme, with no slash
-- among them, and the error is that of an empty scheme or of an illegal character in a scheme.
pub parse-cases :
    (s : Text)
    → (parse s ≡ assemble (components s)) ⊎ ((h : SchemeFails s) × (parse s ≡ err h.reason))
unfolding cut_uri
parse-cases s = elim (cut_scheme-cases s) [
  | inl c ↦ inl (parse-assemble s c)
  | inr h ↦ inr (h, parse-cut_uri s ∙ rw (sym (parse_scheme-cut_scheme s) ∙ h.fails) refl)
]
