-- ===== src/Uri/Components/Clear.antt =====
-- src/uri.rs: the scheme where `Uri::parse` looks for it, and where it finds none.
use uri.Text.Slices.Until.{take_until}
use uri.CharacterClasses.Delimiters.{scheme_char}
use uri.Uri.Components.{ends_scheme}
use uri.Uri.Pieces.{check_scheme-chars}
use uri.Text.Slices.Laws.{Avoids}
use uri.Uri.Components.Splits.{take_until-drop_until, take-find, found-cons}
use uri.CharacterClasses.{scheme_not_first}
use uri.Error.{ok}
use uri.Prelude.{
  false, Bool-cases, none, inl, ◌∙◌, sym, refl, arith, suc, [], inr, true, some, take, ◌≢◌, ◌∷◌,
  ◌==◌, Bool, ◌++◌, All, ◌≡◌, Option, ℕ,
}
use uri.Uri.Parse.{check_scheme}
use uri.Text.{Text}
use uri.Text.Slices.{find}
use uri.Uri.Components.Scheme.{IsClear}

scheme_chars-Avoids : (s : Text) → All (λ c. scheme_not_first c ≡ true) s → Avoids ends_scheme s
scheme_chars-Avoids [] h = tt
scheme_chars-Avoids (c ∷ s) (h, hs) =
    let (slash, colon, question, hash) = scheme_char c h in
    (rw (slash, colon, question, hash) refl, scheme_chars-Avoids s hs)

check_scheme-ne_nil : (s : Text) {t : Text} → check_scheme s ≡ ok t → s ≢ []
unfolding check_scheme
check_scheme-ne_nil [] h = cc
check_scheme-ne_nil (c ∷ s) h = λ e. cc

pub take-Avoids :
    (p q : ℕ → Bool) (s : Text) (n : ℕ) → find p (take_until q s) ≡ some n → Avoids q (take n s)
unfolding find
take-Avoids p q [] n e = absurd (let bad : ⊥ = cc in bad)
take-Avoids p q (c ∷ s) n e = elim (Bool-cases (q c)) [
  | inl k ↦ absurd (let bad : ⊥ = cc (rw k at e) in bad)
  | inr k ↦ elim (Bool-cases (p c)) [
    | inl h ↦ let zeroth : n ≡ 0 = cc (rw (k, h) at e) in rw zeroth tt
    | inr h ↦ go (find p (take_until q s)) refl n (take-Avoids p q s) (rw (k, h) at e) k
  ]
]
  where
    go :
        (r : Option ℕ)
        → find p (take_until q s) ≡ r
        → (n : ℕ) → ((m : ℕ) → find p (take_until q s) ≡ some m → Avoids q (take m s))
        → (elim r as (λ _. Option ℕ) [ none ↦ none | some i ↦ some (suc i) ]) ≡ some n
        → q c ≡ false
        → Avoids q (take n (c ∷ s))
    go none d n ih e k = absurd (let bad : ⊥ = cc in bad)
    go (some i) d n ih e k = let next_one : n ≡ suc i = cc (e) in rw next_one (k, ih i d)

pub spelled :
    (s scheme rest : Text) {t : Text}
    → s ≡ scheme ++ (b':' ∷ rest)
    → check_scheme scheme ≡ ok t
    → IsClear s
spelled s scheme rest e h = inr (record {
  scheme = scheme;
  rest = rest;
  spells = e;
  clear = scheme_chars-Avoids scheme (check_scheme-chars scheme h);
  ne_nil = check_scheme-ne_nil scheme h;
})

pub colon_at :
    (s : Text) (n : ℕ)
    → find (λ c. c == b':') s ≡ some n
    → (rest : Text) × (s ≡ take n s ++ (b':' ∷ rest))
colon_at s n e =
    let (c, rest, behind, is_colon) = found-cons (λ c. c == b':') s n e in
    let colon : c ≡ b':' = ground arith in
    let front = take-find (λ c. c == b':') s n e in
    (rest, sym (take_until-drop_until (λ c. c == b':') s) ∙ rw (behind, colon, front) refl)
