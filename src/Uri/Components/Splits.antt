-- ===== src/Uri/Components/Splits.antt =====
-- The splits of the parser, by positions, and those by the first delimiter.
use uri.Text.Slices.Until.{drop-find_or_end, take-find_or_end, drop_until, take_until}
use uri.Text.Slices.{find_or_end, find}
use uri.Text.Slices.Laws.{Avoids}
use uri.Prelude.{
  true, length, sym, inr, refl, inl, ap, ◌∙◌, Option, Bool-cases, [], take, zero, none, ◌∷◌, some,
  ◌++◌, ◌||◌, ◌≡◌, suc, drop, Bool, ℕ,
}
use uri.Text.{Text}

drop-suc-drop : (n : ℕ) (s : Text) → drop (suc n) s ≡ drop 1 (drop n s)
drop-suc-drop zero s = refl
drop-suc-drop (suc n) [] = refl
drop-suc-drop (suc n) (c ∷ s) = drop-suc-drop n s

-- At a position that `find` gives, and where it gives none.
module _ (p : ℕ → Bool) where
  find_or_end-some : (s : Text) (n : ℕ) → find p s ≡ some n → find_or_end p s ≡ n
  find_or_end-some s n e = ap (λ r. elim r as (λ _. ℕ) [ some i ↦ i | none ↦ length s ]) e

  pub take-find : (s : Text) (n : ℕ) → find p s ≡ some n → take n s ≡ take_until p s
  take-find s n e = ap (λ m. take m s) (sym (find_or_end-some s n e)) ∙ take-find_or_end p s

  pub drop-find : (s : Text) (n : ℕ) → find p s ≡ some n → drop (suc n) s ≡ drop 1 (drop_until p s)
  drop-find s n e =
      drop-suc-drop n s
      ∙ ap (λ m. drop 1 (drop m s)) (sym (find_or_end-some s n e))
      ∙ ap (drop 1) (drop-find_or_end p s)

  pub Avoids-find : (s : Text) → find p s ≡ none → Avoids p s
  unfolding find
  Avoids-find [] e = tt
  Avoids-find (c ∷ s) e = elim (Bool-cases (p c)) [
    | inl h ↦ cc (rw h at e)
    | inr h ↦ (h, Avoids-find s (behind (find p s) (rw h at e)))
  ]
    where
      behind :
          (r : Option ℕ)
          → (elim r as (λ _. Option ℕ) [ none ↦ none | some i ↦ some (suc i) ]) ≡ none
          → r ≡ none
      behind none e = refl
      behind (some i) e = cc

  -- What is found is the first character that passes the test.
  pub found-cons :
      (s : Text) (n : ℕ)
      → find p s ≡ some n
      → (c : ℕ) × (r : Text) × (drop_until p s ≡ c ∷ r) × (p c ≡ true)
  unfolding find
  found-cons [] n e = cc
  found-cons (c ∷ s) n e = elim (Bool-cases (p c)) [
    | inl h ↦ (c, s, rw h refl, h)
    | inr h ↦ rw h (go (find p s) refl (rw h at e) (found-cons s))
  ]
    where
      go :
          (r : Option ℕ)
          → find p s ≡ r
          → (elim r as (λ _. Option ℕ) [ none ↦ none | some i ↦ some (suc i) ]) ≡ some n
          → ((m : ℕ)
              → find p s ≡ some m
              → (c : ℕ) × (r : Text) × (drop_until p s ≡ c ∷ r) × (p c ≡ true))
          → (c : ℕ) × (r : Text) × (drop_until p s ≡ c ∷ r) × (p c ≡ true)
      go none d e ih = cc
      go (some i) d e ih = ih i d

  pub take_until-Avoids : (s : Text) → Avoids p s → take_until p s ≡ s
  take_until-Avoids [] h = refl
  take_until-Avoids (c ∷ s) (h, hs) = rw h (ap (◌∷◌ c) (take_until-Avoids s hs))

  pub drop_until-Avoids : (s : Text) → Avoids p s → drop_until p s ≡ []
  drop_until-Avoids [] h = refl
  drop_until-Avoids (c ∷ s) (h, hs) = rw h (drop_until-Avoids s hs)

  pub Avoids-take_until : (s : Text) → Avoids p (take_until p s)
  Avoids-take_until [] = tt
  Avoids-take_until (c ∷ s) = elim (Bool-cases (p c)) [
    | inl e ↦ rw e tt
    | inr e ↦ rw e (e, Avoids-take_until s)
  ]

  pub take_until-drop_until : (s : Text) → take_until p s ++ drop_until p s ≡ s
  take_until-drop_until [] = refl
  take_until-drop_until (c ∷ s) = elim (Bool-cases (p c)) [
    | inl e ↦ rw e refl
    | inr e ↦ rw e (ap (◌∷◌ c) (take_until-drop_until s))
  ]

-- Up to the first of two delimiters, in two steps.
module _ (p q both : ℕ → Bool) (either : (c : ℕ) → both c ≡ (p c || q c)) where
  pub take_until_both : (s : Text) → take_until p (take_until q s) ≡ take_until both s
  take_until_both [] = refl
  take_until_both (c ∷ s) = elim (Bool-cases (q c)) [
    | inl e ↦ elim (Bool-cases (p c)) [
      | inl d ↦ rw (either c, e, d) refl
      | inr d ↦ rw (either c, e, d) refl
    ]
    | inr e ↦ elim (Bool-cases (p c)) [
      | inl d ↦ rw (either c, e, d) refl
      | inr d ↦ rw (either c, e, d) (ap (◌∷◌ c) (take_until_both s))
    ]
  ]

  pub drop_until_both :
      (s : Text) → drop_until p (take_until q s) ≡ take_until q (drop_until both s)
  drop_until_both [] = refl
  drop_until_both (c ∷ s) = elim (Bool-cases (q c)) [
    | inl e ↦ elim (Bool-cases (p c)) [
      | inl d ↦ rw (either c, e, d) (rw e refl)
      | inr d ↦ rw (either c, e, d) (rw e refl)
    ]
    | inr e ↦ elim (Bool-cases (p c)) [
      | inl d ↦ rw (either c, e, d) (rw e refl)
      | inr d ↦ rw (either c, e, d) (drop_until_both s)
    ]
  ]
