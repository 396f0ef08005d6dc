-- ===== src/Text/Slices/Laws.antt =====
-- `find`, `split` and slices on a text that is put together.
use uri.Text.{Text}
use uri.Prelude.{
  zero, inr, inl, Bool-cases, Option, suc, take, ℕ, ◌≡◌, refl, none, some, arith, true, false, Bool,
  ◌∷◌, [], ◌++◌, List, All, length, ◌==◌,
}
use uri.Text.Slices.{find, split}

-- No character passes the test.
abbrev pub Avoids : (ℕ → Bool) → List ℕ → Type 0
Avoids p = All (λ c. p c ≡ false)

pub find-append :
    (p : ℕ → Bool) (s t : List ℕ) (c : ℕ)
    → Avoids p s
    → p c ≡ true
    → find p (s ++ c ∷ t) ≡ some (length s)
unfolding find
find-append p [] t c _ h = ground arith
find-append p (d ∷ s) t c (hd, hs) h = ground (arith, find-append p s t c hs h)

pub find-eq-none : (p : ℕ → Bool) (s : List ℕ) → Avoids p s → find p s ≡ none
unfolding find
find-eq-none p [] _ = refl
find-eq-none p (d ∷ s) (hd, hs) = ground (arith, find-eq-none p s hs)

-- The parts of a split: up to the first separator, and behind it.
pub split-append :
    (sep : ℕ) (s t : List ℕ) → Avoids (λ c. c == sep) s → split sep (s ++ sep ∷ t) ≡ s ∷ split sep t
unfolding split
split-append sep [] t _ = ground arith
split-append sep (d ∷ s) t (hd, hs) = ground (arith, split-append sep s t hs)

pub split-one : (sep : ℕ) (s : List ℕ) → Avoids (λ c. c == sep) s → split sep s ≡ s ∷ []
unfolding split
split-one sep [] _ = refl
split-one sep (d ∷ s) (hd, hs) = ground (arith, split-one sep s hs)

pub find-take :
    (p : ℕ → Bool) (m : ℕ) (s : Text) (n : ℕ) → find p (take m s) ≡ some n → find p s ≡ some n
unfolding find
find-take p zero [] n e = cc
find-take p zero (c ∷ s) n e = cc
find-take p (suc m) [] n e = cc
find-take p (suc m) (c ∷ s) n e = elim (Bool-cases (p c)) [
  | inl h ↦ rw h (rw h at e)
  | inr h ↦ rw h (go (find p (take m s)) refl (find-take p m s) (rw h at e))
]
  where
    go :
        (r : Option ℕ)
        → find p (take m s) ≡ r
        → ((k : ℕ) → find p (take m s) ≡ some k → find p s ≡ some k)
        → (elim r as (λ _. Option ℕ) [ none ↦ none | some i ↦ some (suc i) ]) ≡ some n
        → (elim (find p s) as (λ _. Option ℕ) [ none ↦ none | some i ↦ some (suc i) ]) ≡ some n
    go none d ih e = cc
    go (some i) d ih e = rw (ih i d) e
