-- ===== src/Text/Slices/Until.antt =====
-- The slices up to the first character that passes a test, and from there on.
use uri.Prelude.{
  inr, inl, Bool-cases, arith, refl, [], ap, true, if◌then◌else◌, ◌≡◌, ◌++◌, drop, take, ◌∷◌, List,
  Bool, ℕ,
}
use uri.Text.Slices.{find, find_or_end}
use uri.Text.Slices.Laws.{Avoids}

abbrev pub take_until : (ℕ → Bool) → List ℕ → List ℕ
take_until p [] = []
take_until p (c ∷ s) = if p c then [] else c ∷ take_until p s

abbrev pub drop_until : (ℕ → Bool) → List ℕ → List ℕ
drop_until p [] = []
drop_until p (c ∷ s) = if p c then c ∷ s else drop_until p s

pub take-find_or_end : (p : ℕ → Bool) (s : List ℕ) → take (find_or_end p s) s ≡ take_until p s
unfolding find
take-find_or_end p [] = refl
take-find_or_end p (c ∷ s) = ground (arith, take-find_or_end p s)

pub drop-find_or_end : (p : ℕ → Bool) (s : List ℕ) → drop (find_or_end p s) s ≡ drop_until p s
unfolding find
drop-find_or_end p [] = refl
drop-find_or_end p (c ∷ s) = ground (arith, drop-find_or_end p s)

-- The text is empty or begins with a character that passes the test.
abbrev pub Begins : (ℕ → Bool) → List ℕ → Type 0
Begins p [] = Unit
Begins p (c ∷ s) = p c ≡ true

pub drop_until-Begins : (p : ℕ → Bool) (s : List ℕ) → Begins p (drop_until p s)
drop_until-Begins p [] = tt
drop_until-Begins p (c ∷ s) = elim (Bool-cases (p c)) [
  | inl e ↦ rw e e
  | inr e ↦ rw e (drop_until-Begins p s)
]

pub take_until-append :
    (p : ℕ → Bool) (s t : List ℕ) → Avoids p s → Begins p t → take_until p (s ++ t) ≡ s
take_until-append p [] [] a b = refl
take_until-append p [] (c ∷ t) a b = rw b
take_until-append p (c ∷ s) t (h, a) b = rw h (ap (◌∷◌ c) (take_until-append p s t a b))

pub drop_until-append :
    (p : ℕ → Bool) (s t : List ℕ) → Avoids p s → Begins p t → drop_until p (s ++ t) ≡ t
drop_until-append p [] [] a b = refl
drop_until-append p [] (c ∷ t) a b = rw b
drop_until-append p (c ∷ s) t (h, a) b = rw h (drop_until-append p s t a b)

-- Past a beginning without the character.
pub take_until-prefix :
    (p : ℕ → Bool) (s t : List ℕ) → Avoids p s → take_until p (s ++ t) ≡ s ++ take_until p t
take_until-prefix p [] t a = refl
take_until-prefix p (c ∷ s) t (h, a) = rw h (ap (◌∷◌ c) (take_until-prefix p s t a))
