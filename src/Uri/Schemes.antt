-- ===== src/Uri/Schemes.antt =====
-- src/uri.rs: the schemes that `check_scheme` accepts, for the parser and `set_scheme`.
use uri.Uri.Pieces.{IsScheme}
use uri.Text.Slices.{find_or_end, find}
use uri.Error.Ensures.{Ensures-ne-panic, bind-Ensures, Ensures}
use uri.Text.{lowercase, Text, to_lower}
use uri.Uri.Parse.{set_scheme, check_scheme, check_scheme_from}
use uri.Uri.Cut.{cut_scheme}
use uri.Prelude.{
  false, ◌⊎◌, inr, take, inl, none, refl, if◌then◌else◌, ◌==◌, Bool-cases, true, arith, [], suc,
  ◌∷◌, All, some, ◌≡◌, Option, ℕ,
}
use uri.CharacterClasses.{alpha, scheme_not_first}
use uri.Error.{empty_scheme, illegal_character, panic, err, ◌>>=◌, Error, Result, ok, Context}
use uri.Uri.Data.{Uri}

-- `ALPHA *( ALPHA / DIGIT / "+" / "-" / "." )`
abbrev pub IsSchemeText : Text → Type 0
IsSchemeText [] = ⊥
IsSchemeText (c ∷ s) = (alpha c ≡ true) × All (λ d. scheme_not_first d ≡ true) s

-- Behind the first character.
check_scheme_from-cases :
    (i : ℕ) (s : Text)
    → (All (λ d. scheme_not_first d ≡ true) s × (check_scheme_from (suc i) s ≡ ok tt))
      ⊎ (¬ All (λ d. scheme_not_first d ≡ true) s
          × (check_scheme_from (suc i) s ≡ err (illegal_character Context.scheme)))
unfolding check_scheme_from
check_scheme_from-cases i [] = inl (tt, refl)
check_scheme_from-cases i (c ∷ s) =
    let later : (suc i == 0) ≡ false = ground arith in
    elim (Bool-cases (scheme_not_first c)) [
      | inl e ↦ elim (check_scheme_from-cases (suc i) s) [
        | inl (h, q) ↦ inl ((e, h), rw (later, e, q))
        | inr (n, q) ↦ inr (λ (_, hs). n hs, rw (later, e, q))
      ]
      | inr e ↦ inr (λ (h, _). cc (h, e), rw (later, e))
    ]

pub check_scheme-cases :
    (s : Text)
    → (IsSchemeText s × (check_scheme s ≡ ok s))
      ⊎ (¬ IsSchemeText s × (e : Error) × (check_scheme s ≡ err e))
unfolding check_scheme check_scheme_from
check_scheme-cases [] = inr (λ h. h, empty_scheme, refl)
check_scheme-cases (c ∷ s) = elim (Bool-cases (alpha c)) [
  | inl e ↦ elim (check_scheme_from-cases 0 s) [
    | inl (h, q) ↦ inl ((e, h), rw (e, q))
    | inr (n, q) ↦ inr (λ (_, hs). n hs, illegal_character Context.scheme, rw (e, q))
  ]
  | inr e ↦ inr (λ (h, _). cc (h, e), illegal_character Context.scheme, rw e)
]

-- `set_scheme` takes a scheme exactly if it is a letter with letters, digits, `+`, `-` and `.` behind
-- it: then the scheme is replaced as it is given, and otherwise the call fails and leaves the URI as
-- it was.
pub set_scheme-cases :
    (u : Uri) (s : Text)
    → (IsSchemeText s × (set_scheme u (some s) ≡ (record u { scheme = some s }, ok tt)))
      ⊎ (¬ IsSchemeText s × (e : Error) × (set_scheme u (some s) ≡ (u, err e)))
unfolding set_scheme
set_scheme-cases u s = elim (check_scheme-cases s) [
  | inl (h, q) ↦ inl (h, rw (q, set_scheme))
  | inr (n, e, q) ↦ inr (n, e, rw (q, set_scheme))
]

alpha-to_lower : (c : ℕ) → alpha (to_lower c) ≡ alpha c
unfolding alpha to_lower
alpha-to_lower c = ground arith

scheme_not_first-to_lower : (c : ℕ) → scheme_not_first (to_lower c) ≡ scheme_not_first c
unfolding scheme_not_first to_lower
scheme_not_first-to_lower c = ground arith

to_lower_idem : (c : ℕ) → to_lower (to_lower c) ≡ to_lower c
unfolding to_lower
to_lower_idem c = ground arith

lowercase_idem : (s : Text) → lowercase (lowercase s) ≡ lowercase s
lowercase_idem [] = refl
lowercase_idem (c ∷ s) = rw (to_lower_idem c, lowercase_idem s)

check_scheme_from-lowercase :
    (i : ℕ) (s : Text) → check_scheme_from i (lowercase s) ≡ check_scheme_from i s
unfolding check_scheme_from
check_scheme_from-lowercase i [] = refl
check_scheme_from-lowercase i (c ∷ s) =
    rw (alpha-to_lower c, scheme_not_first-to_lower c, check_scheme_from-lowercase (suc i) s)

check_scheme_from-Ensures : (i : ℕ) (s : Text) → Ensures (λ _. Unit) (check_scheme_from i s)
unfolding check_scheme_from
check_scheme_from-Ensures i [] = tt
check_scheme_from-Ensures i (c ∷ s) =
    elim (Bool-cases (if i == 0 then alpha c else scheme_not_first c)) [
      | inl e ↦ rw e (check_scheme_from-Ensures (suc i) s)
      | inr e ↦ rw e tt
    ]

-- A legal scheme is one in lower case too.
pub check_scheme-Ensures : (s : Text) → Ensures (λ t. IsScheme (lowercase t)) (check_scheme s)
unfolding check_scheme
check_scheme-Ensures [] = tt
check_scheme-Ensures (c ∷ s) = go (check_scheme_from 0 (c ∷ s)) refl
  where
    go :
        (r : Result Error (Unit {0}))
        → check_scheme_from 0 (c ∷ s) ≡ r
        → Ensures (λ t. IsScheme (lowercase t)) (r >>= λ _. ok (c ∷ s))
    go (ok u) e = record {
      legal = rw (check_scheme_from-lowercase 0 (c ∷ s), e);
      lower = lowercase_idem (c ∷ s);
    }
    go (err x) e = tt
    go panic e = Ensures-ne-panic (λ _. Unit) _ (check_scheme_from-Ensures 0 (c ∷ s)) e

abbrev pub IsOptionScheme : Option Text → Type 0
IsOptionScheme none = Unit
IsOptionScheme (some s) = IsScheme s

pub cut_scheme-Ensures : (s : Text) → Ensures (λ r. IsOptionScheme r.0) (cut_scheme s)
unfolding cut_scheme
cut_scheme-Ensures s = go (find (λ c. c == b':') (take (find_or_end (λ c. c == b'/') s) s)) refl
  where
    go :
        (r : Option ℕ)
        → find (λ c. c == b':') (take (find_or_end (λ c. c == b'/') s) s) ≡ r
        → Ensures (λ r. IsOptionScheme r.0) (cut_scheme s)
    go (some n) e =
        rw (e, cut_scheme)
          (bind-Ensures (λ t. IsScheme (lowercase t)) (λ r. IsOptionScheme r.0)
            (check_scheme (take n s)) _ (check_scheme-Ensures (take n s)) (λ t h. h))
    go none e = rw (e, cut_scheme) tt
