-- ===== src/Error/Ensures.antt =====
-- What a fallible call promises: no panic, and a property of its value where there is one.
use uri.Text.{Text}
use uri.Prelude.{[], ◌∷◌, ◌≢◌, ◌≡◌, ℕ}
use uri.Error.{Result, ok, err, panic, ◌>>=◌, try_fold}

abbrev pub Ensures {ℓ κ} : {E : Type ℓ} {A : Type κ} → (A → Type 0) → Result E A → Type 0
Ensures P (ok a) = P a
Ensures P (err e) = Unit
Ensures P panic = ⊥

pub bind-Ensures {ℓ κ μ} :
    {E : Type ℓ} {A : Type κ} {B : Type μ} (P : A → Type 0) (Q : B → Type 0) (m : Result E A)
    (f : A → Result E B)
    → Ensures P m
    → ((a : A) → P a → Ensures Q (f a))
    → Ensures Q (m >>= f)
bind-Ensures P Q (ok a) f h k = k a h
bind-Ensures P Q (err e) f h k = tt
bind-Ensures P Q panic f h k = absurd h

-- An invariant of a loop over a text.
pub try_fold-Ensures {ℓ κ} :
    {E : Type ℓ} {S : Type κ} (P : S → Type 0) (next : S → ℕ → Result E S)
    → ((st : S) (c : ℕ) → P st → Ensures P (next st c))
    → (s : Text) (st : S) → P st
    → Ensures P (try_fold next st s)
try_fold-Ensures P next step [] st h = h
try_fold-Ensures P next step (c ∷ s) st h =
    bind-Ensures P P (next st c) (λ st'. try_fold next st' s) (step st c h)
      (λ st' h'. try_fold-Ensures P next step s st' h')

-- A value that a call returns has the property.
pub Ensures-ok {ℓ κ} :
    {E : Type ℓ} {A : Type κ} (P : A → Type 0) (m : Result E A) (a : A)
    → Ensures P m
    → m ≡ ok a
    → P a
Ensures-ok P m a h e = rw e at h

pub Ensures-ne-panic {ℓ κ} :
    {E : Type ℓ} {A : Type κ} (P : A → Type 0) (m : Result E A) → Ensures P m → m ≢ panic
Ensures-ne-panic P m h e = rw e at h
