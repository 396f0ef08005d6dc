-- ===== src/Tests/Source.antt =====
-- The unit tests of the source, run on the model: one definition for each test function, which says
-- what the test asserts of each of its vectors.
pub mod Addresses
pub mod Hosts
pub mod Parsing
pub mod Schemes
pub mod Elements
pub mod Resolving
pub mod Printing
pub mod Parts
use uri.Prelude.{true, false, Bool, none, some, Option}
use uri.Prelude.{List, map, All, [], ◌∷◌, ◌≡◌}
use uri.Error.{Result, ok, err, panic}

-- `unwrap`, and assertions on the value.
abbrev pub Returns {ℓ κ} : {E : Type ℓ} {A : Type κ} → (A → Type 0) → Result E A → Type 0
Returns P (ok a) = P a
Returns P (err e) = ⊥
Returns P panic = ⊥

-- `assert!(result.is_err())`
abbrev pub Refused {ℓ κ} : {E : Type ℓ} {A : Type κ} → Result E A → Type 0
Refused (ok a) = ⊥
Refused (err e) = Unit
Refused panic = ⊥

-- `unwrap` of an option, and assertions on the value.
abbrev pub IsSomeOf {ℓ} : {A : Type ℓ} → (A → Type 0) → Option A → Type 0
IsSomeOf P none = ⊥
IsSomeOf P (some a) = P a

-- `assert_eq!` for every vector of a list.
abbrev pub AllEqual {ℓ κ} : {A : Type ℓ} {B : Type κ} → (A → B) → (A → B) → List A → Type κ
AllEqual f g vectors = map f vectors ≡ map g vectors

-- `is_err()`
abbrev pub is_err {ℓ κ} : {E : Type ℓ} {A : Type κ} → Result E A → Bool
is_err (ok a) = false
is_err (err e) = true
is_err panic = false
