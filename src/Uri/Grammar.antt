-- ===== src/Uri/Grammar.antt =====
-- The URI references of RFC 3986, component by component, and what the parser of src/uri.rs accepts.
use uri.Text.Slices.{split}
use uri.CharacterClasses.{pchar_not_pct_encoded, query_or_fragment_not_pct_encoded}
use uri.Uri.Schemes.{IsSchemeText}
use uri.Text.{codes, equal, lowercase, Bytes, Text}
use uri.Prelude.{refl, none, ◌∷◌, ◌↔◌, [], is_empty, if◌then◌else◌, some, ◌≡◌, List, Option}
use uri.Uri.Data.{Uri}
use uri.Error.{panic, bind-eq-ok, err, ◌>>=◌, ok, Error, Result}
use uri.Uri.Components.{Components, traverse}
use uri.Authority.Grammar.{IsAuthority}
use uri.Codec.Grammar.{Decodes}

-- A part that may be missing stands for one that may be missing.
abbrev pub Optional {ℓ κ} :
    {A : Type ℓ} {B : Type κ} → (A → B → Type 0) → Option A → Option B → Type 0
Optional R none none = Unit
Optional R (some a) (some b) = R a b
Optional R _ _ = ⊥

-- The segments, each decoded.
abbrev pub Segments : List Text → List Bytes → Type 0
Segments [] [] = Unit
Segments (s ∷ texts) (b ∷ path) = Decodes pchar_not_pct_encoded s b × Segments texts path
Segments _ _ = ⊥

-- The root, the empty path, or segments with a slash between two of them.
abbrev pub IsPathText : Text → List Bytes → Type 0
IsPathText s path =
    if equal s (codes "/")
    then path ≡ [] ∷ []
    else if is_empty s
    then path ≡ []
    else Segments (split b'/' s) path

-- Behind an authority an empty path is the root.
abbrev pub IsPathBehind : Option Text → Text → List Bytes → Type 0
IsPathBehind none s path = IsPathText s path
IsPathBehind (some a) [] path = path ≡ [] ∷ []
IsPathBehind (some a) (c ∷ s) path = IsPathText (c ∷ s) path

-- A scheme stands for itself in lower case.
abbrev pub IsSchemeOf : Text → Text → Type 0
IsSchemeOf s scheme = IsSchemeText s × (scheme ≡ lowercase s)

-- What the components stand for.
pub record IsReference (c : Components) (u : Uri) : Type 0 where
  pub scheme_part : Optional IsSchemeOf c.scheme u.scheme
  pub authority_part : Optional IsAuthority c.authority u.authority
  pub path_part : IsPathBehind c.authority c.path u.path
  pub query_part : Optional (Decodes query_or_fragment_not_pct_encoded) c.query u.query
  pub fragment_part : Optional (Decodes query_or_fragment_not_pct_encoded) c.fragment u.fragment

-- A check or a decoder, under `traverse`, against what it decides.
module _ {A B : Type 0} (R : A → B → Type 0) (f : A → Result Error B)
    (decides : (a : A) (b : B) → (f a ≡ ok b) ↔ R a b) where
  pub traverse-Optional : (a : Option A) (b : Option B) → (traverse f a ≡ ok b) ↔ Optional R a b
  traverse-Optional none none = (λ e. tt, λ h. refl)
  traverse-Optional none (some b) = (λ e. cc, λ h. absurd h)
  traverse-Optional (some a) none = (λ e. absurd (not_none (f a) e), λ h. absurd h)
    where
      not_none :
          (m : Result Error B)
          → ◌≡◌ {A = Result Error (Option B)} (m >>= λ b. ok (some b)) (ok none)
          → ⊥
      not_none (ok b) e = cc
      not_none (err x) e = cc
      not_none panic e = cc
  traverse-Optional (some a) (some b) = (
    λ e.
        let (b', d, q) = bind-eq-ok (f a) _ e in
        let same : b' ≡ b = cc (q) in (decides a b).0 (rw same at d),
    λ h. rw ((decides a b).1 h) refl,
  )
